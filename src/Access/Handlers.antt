-- ===== src/Access/Handlers.antt =====
-- The handlers of proxy/internal/api/access.go, and `CreateSession` of proxy/internal/api/sessions.go. A
-- body is `none` where its JSON cannot be decoded; a response is its status.
pub mod Granting
pub mod Revoking
pub mod Revoked
use rdp_warp_portal.Prelude.{
  ℕ, Bool, true, false, ◌||◌, not, Option, none, some, List, [], ◌∷◌, if◌then◌else◌, ◌==◌, nat_eq,
  text_eq, Text, codes, Result, ok, err, length, drop, take,
}
use rdp_warp_portal.Access.Store.{
  Grant, MemoryStore, AclError, grant_access, revoke_access, has_access, find_grant,
}
use rdp_warp_portal.Session.ConfigWriter.{TargetCredentials, WriteOutcome}
use rdp_warp_portal.Session.Manager.Create.{Request, create_session}
use rdp_warp_portal.Session.Manager.Queries.{list_sessions}
use rdp_warp_portal.Session.Manager.Terminate.{terminate_session}
use rdp_warp_portal.Session.Manager.{
  Manager, ManagerError, Session, is_ending, session_limit_reached,
}
use rdp_warp_portal.Strings.{contains}

-- The status of a response.
pub data Status : Type 0 where
  status_ok status_created bad_request unauthorized forbidden not_found internal_error
        service_unavailable :
      Status

-- `!strings.Contains(email, "@") || email == ""`.
unfoldable pub bad_email : Text → Bool
bad_email email = not (contains email (codes "@")) || email == []

-- The required fields of a grant.
unfoldable pub bad_grant : Grant → Bool
unfolding bad_email
bad_grant g =
    g.host.hostname == []
    || g.host.ip == []
    || bad_email g.user.email
    || g.user.username == []
    || g.user.secret == []

unfoldable pub with_port : Grant → Grant
with_port g = if g.host.port == 0 then record g { host = record g.host { port = 3389 } } else g

unfoldable pub end_one : Session → Manager → Manager
end_one s m = if is_ending s.state then m else (terminate_session s.id m).0

-- The sessions that the user had when the list was made, one after the other.
unfoldable pub end_each : List Session → Manager → Manager
unfolding end_one
end_each [] m = m
end_each (s ∷ ss) m = end_each ss (end_one s m)

module _ {K : Type 0} where
  unfoldable pub post_grant : Option Grant → MemoryStore K → MemoryStore K × Status
  unfolding bad_grant with_port
  post_grant none store = (store, bad_request)
  post_grant (some g) store =
      if bad_grant g then (store, bad_request) else (grant_access (with_port g) store, status_ok)

  unfoldable pub post_revoke :
      Option (Text × Text) → MemoryStore K × Manager → (MemoryStore K × Manager) × Status
  unfolding bad_email end_each
  post_revoke none (store, m) = ((store, m), bad_request)
  post_revoke (some (email, hostname)) (store, m) =
      if bad_email email
      then ((store, m), bad_request)
      else if hostname == []
      then ((store, m), bad_request)
      else if has_access email hostname store
      then ((revoke_access email hostname store, end_each (list_sessions email m) m), status_ok)
      else ((store, m), not_found)

-- The credentials of a grant, with the password that its secret stands for.
unfoldable pub grant_credentials : Grant → Text → TargetCredentials
grant_credentials g password = record {
  hostname = g.host.hostname;
  ip = g.host.ip;
  port = g.host.port;
  username = g.user.username;
  password = password;
  domain = g.host.domain;
}

unfoldable pub error_status : ManagerError → Status
error_status e = elim e [ session_limit_reached ↦ service_unavailable | _ ↦ internal_error ]

-- The answer to what `CreateSession` returned; `none` stands for no session.
unfoldable pub answer : Manager × Result ManagerError Session → Manager × (Status × Option Session)
unfolding error_status
answer (m, ok s) = (m, (status_created, some s))
answer (m, err e) = (m, (error_status e, none))

-- The call for a user at an address; `outside` has what the system answers.
abbrev pub request_for : Request → Text → Text → TargetCredentials → Request
request_for outside user_id client_ip creds = record outside {
  user_id = user_id;
  creds = creds;
  client_ip = client_ip;
}

-- What the system answers to `CreateSession` is in `outside`, whose other fields are not read.
module _ (resolve : Option (Text → Option Text)) (outside : Request) where
  -- From the resolution of the secret on.
  unfoldable pub open_granted : Text → Text → Grant → Manager → Manager × (Status × Option Session)
  unfolding grant_credentials answer
  open_granted user_id client_ip g m = elim resolve [
    | none ↦ (m, (service_unavailable, none))
    | some resolver ↦ elim (resolver g.user.secret) [
      | none ↦ (m, (service_unavailable, none))
      | some password ↦
          answer (
            create_session (request_for outside user_id client_ip (grant_credentials g password)) m)
    ]
  ]

  -- From the look-up of the grant on.
  unfoldable pub open_for :
      {K : Type 0}
      → Text
      → Text
      → Text
      → MemoryStore K
      → Manager
      → Manager × (Status × Option Session)
  unfolding open_granted
  open_for user_id hostname client_ip store m = elim (find_grant user_id hostname store) [
    | err e ↦ (m, (forbidden, none))
    | ok g ↦ open_granted user_id client_ip g m
  ]

  unfoldable pub post_session :
      {K : Type 0}
      → Option Text
      → Text
      → Text
      → MemoryStore K
      → Manager
      → Manager × (Status × Option Session)
  unfolding open_for
  post_session none user_id client_ip store m = (m, (bad_request, none))
  post_session (some hostname) user_id client_ip store m =
      if hostname == []
      then (m, (bad_request, none))
      else if user_id == []
      then (m, (unauthorized, none))
      else open_for user_id hostname client_ip store m
