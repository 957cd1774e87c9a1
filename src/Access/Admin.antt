-- ===== src/Access/Admin.antt =====
-- The handlers of proxy/internal/api that serve the operators and the portal: publickeys.go,
-- secrets.go, targets.go, health.go, and those of sessions.go that do not open a session. A body is `none` where its JSON cannot be
-- decoded; a response is its status, with its value.
pub mod Keys
use rdp_warp_portal.Prelude.{
  ℕ, zero, Bool, true, false, ◌||◌, not, Option, none, some, List, [], ◌∷◌, ◌++◌, if◌then◌else◌,
  ◌==◌, nat_eq, text_eq, Text, codes, Result, ok, err, ℤ, pos, negsuc,
}
use rdp_warp_portal.Access.Handlers.{bad_email}
use rdp_warp_portal.Access.Store.{
  MemoryStore, PublicKeyEntry, KeyCodec, AclError, key_not_found, add_public_key, remove_public_key,
}
use rdp_warp_portal.Credential.{TargetInfo, CredentialError, GsmProvider, list_targets}
use rdp_warp_portal.Session.Manager.Queries.{
  get_session, list_sessions, available_ports, session_rdp_file,
}
use rdp_warp_portal.Session.Manager.Terminate.{terminate_session}
use rdp_warp_portal.Session.Manager.{
  Manager, ManagerError, Session, session_not_found, active_session_count,
}
use rdp_warp_portal.Session.RdpFile.{rdp_filename}

pub record AddPublicKeyRequest : Type 0 where
  pub email : Text
  pub public_key : Text

pub record RemovePublicKeyRequest : Type 0 where
  pub email : Text
  pub fingerprint : Text

-- A text that can be PEM, an SSH key or base64: how each is read is given, as is whether it is PEM.
unfoldable pub parse_public_key :
    {K : Type 0}
    → (Text → Option (Option K))
    → (Text → Bool)
    → (Text → Option K)
    → (Text → Option K)
    → Text
    → Option K
parse_public_key pem is_ssh ssh der trimmed = elim (pem trimmed) [
  | some key ↦ key
  | none ↦ if is_ssh trimmed then ssh trimmed else der trimmed
]

module _ {K : Type 0} where
  -- The status, and the fingerprint.
  unfoldable pub key_added : MemoryStore K × Result AclError Text → MemoryStore K × ℕ × Option Text
  key_added (store, ok fingerprint) = (store, 200, some fingerprint)
  key_added (store, err e) = (store, 500, none)

  unfoldable pub post_public_key :
      KeyCodec K
      → (Text → Option K)
      → Option AddPublicKeyRequest
      → MemoryStore K
      → MemoryStore K × ℕ × Option Text
  unfolding bad_email add_public_key key_added
  post_public_key codec parse none store = (store, 400, none)
  post_public_key codec parse (some req) store =
      if bad_email req.email
      then (store, 400, none)
      else if req.public_key == []
      then (store, 400, none)
      else elim (parse req.public_key) [
        | none ↦ (store, 400, none)
        | some key ↦ key_added (add_public_key codec req.email key store)
      ]

  unfoldable pub key_removed : MemoryStore K × Option AclError → MemoryStore K × ℕ
  key_removed (store, none) = (store, 200)
  key_removed (store, some key_not_found) = (store, 404)
  key_removed (store, some _) = (store, 500)

  unfoldable pub delete_public_key :
      Option RemovePublicKeyRequest → MemoryStore K → MemoryStore K × ℕ
  unfolding bad_email remove_public_key key_removed
  delete_public_key none store = (store, 400)
  delete_public_key (some req) store =
      if bad_email req.email
      then (store, 400)
      else if req.fingerprint == []
      then (store, 400)
      else key_removed (remove_public_key req.email req.fingerprint store)

-- `Access` of secrets.go: the client, if there is one, and the name that is asked for.
unfoldable pub post_secret : Option (Text → Option Text) → Option Text → ℕ × Option Text
post_secret none body = (503, none)
post_secret (some client) none = (400, none)
post_secret (some client) (some name) =
    if name == []
    then (400, none)
    else elim (client name) [ none ↦ (500, none) | some value ↦ (200, some value) ]

unfoldable pub get_targets : Bool → GsmProvider → ℕ × List TargetInfo
unfolding list_targets
get_targets done p = elim (list_targets done p) [ err e ↦ (500, []) | ok infos ↦ (200, infos) ]

pub record HealthResponse : Type 0 where
  pub status : Text
  pub active_sessions : ℕ
  pub ports_left : ℤ

unfoldable pub health : Manager → ℕ × HealthResponse
health m = (
  200,
  record {
    status = codes "ok";
    active_sessions = active_session_count m;
    ports_left = available_ports m;
  },
)

-- Whether a count of ports is at most zero.
unfoldable pub none_left : ℤ → Bool
none_left (pos n) = n == 0
none_left (negsuc n) = true

unfoldable pub ready : Manager → ℕ × Option HealthResponse
unfolding none_left
ready m = if none_left (available_ports m) then (503, none) else (
  200,
  some (record {
    status = codes "ready";
    active_sessions = active_session_count m;
    ports_left = available_ports m;
  }),
)

-- The status of an error of a session's lookup.
unfoldable pub lookup_status : ManagerError → ℕ
lookup_status session_not_found = 404
lookup_status _ = 500

-- The user that is asked for, or else the one that is known.
unfoldable pub get_sessions : Text → Text → Manager → List Session
unfolding list_sessions
get_sessions asked known m = list_sessions (if asked == [] then known else asked) m

unfoldable pub get_session_by_id : Text → Manager → ℕ × Option Session
unfolding lookup_status
get_session_by_id id m =
    if id == []
    then (400, none)
    else elim (get_session id m) [ err e ↦ (lookup_status e, none) | ok s ↦ (200, some s) ]

-- The name and the content of the file.
unfoldable pub download_rdp_file : Text → Manager → ℕ × Option (Text × Text)
unfolding lookup_status session_rdp_file
download_rdp_file id m = if id == [] then (400, none) else elim (get_session id m) [
  | err e ↦ (lookup_status e, none)
  | ok s ↦ elim (session_rdp_file id m) [
    | err e ↦ (500, none)
    | ok content ↦ (200, some (rdp_filename s.target_id, content))
  ]
]

unfoldable pub ended_status : Manager × Option ManagerError → Manager × ℕ
unfolding lookup_status
ended_status (m, none) = (m, 204)
ended_status (m, some e) = (m, lookup_status e)

unfoldable pub delete_session : Text → Manager → Manager × ℕ
unfolding terminate_session ended_status
delete_session id m = if id == [] then (m, 400) else ended_status (terminate_session id m)
