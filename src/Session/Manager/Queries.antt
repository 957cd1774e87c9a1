-- ===== src/Session/Manager/Queries.antt =====
-- The operations of the manager that read only.
use rdp_warp_portal.Prelude.{
  ℕ, Bool, false, ◌||◌, Option, none, some, List, [], ◌∷◌, ◌++◌, ltb, if◌then◌else◌, ◌==◌, text_eq,
  Text, codes, take, Result, ok, err, ℤ,
}
use rdp_warp_portal.Prelude.Assoc.{GoMap, lookup}
use rdp_warp_portal.Session.Manager.{
  Manager, ManagerError, Session, session_not_found, session_not_active, is_live,
}
use rdp_warp_portal.Session.PortPool.{available}
use rdp_warp_portal.Session.RdpFile.{RdpFileParams, generate_rdp_file}
use rdp_warp_portal.Strings.{index, equal_fold}

pub get_session : Text → Manager → Result ManagerError Session
get_session id m = elim (lookup id m.sessions) [ none ↦ err session_not_found | some s ↦ ok s ]

-- The filter's part before its first `@`, if that is not the first byte.
unfoldable pub local_part : Text → Option Text
unfolding index
local_part filter = elim (index filter (codes "@")) [
  | none ↦ none
  | some i ↦ if ltb 0 i then some (take i filter) else none
]

unfoldable pub matches_user : Text → Text → Bool
unfolding equal_fold local_part
matches_user user_id filter =
    equal_fold user_id filter
    || elim (local_part filter) [ none ↦ false | some l ↦ equal_fold user_id l ]

unfoldable pub selected : Text → Session → Bool
unfolding matches_user
selected user_id s = user_id == [] || matches_user s.user_id user_id

unfoldable pub keep_selected : Text → List Session → List Session
unfolding selected
keep_selected user_id [] = []
keep_selected user_id (s ∷ rest) =
    let kept = keep_selected user_id rest in if selected user_id s then s ∷ kept else kept

abbrev pub values : GoMap Text Session → List Session
values [] = []
values ((id, s) ∷ rest) = s ∷ values rest

unfoldable pub list_sessions : Text → Manager → List Session
unfolding keep_selected
list_sessions user_id m =
    keep_selected user_id (values m.sessions) ++ keep_selected user_id m.history

-- What the file of a session says.
unfoldable pub rdp_params : Manager → Session → RdpFileParams
rdp_params m s = record {
  broker_host = m.config.broker_host;
  port = s.external_port;
  user_id = s.user_id;
  target_id = s.target_id;
  token = s.token.value;
  domain = m.config.broker_domain;
}

unfoldable pub session_rdp_file : Text → Manager → Result ManagerError Text
unfolding is_live rdp_params
session_rdp_file id m = elim (lookup id m.sessions) [
  | none ↦ err session_not_found
  | some s ↦
      if is_live s.state then ok (generate_rdp_file (rdp_params m s)) else err session_not_active
]

pub available_ports : Manager → ℤ
available_ports m = available m.port_pool

pub token_expiry : Text → Manager → Result ManagerError ℕ
token_expiry id m = elim (lookup id m.sessions) [
  | none ↦ err session_not_found
  | some s ↦ ok s.token.expiry
]
