-- ===== src/Agent/Sessions.antt =====
-- The sessions of the Windows machine: the diff of `Run` in agent/internal/session/detector.go, and
-- the callbacks and the shutdown of `runAgent` in agent/cmd/p0rtal-agent/main.go. The list of
-- sessions is Windows' answer; a recorder is of any type, and starts or does not.
pub mod Balance
pub mod Covered
pub mod Shutdown
pub mod Unrecorded
use rdp_warp_portal.Prelude.{
  ℕ, zero, suc, ◌+◌, Bool, true, false, not, ◌&&◌, Option, none, some, List, [], ◌∷◌, ◌++◌, nat_eq,
  text_eq, Text, if◌then◌else◌, ◌==◌, get_or, leb, length, Result, ok, err,
}
use rdp_warp_portal.Prelude.Assoc.{GoMap, lookup, insert, delete}

pub record SessionInfo : Type 0 where
  pub id : ℕ
  pub user : Text
  pub state : ℕ
  pub client_ip : Text

-- The state `WTSActive`.
abbrev pub wts_active : ℕ
wts_active = 0

-- `currentMap`, with the sessions that are already in it.
unfoldable pub current_from : GoMap ℕ SessionInfo → List SessionInfo → GoMap ℕ SessionInfo
unfolding insert
current_from found [] = found
current_from found (s ∷ sessions) =
    current_from
      (if s.state == wts_active && not (s.user == []) then insert s.id s found else found) sessions

unfoldable pub current_map : List SessionInfo → GoMap ℕ SessionInfo
unfolding current_from
current_map = current_from []

-- The sessions of the last poll, the recorders by session, and all that were started and stopped.
pub record Agent (R : Type 0) : Type 0 where
  pub active_sessions : GoMap ℕ SessionInfo
  pub recorders : GoMap ℕ R
  pub started : List R
  pub stopped : List R

module _ {R : Type 0} where
  -- What `rec.Start` leaves is given by the session.
  unfoldable pub on_logon : (SessionInfo → Option R) → SessionInfo → Agent R → Agent R
  unfolding insert
  on_logon start info a = elim (start info) [
    | none ↦ a
    | some r ↦ record a { recorders = insert info.id r a.recorders; started = r ∷ a.started }
  ]

  unfoldable pub on_logoff : SessionInfo → Agent R → Agent R
  unfolding lookup delete
  on_logoff info a = elim (lookup info.id a.recorders) [
    | none ↦ a
    | some r ↦ record a { recorders = delete info.id a.recorders; stopped = r ∷ a.stopped }
  ]

  -- The loop over `currentMap`, beside the sessions of the last poll.
  unfoldable pub log_on :
      (SessionInfo → Option R) → GoMap ℕ SessionInfo → GoMap ℕ SessionInfo → Agent R → Agent R
  unfolding on_logon lookup
  log_on start [] before a = a
  log_on start ((id, info) ∷ entries) before a =
      log_on start entries before
        (elim (lookup id before) [ none ↦ on_logon start info a | some _ ↦ a ])

  -- The loop over `activeSessions`, beside `currentMap`.
  unfoldable pub log_off : GoMap ℕ SessionInfo → GoMap ℕ SessionInfo → Agent R → Agent R
  unfolding on_logoff lookup
  log_off [] current a = a
  log_off ((id, info) ∷ entries) current a =
      log_off entries current (elim (lookup id current) [ none ↦ on_logoff info a | some _ ↦ a ])

  -- A tick of `Run`: `none` if the sessions cannot be listed.
  unfoldable pub poll : (SessionInfo → Option R) → Option (List SessionInfo) → Agent R → Agent R
  unfolding log_on log_off current_map
  poll start none a = a
  poll start (some sessions) a =
      let current = current_map sessions in
      let logged = log_off a.active_sessions current (log_on start current a.active_sessions a) in
      record logged { active_sessions = current }

  unfoldable pub run :
      List ((SessionInfo → Option R) × Option (List SessionInfo)) → Agent R → Agent R
  unfolding poll
  run [] a = a
  run ((start, sessions) ∷ ticks) a = run ticks (poll start sessions a)

  -- The end of `runAgent`: every recorder of the map is stopped.
  unfoldable pub stop_all_from : GoMap ℕ R → List R → List R
  stop_all_from [] stopped = stopped
  stop_all_from ((id, r) ∷ entries) stopped = stop_all_from entries (r ∷ stopped)

  unfoldable pub stop_all : Agent R → Agent R
  unfolding stop_all_from
  stop_all a = record a { stopped = stop_all_from a.recorders a.stopped }

  unfoldable pub new_agent : Agent R
  new_agent = record { active_sessions = []; recorders = []; started = []; stopped = [] }
