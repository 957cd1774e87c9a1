-- ===== src/Session/Manager.antt =====
-- proxy/internal/session/manager.go: the life of a session. A call of a method runs here without
-- interruption; `Interleaving` runs the critical sections of several calls in any order. Times are
-- natural numbers. Logs, the writers of the proxy's output and the goroutines are left out: what a
-- goroutine does is an operation of its own.
pub mod Create
pub mod Terminate
pub mod Queries
pub mod Failures
pub mod Success
pub mod Ending
pub mod Shrinking
pub mod Monitor
pub mod Door
pub mod Entry
pub mod Threads
pub mod DoorExamples
pub mod Examples
use rdp_warp_portal.Prelude.{
  ℕ, ◌+◌, Bool, true, false, Option, none, some, List, [], ◌∷◌, ◌++◌, leb, if◌then◌else◌, ◌==◌,
  text_eq, nat_eq, Text, length, not, ◌&&◌, ◌||◌, Result, ok, err,
}
use rdp_warp_portal.Prelude.Assoc.{GoMap, lookup, insert, delete}
use rdp_warp_portal.Session.ConfigWriter.{Removal, Directories}
use rdp_warp_portal.Session.PortPool.{PortPool}
use rdp_warp_portal.Session.Token.{Token, TokenError, token_mismatch, validate}

pub data SessionState : Type 0 where
  creating active connected terminating terminated : SessionState

pub record Session : Type 0 where
  pub id : Text
  pub user_id : Text
  pub target_id : Text
  pub username : Text
  pub target_host : Text
  pub external_port : ℕ
  pub internal_port : ℕ
  pub client_ip : Text
  pub state : SessionState
  pub pid : ℕ
  pub created_at : ℕ
  pub connected_at : Option ℕ
  pub expires_at : ℕ
  pub token : Token

pub record ManagerConfig : Type 0 where
  pub broker_host : Text
  pub broker_domain : Text
  pub cert_dir : Text
  pub max_concurrent_sessions : ℕ
  pub session_max_duration : ℕ
  pub token_ttl : ℕ

-- What the operating system answers: whether it kills a process, how far it removes a session's directory,
-- and whether it removes the file in it.
pub record OsAnswers : Type 0 where
  pub kills : ℕ → Bool
  pub removes : Text → Removal
  pub removes_file : Text → Bool

-- The manager, and what it has made outside of itself: the session directories, and the proxies that were
-- started and not killed, each process with the port it listens on.
pub record Manager : Type 0 where
  pub config : ManagerConfig
  pub sessions : GoMap Text Session
  pub history : List Session
  pub port_pool : PortPool
  pub shut_down : Bool
  pub directories : Directories
  pub proxies : GoMap ℕ ℕ
  pub os : OsAnswers

pub data ManagerError : Type 0 where
  session_not_found session_limit_reached shutting_down ports_failed no_session_id no_token :
      ManagerError
  config_not_written proxy_not_started proxy_not_ready session_not_active : ManagerError

unfoldable pub new_manager : OsAnswers → ManagerConfig → PortPool → Manager
new_manager os config port_pool = record {
  config = config;
  sessions = [];
  history = [];
  port_pool = port_pool;
  shut_down = false;
  directories = [];
  proxies = [];
  os = os;
}

-- The session under an id, changed in place.
unfoldable pub update : Text → (Session → Session) → Manager → Manager
update id f m = elim (lookup id m.sessions) [
  | none ↦ m
  | some s ↦ record m { sessions = insert id (f s) m.sessions }
]

-- The callback `OnConnected` of a session's gatekeeper.
unfoldable pub on_connected : ℕ → Session → Session
on_connected now s = elim s.state [
  | active ↦ record s { state = connected; connected_at = some now }
  | creating ↦ s
  | connected ↦ s
  | terminating ↦ s
  | terminated ↦ s
]

-- The callback `ValidateToken` of a session's gatekeeper.
unfoldable pub validate_token : ℕ → Session → Text → Text → Session × Option TokenError
unfolding validate
validate_token now s value target =
    let (token, error) = validate s.token value now in
    if target == s.target_id then (record s { token = token }, error) else (s, some token_mismatch)

-- `StateTerminating` or `StateTerminated`.
unfoldable pub is_ending : SessionState → Bool
is_ending terminating = true
is_ending terminated = true
is_ending creating = false
is_ending active = false
is_ending connected = false

-- `StateActive` or `StateConnected`.
unfoldable pub is_live : SessionState → Bool
is_live active = true
is_live connected = true
is_live creating = false
is_live terminating = false
is_live terminated = false

-- The first critical section of `CreateSession`.
unfoldable pub check_admission : Manager → Option ManagerError
check_admission m =
    if m.shut_down
    then some shutting_down
    else if leb m.config.max_concurrent_sessions (length m.sessions)
    then some session_limit_reached
    else none

-- The second critical section of `CreateSession`.
unfoldable pub register : Session → Manager → Manager
register s m = record m { sessions = insert s.id (record s { state = active }) m.sessions }

-- The first critical section of `TerminateSession`: the session that this call is to end, if any.
unfoldable pub begin_termination : Text → Manager → Manager × Result ManagerError (Option Session)
unfolding is_ending
begin_termination id m = elim (lookup id m.sessions) [
  | none ↦ (m, err session_not_found)
  | some s ↦ if is_ending s.state then (m, ok none) else (
    record m { sessions = insert id (record s { state = terminating }) m.sessions },
    ok (some (record s { state = terminating })),
  )
]

-- The second critical section of `TerminateSession`. The history keeps the session as the first
-- section left it: nothing reads the token of a terminated session.
unfoldable pub finish_termination : Session → Manager → Manager
finish_termination s m = record m {
  sessions = delete s.id m.sessions;
  history = m.history ++ (record s { state = terminated } ∷ []);
}

pub active_session_count : Manager → ℕ
active_session_count m = length m.sessions
