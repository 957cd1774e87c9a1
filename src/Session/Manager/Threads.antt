-- ===== src/Session/Manager/Threads.antt =====
-- Calls of the manager that run at the same time. `CreateSession` and `TerminateSession` hold a lock
-- only in parts: each such part is one step here, and between two of them any other step may run.
-- What a call does with the file system and the processes alone changes nothing here.
pub mod Invariant
pub mod Steps
pub mod EndSteps
pub mod BeginSteps
pub mod Ports
pub mod Examples
use rdp_warp_portal.Prelude.{
  ℕ, zero, suc, ◌≡◌, ◌≢◌, Bool, true, false, Option, none, some, List, [], ◌∷◌, text_eq, Text,
  Result, ok, err,
}
use rdp_warp_portal.Prelude.Assoc.{GoMap, lookup, insert, delete}
use rdp_warp_portal.Session.Manager.Create.{give_back}
use rdp_warp_portal.Session.Manager.{
  Manager, ManagerConfig, OsAnswers, ManagerError, Session, SessionState, new_manager,
  check_admission, register, begin_termination, finish_termination, update, on_connected,
  validate_token, creating,
}
use rdp_warp_portal.Session.PortPool.{PortPool, PortError, allocate}
use rdp_warp_portal.Session.Token.{TokenError}

-- A `TerminateSession` between its two critical sections: its session, and whether the port is
-- released yet.
pub record Termination : Type 0 where
  pub session : Session
  pub released : Bool

-- The manager and the calls under way: creations that are admitted but have no ports yet, creations
-- that have ports, and terminations.
pub record System : Type 0 where
  pub manager : Manager
  pub admitted : ℕ
  pub building : GoMap Text Session
  pub ending : GoMap Text Termination

unfoldable pub idle_system : Manager → System
idle_system m = record { manager = m; admitted = 0; building = []; ending = [] }

-- A change of a session by its gatekeeper.
pub data Touch : Type 0 where
  connects : ℕ → Touch
  presents : ℕ → Text → Text → Touch

pub touch : Touch → Session → Session
unfolding on_connected validate_token
touch (connects now) s = on_connected now s
touch (presents now value target) s = (validate_token now s value target).0

-- One step. That the random ids do not repeat is assumed where an id is drawn.
pub data Step : System → System → Type 0 where
  admits :
      (x : System)
      → check_admission x.manager ≡ none
      → Step x (record x { admitted = suc x.admitted })
  takes :
      (x : System) (n : ℕ) (s : Session)
      → x.admitted ≡ suc n
      → (allocate x.manager.port_pool).1 ≡ ok (s.external_port, s.internal_port)
      → lookup s.id x.building ≡ none
      → lookup s.id x.manager.sessions ≡ none
      → Step x (record x {
        admitted = n;
        manager = record x.manager { port_pool = (allocate x.manager.port_pool).0 };
        building = insert s.id s x.building;
      })
  finds_no_port :
      (x : System) (n : ℕ) (e : PortError)
      → x.admitted ≡ suc n
      → (allocate x.manager.port_pool).1 ≡ err e
      → Step x (record x { admitted = n })
  gives_up :
      (x : System) (s : Session)
      → lookup s.id x.building ≡ some s
      → Step x (record x {
        manager = give_back s.external_port x.manager;
        building = delete s.id x.building;
      })
  registers :
      (x : System) (s : Session)
      → lookup s.id x.building ≡ some s
      → Step x (record x { manager = register s x.manager; building = delete s.id x.building })
  touches :
      (x : System) (id : Text) (t : Touch)
      → Step x (record x { manager = update id (touch t) x.manager })
  begins :
      (x : System) (id : Text) (m : Manager) (s : Session)
      → begin_termination id x.manager ≡ (m, ok (some s))
      → Step x (record x {
        manager = m;
        ending = insert id (record { session = s; released = false }) x.ending;
      })
  releases :
      (x : System) (id : Text) (s : Session)
      → lookup id x.ending ≡ some (record { session = s; released = false })
      → Step x (record x {
        manager = give_back s.external_port x.manager;
        ending = insert id (record { session = s; released = true }) x.ending;
      })
  finishes :
      (x : System) (id : Text) (s : Session)
      → lookup id x.ending ≡ some (record { session = s; released = true })
      → Step x (record x { manager = finish_termination s x.manager; ending = delete id x.ending })
  shuts_down : (x : System) → Step x (record x { manager = record x.manager { shut_down = true } })

-- What a system can become that starts with a new manager.
pub data Reachable (config : ManagerConfig) (pool : PortPool) : System → Type 0 where
  starts : (os : OsAnswers) → Reachable config pool (idle_system (new_manager os config pool))
  moves : (x y : System) → Reachable config pool x → Step x y → Reachable config pool y
