-- ===== src/Session/Manager/Threads/Invariant.antt =====
-- Who owns which port while calls run at the same time.
use rdp_warp_portal.Prelude.{
  ℕ, ◌+◌, ◌≡◌, true, none, some, text_eq, nat_eq, Text, if◌then◌else◌, ◌==◌,
}
use rdp_warp_portal.Prelude.Assoc.{lookup, Distinct}
use rdp_warp_portal.Prelude.Weights.{weigh}
use rdp_warp_portal.Session.Manager.Threads.{System, Termination}
use rdp_warp_portal.Session.Manager.{Session, is_ending}
use rdp_warp_portal.Session.PortPool.{IsValid, is_in_use}

-- 1 for a session with this external port.
abbrev pub port_weight : ℕ → Session → ℕ
port_weight port s = if s.external_port == port then 1 else 0

-- A registered session owns its port until its termination begins, and the termination from then on
-- until it has released the port.
abbrev pub live_weight : ℕ → Session → ℕ
live_weight port s = if is_ending s.state then 0 else port_weight port s

abbrev pub ending_weight : ℕ → Termination → ℕ
ending_weight port t = if t.released then 0 else port_weight port t.session

unfoldable pub owners : ℕ → System → ℕ
owners port x =
    weigh (port_weight port) x.building
    + weigh (live_weight port) x.manager.sessions
    + weigh (ending_weight port) x.ending

-- A termination's session is registered, under its id, and ends.
abbrev pub Ends : System → Text → Type 0
Ends x id =
    (t : Termination)
    → lookup id x.ending ≡ some t
    → (t.session.id ≡ id)
      × ((s : Session) × (lookup id x.manager.sessions ≡ some s) × (is_ending s.state ≡ true))

pub record Sound (x : System) : Type 0 where
  pub pool_valid : IsValid x.manager.port_pool
  pub building_distinct : Distinct x.building
  pub sessions_distinct : Distinct x.manager.sessions
  pub ending_distinct : Distinct x.ending
  pub keyed : (id : Text) (s : Session) → lookup id x.manager.sessions ≡ some s → s.id ≡ id
  pub separate :
      (id : Text) (s : Session)
      → lookup id x.building ≡ some s
      → lookup id x.manager.sessions ≡ none
  pub ends : (id : Text) → Ends x id
  pub owned : (port : ℕ) → owners port x ≡ (if is_in_use x.manager.port_pool port then 1 else 0)
