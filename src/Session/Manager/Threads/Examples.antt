-- ===== src/Session/Manager/Threads/Examples.antt =====
-- Two creations and a termination that run at the same time.
use rdp_warp_portal.Prelude.{◌≢◌, refl, true, [], ◌∷◌, codes, text_beq, text_eq, nat_eq, ne_of_beq}
use rdp_warp_portal.Prelude.Assoc.{lookup, insert, delete}
use rdp_warp_portal.Session.Manager.Examples.{config, obeys, manager, session}
use rdp_warp_portal.Session.Manager.Threads.Invariant.{Sound}
use rdp_warp_portal.Session.Manager.Threads.Ports.{Reachable-Sound, Reachable-ports_distinct}
use rdp_warp_portal.Session.Manager.Threads.{
  System, Reachable, starts, moves, admits, takes, registers, idle_system,
}
use rdp_warp_portal.Session.Manager.{
  Session, active, new_manager, check_admission, register, is_ending,
}
use rdp_warp_portal.Session.PortPool.{PortPool, allocate, held, new_port_pool}

abbrev first : Session
first = record session { id = codes "A" }

abbrev second : Session
second = record session { id = codes "B"; external_port = 33401; internal_port = 43401 }

abbrev pool : PortPool
pool = new_port_pool 33400 33401 10000

-- Both are admitted before either takes its ports.
abbrev both_admitted : System
both_admitted = record { manager = manager; admitted = 2; building = []; ending = [] }

abbrev one_building : System
one_building = record {
  manager = record manager { port_pool = record manager.port_pool { in_use = (33400, true) ∷ [] } };
  admitted = 1;
  building = (codes "A", first) ∷ [];
  ending = [];
}

abbrev two_building : System
two_building = record {
  manager = record manager {
    port_pool = record manager.port_pool { in_use = (33400, true) ∷ (33401, true) ∷ [] };
  };
  admitted = 0;
  building = (codes "A", first) ∷ (codes "B", second) ∷ [];
  ending = [];
}

abbrev one_registered : System
one_registered = record two_building {
  manager = record two_building.manager {
    sessions = (codes "A", record first { state = active }) ∷ [];
  };
  building = (codes "B", second) ∷ [];
}

abbrev two_registered : System
two_registered = record two_building {
  manager = record two_building.manager {
    sessions =
        (codes "A", record first { state = active })
        ∷ (codes "B", record second { state = active })
        ∷ [];
  };
  building = [];
}

admitted-Reachable : Reachable config pool both_admitted
unfolding check_admission idle_system new_manager new_port_pool
admitted-Reachable = moves _ _ (moves _ _ (starts obeys) (admits _ refl)) (admits _ refl)

building-Reachable : Reachable config pool two_building
unfolding allocate held lookup insert text_beq
building-Reachable =
    moves one_building two_building
      (moves both_admitted one_building admitted-Reachable
        (takes both_admitted 1 first refl refl refl refl))
      (takes one_building 0 second refl refl refl refl)

registered-Reachable : Reachable config pool two_registered
unfolding lookup insert delete text_beq register
registered-Reachable =
    moves one_registered two_registered
      (moves two_building one_registered building-Reachable (registers two_building first refl))
      (registers one_registered second refl)

Reachable-Sound_example : Sound two_registered
Reachable-Sound_example =
    Reachable-Sound config 33400 33401 10000 two_registered registered-Reachable

Reachable-ports_distinct_example : first.external_port ≢ second.external_port
unfolding lookup text_beq is_ending
Reachable-ports_distinct_example =
    Reachable-ports_distinct config 33400 33401 10000 two_registered (codes "A") (codes "B")
      (record first { state = active }) (record second { state = active }) registered-Reachable
      (ne_of_beq (codes "A") (codes "B") refl) refl refl refl refl
