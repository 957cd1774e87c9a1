-- ===== src/Session/Manager/Threads/Ports.antt =====
-- While calls run at the same time, no port has two owners.
use rdp_warp_portal.Prelude.{
  ℕ, ◌≡◌, ◌≢◌, refl, Bool, true, false, none, some, text_eq, nat_eq, Text, arith, suc,
}
use rdp_warp_portal.Prelude.Assoc.{lookup}
use rdp_warp_portal.Prelude.Weights.{weigh, weigh_two, weigh-delete}
use rdp_warp_portal.Session.Manager.Threads.BeginSteps.{begins-Sound}
use rdp_warp_portal.Session.Manager.Threads.EndSteps.{finishes-Sound, releases-Sound, touches-Sound}
use rdp_warp_portal.Session.Manager.Threads.Invariant.{
  port_weight, live_weight, ending_weight, owners, Sound,
}
use rdp_warp_portal.Session.Manager.Threads.Steps.{gives_up-Sound, registers-Sound, takes-Sound}
use rdp_warp_portal.Session.Manager.Threads.{
  System, Step, admits, takes, finds_no_port, gives_up, registers, touches, begins, releases,
  finishes, shuts_down, Reachable, starts, moves, idle_system,
}
use rdp_warp_portal.Session.Manager.{ManagerConfig, OsAnswers, Session, is_ending, new_manager}
use rdp_warp_portal.Session.PortPool.Release.{release_in_use}
use rdp_warp_portal.Session.PortPool.{release, is_in_use, new_port_pool, held}

-- Nothing is owned by a call that has no port yet, and shutting down takes nothing away.
quiet-Sound :
    (x : System) (n : ℕ) (down : Bool)
    → Sound x
    → Sound (record x { admitted = n; manager = record x.manager { shut_down = down } })
unfolding owners
quiet-Sound x n down sound = record {
  pool_valid = sound.pool_valid;
  building_distinct = sound.building_distinct;
  sessions_distinct = sound.sessions_distinct;
  ending_distinct = sound.ending_distinct;
  keyed = sound.keyed;
  separate = sound.separate;
  ends = sound.ends;
  owned = sound.owned;
}

Step-Sound : (x y : System) → Step x y → Sound x → Sound y
Step-Sound _ _ (admits x below) sound = quiet-Sound x (suc x.admitted) x.manager.shut_down sound
Step-Sound _ _ (takes x n s waiting got new unregistered) sound =
    takes-Sound x n s got new unregistered sound
Step-Sound _ _ (finds_no_port x n e waiting full) sound = quiet-Sound x n x.manager.shut_down sound
Step-Sound _ _ (gives_up x s found) sound = gives_up-Sound x s found sound
Step-Sound _ _ (registers x s found) sound = registers-Sound x s found sound
Step-Sound _ _ (touches x id t) sound = touches-Sound x id t sound
Step-Sound _ _ (begins x id m s begun) sound = begins-Sound x id m s begun sound
Step-Sound _ _ (releases x id s found) sound = releases-Sound x id s found sound
Step-Sound _ _ (finishes x id s found) sound = finishes-Sound x id s found sound
Step-Sound _ _ (shuts_down x) sound = quiet-Sound x x.admitted true sound

idle-Sound :
    (os : OsAnswers) (config : ManagerConfig) (a b o : ℕ)
    → Sound (idle_system (new_manager os config (new_port_pool a b o)))
unfolding idle_system new_manager new_port_pool owners weigh is_in_use held lookup
idle-Sound os config a b o = record {
  pool_valid = record { distinct = tt; marked = tt };
  building_distinct = tt;
  sessions_distinct = tt;
  ending_distinct = tt;
  keyed = λ id s found. cc;
  separate = λ id s found. refl;
  ends = λ id t found. absurd (cc);
  owned = λ port. refl;
}

-- Whatever creations, terminations, connections and shutdowns run at the same time, and in whatever
-- order their critical sections come, every port that is in use has one owner and every other port
-- has none: an owner is a creation under way, a registered session that is not ending, or a
-- termination that has not released its port.
pub Reachable-Sound :
    (config : ManagerConfig) (a b o : ℕ) (x : System)
    → Reachable config (new_port_pool a b o) x
    → Sound x
Reachable-Sound config a b o _ (starts os) = idle-Sound os config a b o
Reachable-Sound config a b o y (moves x _ before step) =
    Step-Sound x y step (Reachable-Sound config a b o x before)

-- In every such system, two registered sessions that are not ending have different external ports.
pub Reachable-ports_distinct :
    (config : ManagerConfig) (a b o : ℕ) (x : System) (j k : Text) (s t : Session)
    → Reachable config (new_port_pool a b o) x
    → j ≢ k
    → lookup j x.manager.sessions ≡ some s
    → lookup k x.manager.sessions ≡ some t
    → is_ending s.state ≡ false
    → is_ending t.state ≡ false
    → s.external_port ≢ t.external_port
unfolding owners
Reachable-ports_distinct config a b o x j k s t reached apart at_j at_k live live' =
    let sound = Reachable-Sound config a b o x reached in
    let port = s.external_port in
    let at_most = sound.owned port in
    let two =
      weigh_two (live_weight port) j k s t x.manager.sessions sound.sessions_distinct apart at_j
        at_k in
    λ same. ground arith

-- In every such system, the `Release` of a termination, and that of a creation that fails, finds the
-- port in use and succeeds.
pub Reachable-release :
    (config : ManagerConfig) (a b o : ℕ) (x : System)
    → Reachable config (new_port_pool a b o) x
    → ((id : Text) (s : Session)
        → lookup id x.ending ≡ some (record { session = s; released = false })
        → (release x.manager.port_pool s.external_port).1 ≡ none)
      × ((id : Text) (s : Session)
          → lookup id x.building ≡ some s
          → (release x.manager.port_pool s.external_port).1 ≡ none)
unfolding owners
Reachable-release config a b o x reached =
    let sound = Reachable-Sound config a b o x reached in
    (
      λ id s found.
          let port = s.external_port in
          let at_most = sound.owned port in
          let mine = weigh-delete (ending_weight port) id _ x.ending sound.ending_distinct found in
          (release_in_use x.manager.port_pool port sound.pool_valid (ground arith)).0,
      λ id s found.
          let port = s.external_port in
          let at_most = sound.owned port in
          let mine =
            weigh-delete (port_weight port) id s x.building sound.building_distinct found in
          (release_in_use x.manager.port_pool port sound.pool_valid (ground arith)).0,
    )
