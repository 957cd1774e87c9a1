-- ===== src/Session/PortPool/Runs.antt =====
-- Sequences of calls on one pool.
use rdp_warp_portal.Prelude.{ℕ, nat_eq, List, [], ◌∷◌}
use rdp_warp_portal.Session.PortPool.Alloc.{allocate-IsValid}
use rdp_warp_portal.Session.PortPool.Release.{release-IsValid}
use rdp_warp_portal.Session.PortPool.{PortPool, allocate, release, new_port_pool, IsValid}

-- A call of the pool by a session.
pub data PoolCall : Type 0 where
  allocates : PoolCall
  releases : ℕ → PoolCall

pub step : PortPool → PoolCall → PortPool
step p allocates = (allocate p).0
step p (releases port) = (release p port).0

pub run : PortPool → List PoolCall → PortPool
run pool [] = pool
run pool (call ∷ calls) = run (step pool call) calls

step-IsValid : (p : PortPool) (c : PoolCall) → IsValid p → IsValid (step p c)
unfolding step
step-IsValid p allocates v = allocate-IsValid p v
step-IsValid p (releases port) v = release-IsValid p port v

run-IsValid_from : (p : PortPool) (cs : List PoolCall) → IsValid p → IsValid (run p cs)
unfolding run
run-IsValid_from p [] v = v
run-IsValid_from p (c ∷ cs) v = run-IsValid_from (step p c) cs (step-IsValid p c v)

-- After any sequence of calls on a new pool, whatever their order and their arguments, the map has
-- one entry for each port in use, marked true, and each such port lies in the range.
pub run-IsValid :
    (start_port end_port offset : ℕ) (cs : List PoolCall)
    → IsValid (run (new_port_pool start_port end_port offset) cs)
unfolding new_port_pool
run-IsValid start_port end_port offset cs =
    run-IsValid_from _ cs (record { distinct = tt; marked = tt })
