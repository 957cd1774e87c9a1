-- ===== src/Session/PortPool/Examples.antt =====
-- Tests of the pool, and its theorems at concrete pools.
use rdp_warp_portal.Prelude.{
  ℕ, ◌≡◌, refl, ◌⊎◌, true, ◌||◌, ◌∷◌, [], ok, err, arith, ◌==◌, nat_eq, pos,
}
use rdp_warp_portal.Prelude.Assoc.{lookup}
use rdp_warp_portal.Session.PortPool.Alloc.{FirstFree, AllInUse, allocate_first_fit}
use rdp_warp_portal.Session.PortPool.Runs.{run-IsValid, run, allocates, releases}
use rdp_warp_portal.Session.PortPool.{
  PortPool, no_ports_available, held, first_free, allocate, available, in_use_count, total,
  is_in_use, internal_port, range, new_port_pool, IsValid,
}

-- Three ports, the first of them taken.
abbrev small : PortPool
small = record {
  start_port = 33400;
  end_port = 33402;
  internal_offset = 11000;
  in_use = (33400, true) ∷ [];
}

small-IsValid : IsValid small
unfolding lookup
small-IsValid = record { distinct = (refl, tt); marked = ((refl, omega arith, omega arith), tt) }

second : (allocate small).1 ≡ ok (33401, 44401)
unfolding allocate first_free held lookup
second = refl

empty_range : (allocate (new_port_pool 5 4 1)).1 ≡ err no_ports_available
unfolding allocate first_free new_port_pool
empty_range = refl

reported : (available small ≡ pos 2) × (in_use_count small ≡ 1) × (total small ≡ pos 3)
unfolding available in_use_count total
reported = (refl, refl, refl)

ends : (range small ≡ (33400, 33402)) × (internal_port small 33402 ≡ 44402)
unfolding range internal_port
ends = (refl, refl)

allocate_first_fit_example :
    ((port : ℕ) × ((allocate small).1 ≡ ok (port, internal_port small port))
      × FirstFree small port
      × ((k : ℕ) → is_in_use (allocate small).0 k ≡ (port == k || is_in_use small k)))
    ⊎ (((allocate small).1 ≡ err no_ports_available)
        × ((allocate small).0 ≡ small)
        × AllInUse small)
allocate_first_fit_example = allocate_first_fit small

run-IsValid_example :
    IsValid (run (new_port_pool 33400 33402 11000) (allocates ∷ allocates ∷ releases 33400 ∷ []))
run-IsValid_example = run-IsValid 33400 33402 11000 (allocates ∷ allocates ∷ releases 33400 ∷ [])
