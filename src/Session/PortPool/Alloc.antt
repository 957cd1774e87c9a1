-- ===== src/Session/PortPool/Alloc.antt =====
-- `Allocate`: first fit.
use rdp_warp_portal.Prelude.{
  ℕ, zero, suc, ◌+◌, ◌-◌, ◌≤◌, ◌<◌, ◌≡◌, subst, refl, ◌⊎◌, inl, inr, Bool, true, false, ◌||◌, none,
  some, ok, err, nat_eq, arith, ◌==◌, Option-cases,
}
use rdp_warp_portal.Prelude.Assoc.{GoMap, insert, lookup-insert, insert-Distinct, All-insert}
use rdp_warp_portal.Session.PortPool.{
  PortPool, no_ports_available, held, first_free, allocate, is_in_use, internal_port, IsValid,
  Marked,
}

pub held-insert :
    (m : GoMap ℕ Bool) (port k : ℕ) → held (insert port true m) k ≡ (port == k || held m k)
unfolding held
held-insert m port k = ground (arith, lookup-insert port k true m)

-- The loop finds the first port that is not held, or none in its rounds.
first_free-some :
    (m : GoMap ℕ Bool) (n lo port : ℕ)
    → first_free m n lo ≡ some port
    → (lo ≤ port) × (port < lo + n) × (held m port ≡ false)
unfolding first_free
first_free-some m zero lo port h = absurd (cc)
first_free-some m (suc n) lo port h = ground (arith, first_free-some m n (suc lo) port)

first_free_before :
    (m : GoMap ℕ Bool) (n lo port k : ℕ)
    → first_free m n lo ≡ some port
    → lo ≤ k
    → k < port
    → held m k ≡ true
unfolding first_free
first_free_before m zero lo port k h a b = absurd (cc)
first_free_before m (suc n) lo port k h a b = ground (arith, first_free_before m n (suc lo) port k)

first_free-none :
    (m : GoMap ℕ Bool) (n lo k : ℕ)
    → first_free m n lo ≡ none
    → lo ≤ k
    → k < lo + n
    → held m k ≡ true
unfolding first_free
first_free-none m zero lo k h a b = absurd (omega arith)
first_free-none m (suc n) lo k h a b = ground (arith, first_free-none m n (suc lo) k)

-- The first port of the range that is not in use.
abbrev pub FirstFree : PortPool → ℕ → Type 0
FirstFree p port =
    (p.start_port ≤ port)
    × (port ≤ p.end_port)
    × (is_in_use p port ≡ false)
    × ((k : ℕ) → p.start_port ≤ k → k < port → is_in_use p k ≡ true)

abbrev pub AllInUse : PortPool → Type 0
AllInUse p = (k : ℕ) → p.start_port ≤ k → k ≤ p.end_port → is_in_use p k ≡ true

-- The two branches of `Allocate`.
pub allocate_found :
    (p : PortPool)
    → ((port : ℕ) × (allocate p
          ≡ (record p { in_use = insert port true p.in_use }, ok (port, internal_port p port)))
        × FirstFree p port)
      ⊎ ((allocate p ≡ (p, err no_ports_available)) × AllInUse p)
unfolding allocate is_in_use internal_port
allocate_found p =
    elim (Option-cases (first_free p.in_use (p.end_port + 1 - p.start_port) p.start_port)) [
      | inl e ↦
          inr (ground arith, λ k a b. first_free-none p.in_use _ p.start_port k e a (omega arith))
      | inr (port, e) ↦
          let (low, high, free) = first_free-some p.in_use _ p.start_port port e in
          inl (
            port,
            ground arith,
            (low, omega arith, free, λ k. first_free_before p.in_use _ p.start_port port k e),
          )
    ]

-- On every pool, `Allocate` either marks the first free port of the range, marks nothing else, and
-- returns it with its internal port; or every port is in use, and the pool stays as it is.
pub allocate_first_fit :
    (p : PortPool)
    → ((port : ℕ) × ((allocate p).1 ≡ ok (port, internal_port p port))
        × FirstFree p port
        × ((k : ℕ) → is_in_use (allocate p).0 k ≡ (port == k || is_in_use p k)))
      ⊎ (((allocate p).1 ≡ err no_ports_available) × ((allocate p).0 ≡ p) × AllInUse p)
unfolding is_in_use
allocate_first_fit p = elim (allocate_found p) [
  | inl (port, e, free) ↦ inl (port, rw e, free, λ k. rw e (held-insert p.in_use port k))
  | inr (e, full) ↦ inr (rw e, rw e, full)
]

pub allocate-IsValid : (p : PortPool) → IsValid p → IsValid (allocate p).0
allocate-IsValid p v = elim (allocate_found p) [
  | inl (port, e, (low, high, _, _)) ↦ rw e (record {
    distinct = insert-Distinct port true p.in_use v.distinct;
    marked = All-insert (Marked p) port true p.in_use (refl, low, high) v.marked;
  })
  | inr (e, _) ↦ rw e v
]

-- The port that `Allocate` returns was free, and it alone is marked.
pub allocate_marks :
    (p : PortPool) (port internal : ℕ)
    → (allocate p).1 ≡ ok (port, internal)
    → (is_in_use p port ≡ false)
      × ((k : ℕ) → is_in_use (allocate p).0 k ≡ (port == k || is_in_use p k))
allocate_marks p port internal h = elim (allocate_first_fit p) [
  | inl (q, returns, (_, _, free, _), marks) ↦
      let same : q ≡ port = cc in
      subst
        (λ n.
          (is_in_use p n ≡ false)
          × ((k : ℕ) → is_in_use (allocate p).0 k ≡ (n == k || is_in_use p k)))
        same (free, marks)
  | inr (fails, _, _) ↦ absurd (cc)
]
