-- ===== src/Session/PortPool/Release.antt =====
-- `Release`, and its interplay with `Allocate`.
use rdp_warp_portal.Prelude.{
  ℕ, ◌≤◌, ◌<◌, ◌≡◌, ◌⊎◌, inl, inr, Bool, true, false, none, some, if◌then◌else◌, Result, ok, nat_eq,
  arith, ◌==◌, Bool-cases, Option-cases, ap, subst, ◌∙◌, beq_refl,
}
use rdp_warp_portal.Prelude.Assoc.{
  GoMap, lookup, insert, delete, lookup-delete, delete-Distinct, All-delete, All-lookup,
  delete-insert,
}
use rdp_warp_portal.Session.PortPool.Alloc.{allocate_found, held-insert}
use rdp_warp_portal.Session.PortPool.{
  PortPool, PortError, port_not_in_use, port_out_of_range, held, allocate, release, is_in_use,
  internal_port, IsValid, Marked,
}

held-delete :
    (m : GoMap ℕ Bool) (port k : ℕ)
    → held (delete port m) k ≡ (if port == k then false else held m k)
unfolding held
held-delete m port k = ground (arith, lookup-delete port k m)

range_cases :
    (p : PortPool) (port : ℕ)
    → ((port < p.start_port) ⊎ (p.end_port < port)) ⊎ ((p.start_port ≤ port) × (port ≤ p.end_port))
range_cases p port = grind arith

release_outside :
    (p : PortPool) (port : ℕ)
    → (port < p.start_port) ⊎ (p.end_port < port)
    → release p port ≡ (p, some port_out_of_range)
unfolding release
release_outside p port h = ground arith

release_unheld :
    (p : PortPool) (port : ℕ)
    → p.start_port ≤ port
    → port ≤ p.end_port
    → held p.in_use port ≡ false
    → release p port ≡ (p, some port_not_in_use)
unfolding release
release_unheld p port a b h = ground arith

pub release-held :
    (p : PortPool) (port : ℕ)
    → p.start_port ≤ port
    → port ≤ p.end_port
    → held p.in_use port ≡ true
    → release p port ≡ (record p { in_use = delete port p.in_use }, none)
unfolding release
release-held p port a b h = ground arith

pub release-IsValid : (p : PortPool) (port : ℕ) → IsValid p → IsValid (release p port).0
release-IsValid p port v = elim (range_cases p port) [
  | inl out ↦ rw (release_outside p port out) v
  | inr (a, b) ↦ elim (Bool-cases (held p.in_use port)) [
    | inl h ↦ rw (release-held p port a b h) (record {
      distinct = delete-Distinct port p.in_use v.distinct;
      marked = All-delete (Marked p) port p.in_use v.marked;
    })
    | inr h ↦ rw (release_unheld p port a b h) v
  ]
]

-- In a valid pool a port that is not held has no entry.
unmarked :
    (p : PortPool) (port : ℕ) → IsValid p → held p.in_use port ≡ false → lookup port p.in_use ≡ none
unfolding held
unmarked p port v free = elim (Option-cases (lookup port p.in_use)) [
  | inl e ↦ e
  | inr (b, e) ↦ let (set, _, _) = All-lookup (Marked p) port b p.in_use v.marked e in ground arith
]

-- Releasing the port that `Allocate` has just returned succeeds, and gives the valid pool back as it
-- was before.
pub release-allocate :
    (p : PortPool) (port internal : ℕ)
    → IsValid p
    → (allocate p).1 ≡ ok (port, internal)
    → release (allocate p).0 port ≡ (p, none)
unfolding is_in_use
release-allocate p port internal v h = elim (allocate_found p) [
  | inl (q, e, (low, high, free, _)) ↦
      let made : ◌≡◌ {A = Result PortError (ℕ × ℕ)} (ok (q, internal_port p q))
          (ok (port, internal)) =
        rw e at h in
      let marked : held (insert q true p.in_use) q ≡ true =
        held-insert p.in_use q q ∙ rw (beq_refl q) in
      let same : q ≡ port = cc in
      subst (λ k. release (allocate p).0 k ≡ (p, none)) same
        (rw e (
          release-held _ q low high marked
          ∙ rw (delete-insert q true p.in_use (unmarked p q v free))))
  | inr (e, _) ↦ cc (rw e at h)
]

-- `Release` of a port outside the range, or of one that is not in use, reports which and changes
-- nothing; any other is unmarked, it alone, so that a second `Release` of it fails.
pub release_cases :
    (p : PortPool) (port : ℕ)
    → (((port < p.start_port) ⊎ (p.end_port < port))
        × (release p port ≡ (p, some port_out_of_range)))
      ⊎ ((p.start_port ≤ port)
          × (port ≤ p.end_port)
          × (is_in_use p port ≡ false)
          × (release p port ≡ (p, some port_not_in_use)))
      ⊎ ((p.start_port ≤ port)
          × (port ≤ p.end_port)
          × (is_in_use p port ≡ true)
          × ((release p port).1 ≡ none)
          × ((k : ℕ)
              → is_in_use (release p port).0 k ≡ (if port == k then false else is_in_use p k))
          × ((release (release p port).0 port).1 ≡ some port_not_in_use))
unfolding release is_in_use
release_cases p port = elim (range_cases p port) [
  | inl out ↦ inl (out, release_outside p port out)
  | inr (a, b) ↦ elim (Bool-cases (held p.in_use port)) [
    | inl h ↦
        let gone = held-delete p.in_use port in
        inr (
          inr (
            a,
            b,
            h,
            rw (release-held p port a b h),
            λ k. rw (release-held p port a b h) (gone k),
            rw (release-held p port a b h)
                (ap (λ r. r.1) (release_unheld _ port a b (rw (gone port, beq_refl port)))),
          ))
    | inr h ↦ inr (inl (a, b, h, release_unheld p port a b h))
  ]
]

-- In a valid pool, releasing a port that is in use succeeds and frees that port alone.
pub release_in_use :
    (p : PortPool) (port : ℕ)
    → IsValid p
    → is_in_use p port ≡ true
    → ((release p port).1 ≡ none)
      × ((k : ℕ) → is_in_use (release p port).0 k ≡ (if port == k then false else is_in_use p k))
unfolding is_in_use held
release_in_use p port v used = elim (Option-cases (lookup port p.in_use)) [
  | inl e ↦ absurd (ground arith)
  | inr (b, e) ↦
      let (_, low, high) = All-lookup (Marked p) port b p.in_use v.marked e in
      elim (release_cases p port) [
        | inl (out, _) ↦ absurd (ground arith)
        | inr (inl (_, _, free, _)) ↦ absurd (ground arith)
        | inr (inr (_, _, _, freed, others, _)) ↦ (freed, others)
      ]
]
