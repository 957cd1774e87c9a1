-- ===== src/Session/PortPool/Count.antt =====
-- The counts that `Available`, `InUse` and `Total` report.
use rdp_warp_portal.Prelude.{
  ℕ, zero, suc, ◌+◌, ◌-◌, ◌≤◌, ◌<◌, ◌≡◌, refl, Bool, true, false, not, ◌||◌, ◌∷◌, err,
  if◌then◌else◌, arith, inl, inr, Bool-cases, [], ap, sym, ◌↔◌, sub_ℕ-of_le, All-imp, ◌∙◌, ◌==◌,
  nat_eq, pos, length, All,
}
use rdp_warp_portal.Prelude.Assoc.{GoMap, lookup, Distinct}
use rdp_warp_portal.Session.PortPool.Alloc.{allocate_found}
use rdp_warp_portal.Session.PortPool.{
  PortPool, held, available, in_use_count, total, is_in_use, allocate, no_ports_available, IsValid,
}

-- How many of the `n` numbers from `lo` on pass the test.
pub count_from : (ℕ → Bool) → ℕ → ℕ → ℕ
count_from test zero lo = 0
count_from test (suc n) lo = (if test lo then 1 else 0) + count_from test n (suc lo)

-- The number of ports of the range that are free.
abbrev pub free_count : PortPool → ℕ
free_count p = count_from (λ k. not (is_in_use p k)) (p.end_port + 1 - p.start_port) p.start_port

count_from-not :
    (test : ℕ → Bool) (n lo : ℕ) → count_from test n lo + count_from (λ k. not (test k)) n lo ≡ n
unfolding count_from
count_from-not test zero lo = omega arith
count_from-not test (suc n) lo = ground (arith, count_from-not test n (suc lo))

-- Two tests that agree from `lo` on count the same.
count_from_ext :
    (f g : ℕ → Bool) (n lo : ℕ)
    → ((k : ℕ) → lo ≤ k → f k ≡ g k)
    → count_from f n lo ≡ count_from g n lo
unfolding count_from
count_from_ext f g zero lo h = refl
count_from_ext f g (suc n) lo h =
    rw (h lo (omega arith), count_from_ext f g n (suc lo) (λ k a. h k (omega arith)))

-- One more number of the range that passes.
count_from_add :
    (f : ℕ → Bool) (j n lo : ℕ)
    → f j ≡ false
    → lo ≤ j
    → j < lo + n
    → count_from (λ k. j == k || f k) n lo ≡ count_from f n lo + 1
unfolding count_from
count_from_add f j zero lo h a b = absurd (omega arith)
count_from_add f j (suc n) lo h a b = elim (Bool-cases (j == lo)) [
  | inl here ↦
      ground (arith, count_from_ext (λ k. j == k || f k) f n (suc lo) (λ k a. ground arith))
  | inr after ↦ ground (arith, count_from_add f j n (suc lo) h)
]

-- The empty map holds no port.
count_from_zero : (n lo : ℕ) → count_from (held []) n lo ≡ 0
unfolding count_from held lookup
count_from_zero zero lo = refl
count_from_zero (suc n) lo = omega (arith, count_from_zero n (suc lo))

held_cons : (j : ℕ) (m : GoMap ℕ Bool) (k : ℕ) → held ((j, true) ∷ m) k ≡ (j == k || held m k)
unfolding held lookup
held_cons j m k = ground arith

module _ (n lo : ℕ) where
  Within : ℕ × Bool → Type 0
  Within e = (e.1 ≡ true) × (lo ≤ e.0) × (e.0 < lo + n)

  count_from-held :
      (m : GoMap ℕ Bool) → Distinct m → All Within m → count_from (held m) n lo ≡ length m
  unfolding count_from held Within
  count_from-held [] d h = count_from_zero n lo
  count_from-held ((j, b) ∷ m) d h =
      count_from_ext (held ((j, b) ∷ m)) (λ k. j == k || held m k) n lo
        (λ k _. rw h.0.0 (held_cons j m k))
      ∙ count_from_add (held m) j n lo (rw (d.0, held)) h.0.1 h.0.2
      ∙ omega (arith, count_from-held m d.1 h.1)

module _ (test : ℕ → Bool) (j : ℕ) where
  count_from_pos : (n lo : ℕ) → test j ≡ true → lo ≤ j → j < lo + n → 1 ≤ count_from test n lo
  unfolding count_from
  count_from_pos zero lo h a b = absurd (omega arith)
  count_from_pos (suc n) lo h a b = elim (Bool-cases (j == lo)) [
    | inl here ↦ ground arith
    | inr after ↦ ground (arith, count_from_pos n (suc lo))
  ]

count_from_none :
    (test : ℕ → Bool) (n lo : ℕ)
    → ((k : ℕ) → lo ≤ k → k < lo + n → test k ≡ false)
    → count_from test n lo ≡ 0
unfolding count_from
count_from_none test zero lo h = refl
count_from_none test (suc n) lo h =
    rw (h lo (omega arith) (omega arith))
      (omega (arith, count_from_none test n (suc lo) (λ k a b. h k (omega arith) (omega arith))))

in_range :
    (p : PortPool)
    → p.start_port ≤ p.end_port + 1
    → IsValid p
    → All (Within (p.end_port + 1 - p.start_port) p.start_port) p.in_use
unfolding Within
in_range p h v = All-imp p.in_use (λ e w. (w.0, w.1, omega arith)) v.marked

-- The ports in use and the free ports of the range make up the range.
used-free :
    (p : PortPool)
    → IsValid p
    → p.start_port ≤ p.end_port + 1
    → length p.in_use + free_count p ≡ p.end_port + 1 - p.start_port
unfolding is_in_use
used-free p v h =
    let n = p.end_port + 1 - p.start_port in
    omega (
      arith,
      count_from-held n p.start_port p.in_use v.distinct (in_range p h v),
      count_from-not (held p.in_use) n p.start_port,
    )

-- In a valid pool with a range that is not upside down, `Available` is the number of free ports of
-- the range, and that number and `InUse` add up to `Total`.
pub counts_lem :
    (p : PortPool)
    → IsValid p
    → p.start_port ≤ p.end_port + 1
    → (available p ≡ pos (free_count p)) × (total p ≡ pos (in_use_count p + free_count p))
unfolding available total in_use_count
counts_lem p v h =
    let parts = used-free p v h in
    (
      sub_ℕ-of_le (p.end_port + 1) (p.start_port + length p.in_use) (omega arith)
          ∙ ap pos (omega arith),
      sub_ℕ-of_le (p.end_port + 1) p.start_port h ∙ ap pos (omega arith),
    )

-- `Allocate` on such a pool fails exactly when `Available` is zero.
pub allocate_fails_iff :
    (p : PortPool)
    → IsValid p
    → p.start_port ≤ p.end_port + 1
    → ((allocate p).1 ≡ err no_ports_available) ↔ (available p ≡ pos 0)
allocate_fails_iff p v h = elim (allocate_found p) [
  | inl (port, e, (low, high, free, _)) ↦
      let one =
        count_from_pos (λ k. not (is_in_use p k)) port (p.end_port + 1 - p.start_port) p.start_port
          (rw free) low (omega arith) in
      (
        λ failed. cc (rw e at failed),
        λ empty.
            let zero_free : pos (free_count p) ≡ pos 0 = sym (counts_lem p v h).0 ∙ empty in
            let no_free : free_count p ≡ 0 = cc in absurd (omega arith),
      )
  | inr (e, full) ↦
      let none_free =
        count_from_none (λ k. not (is_in_use p k)) (p.end_port + 1 - p.start_port) p.start_port
          (λ k a b. rw (full k a (omega arith))) in
      (λ _. (counts_lem p v h).0 ∙ ap pos none_free, λ _. rw e)
]
