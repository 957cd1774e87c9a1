-- ===== src/Agent/Screen/Watch.antt =====
-- What `watchChunks` of agent/internal/capture/screen.go reports over its ticks.
use rdp_warp_portal.Prelude.{
  ℕ, zero, suc, ◌+◌, ◌-◌, ◌≤◌, ◌<◌, ◌≡◌, refl, ap, ◌∙◌, inl, inr, List, [], ◌∷◌, ◌++◌, Text, arith,
  ltb, length, Bool-cases, sym,
}
use rdp_warp_portal.Strings.{text_lt}
use rdp_warp_portal.Agent.Screen.{
  Entry, list_chunks, report_after, tick, after, report_remaining_chunks, watch_chunks,
}
use rdp_warp_portal.Agent.Screen.Names.{
  chunk_names, text_lt-chunk_name, chunk_names-append, last_of, last_of_lt, length-chunk_names,
  all_but_last-chunk_names,
}

-- A directory with the chunks 0 to `n - 1` and any other files.
abbrev pub Holds : ℕ → List Entry → Type 0
Holds n entries = list_chunks entries ≡ chunk_names 0 n

-- Directories in which the chunks grow in number, from `low` to `n`.
unfoldable pub Grows : ℕ → List (List Entry) → List Entry → ℕ → Type 0
Grows low [] final n = (low ≤ n) × Holds n final
Grows low (entries ∷ ticks) final n = (k : ℕ) × (low ≤ k) × Holds k entries × Grows k ticks final n

report_after-append :
    (xs ys : List Text) (last : Text)
    → report_after (xs ++ ys) last ≡ (
      (report_after xs last).0 ++ (report_after ys (report_after xs last).1).0,
      (report_after ys (report_after xs last).1).1,
    )
unfolding report_after
report_after-append [] ys last = refl
report_after-append (x ∷ xs) ys last = elim (Bool-cases (text_lt last x)) [
  | inl new ↦ rw (report_after, new, report_after-append xs ys x) refl
  | inr old ↦ rw (report_after, old) (report_after-append xs ys last)
]

-- What is already reported is passed over.
report_after-old :
    (i n j : ℕ)
    → i + n ≤ j
    → j ≤ 1000
    → report_after (chunk_names i n) (last_of j) ≡ ([], last_of j)
unfolding report_after chunk_names last_of
report_after-old i zero j h hj = refl
report_after-old i (suc n) zero h hj = absurd (omega arith)
report_after-old i (suc n) (suc j) h hj = ground (
  arith,
  text_lt-chunk_name j i (omega arith) (omega arith),
  report_after-old (suc i) n (suc j) (omega arith) hj,
)

-- What comes next is reported.
report_after-new :
    (j n : ℕ)
    → j + n ≤ 1000
    → report_after (chunk_names j n) (last_of j) ≡ (chunk_names j n, last_of (j + n))
unfolding report_after chunk_names last_of
report_after-new j zero h = let stay : j ≡ j + zero = omega arith in ap (λ k. ([], last_of k)) stay
report_after-new j (suc n) h =
    let shift : suc j + n ≡ j + suc n = omega arith in
    let rest = report_after-new (suc j) n (omega arith) in
    rw (last_of_lt j j (omega arith) (omega arith), rest, shift) refl

report_all :
    (j d : ℕ)
    → j + d ≤ 1000
    → report_after (chunk_names 0 (j + d)) (last_of j) ≡ (chunk_names j d, last_of (j + d))
report_all j d h =
    let whole = sym (chunk_names-append 0 j d) in
    let start : zero + j ≡ j = omega arith in
    rw
      (
        whole,
        report_after-append (chunk_names 0 j) (chunk_names (zero + j) d) (last_of j),
        report_after-old 0 j j (omega arith) (omega arith),
        start,
      )
      (report_after-new j d h)

after-append :
    (xs ys : List Text) (last : Text) → after last (xs ++ ys) ≡ after last xs ++ after last ys
unfolding after
after-append [] ys last = refl
after-append (x ∷ xs) ys last = ground (arith, after-append xs ys last)

after-old : (i n j : ℕ) → i + n ≤ j → j ≤ 1000 → after (last_of j) (chunk_names i n) ≡ []
unfolding after chunk_names last_of
after-old i zero j h hj = refl
after-old i (suc n) zero h hj = absurd (omega arith)
after-old i (suc n) (suc j) h hj = ground (
  arith,
  text_lt-chunk_name j i (omega arith) (omega arith),
  after-old (suc i) n (suc j) (omega arith) hj,
)

after-new :
    (i n j : ℕ) → j ≤ i → i + n ≤ 1000 → after (last_of j) (chunk_names i n) ≡ chunk_names i n
unfolding after chunk_names
after-new i zero j h hi = refl
after-new i (suc n) j h hi =
    ground
      (arith, last_of_lt j i h (omega arith), after-new (suc i) n j (omega arith) (omega arith))

after_all : (j d : ℕ) → j + d ≤ 1000 → after (last_of j) (chunk_names 0 (j + d)) ≡ chunk_names j d
after_all j d h =
    let whole = sym (chunk_names-append 0 j d) in
    let start : zero + j ≡ j = omega arith in
    rw
      (
        whole,
        after-append (chunk_names 0 j) (chunk_names (zero + j) d) (last_of j),
        after-old 0 j j (omega arith) (omega arith),
        start,
      )
      (after-new j d j (omega arith) h)

tick_early :
    (k : ℕ) (entries : List Entry) (last : Text)
    → Holds k entries
    → k < 2
    → tick entries last ≡ ([], last)
unfolding tick
tick_early k entries last h few = ground (arith, length-chunk_names 0 k, ap length h)

tick_later :
    (j d : ℕ) (entries : List Entry)
    → Holds (suc (j + d)) entries
    → 0 < j + d
    → j + d ≤ 1000
    → tick entries (last_of j) ≡ (chunk_names j d, last_of (j + d))
unfolding tick
tick_later j d entries h some_more bound =
    rw (h, all_but_last-chunk_names 0 (j + d), report_all j d bound)
      (ground (arith, length-chunk_names 0 (suc (j + d))))

Grows-le :
    (low n : ℕ) (ticks : List (List Entry)) (final : List Entry) → Grows low ticks final n → low ≤ n
unfolding Grows
Grows-le low n [] final (below, _) = below
Grows-le low n (entries ∷ ticks) final (k, grows, _, later) =
    omega (arith, Grows-le k n ticks final later)

-- The chunks below `j` are reported, and `j` is not above what the last tick leaves unreported.
watch_from :
    (j d low n : ℕ) (ticks : List (List Entry)) (final : List Entry)
    → n ≡ j + d
    → j ≤ low - 1
    → n ≤ 1000
    → Grows low ticks final n
    → watch_chunks ticks final (last_of j) ≡ chunk_names j d
unfolding watch_chunks report_remaining_chunks Grows
watch_from j d low n [] final sum behind bound (_, holds) =
    rw (rw sum at holds) (after_all j d (omega arith))
watch_from j d low n (entries ∷ ticks) final sum behind bound (k, grows, holds, later) =
    elim (Bool-cases (ltb k 2)) [
      | inl few ↦
          rw (tick_early k entries (last_of j) holds (ground arith))
            (watch_from j d k n ticks final sum (ground arith) bound later)
      | inr many ↦
          let c = k - 1 - j in
          let above = Grows-le k n ticks final later in
          let here : k ≡ suc (j + c) = ground arith in
          let split : d ≡ c + (d - c) = ground arith in
          let rest =
            watch_from (j + c) (d - c) k n ticks final (ground arith) (ground arith) bound later in
          rw (tick_later j c entries (rw here at holds) (ground arith) (ground arith), rest)
            (chunk_names-append j c (d - c) ∙ ap (chunk_names j) (sym split))
    ]

-- While the chunks of the directory grow in number up to `n`, with at most 1000 of them, a watch from
-- the start reports each of the `n` chunks once and in their order, however the ticks fall.
pub watch_chunks-all :
    (n : ℕ) (ticks : List (List Entry)) (final : List Entry)
    → n ≤ 1000
    → Grows 0 ticks final n
    → watch_chunks ticks final [] ≡ chunk_names 0 n
unfolding last_of
watch_chunks-all n ticks final bound grows =
    watch_from 0 n 0 n ticks final (omega arith) (omega arith) bound grows
