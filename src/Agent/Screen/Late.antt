-- ===== src/Agent/Screen/Late.antt =====
-- Chunks that `watchChunks` of agent/internal/capture/screen.go cannot report.
use rdp_warp_portal.Prelude.{
  ℕ, suc, ◌+◌, ◌-◌, ◌/◌, ◌%◌, ◌≤◌, ◌<◌, ◌≡◌, ◌≢◌, refl, ap, ◌∙◌, true, false, List, [], ◌∷◌, Text,
  arith, ltb, length, Bool-cases, inl, inr, All, All-append, All-imp, nat_eq,
}
use rdp_warp_portal.Strings.{text_lt, three_digits, itoa, itoa_from}
use rdp_warp_portal.Agent.Screen.{
  Entry, chunk_name, list_chunks, report_after, all_but_last, tick, after, report_remaining_chunks,
  watch_chunks,
}

-- A text that stands after another.
abbrev pub After : Text → Text → Type 0
After s t = text_lt s t ≡ true

text_lt_trans : (s t u : Text) → After s t → After t u → After s u
unfolding text_lt
text_lt_trans [] t [] h k =
    elim t as (λ t. After t [] → After [] []) [ [] ↦ λ e. e | d ∷ t ↦ λ e. absurd (cc) ] k
text_lt_trans [] t (e ∷ u) h k = refl
text_lt_trans (c ∷ s) [] u h k = absurd (cc)
text_lt_trans (c ∷ s) (d ∷ t) [] h k = absurd (cc)
text_lt_trans (c ∷ s) (d ∷ t) (e ∷ u) h k = ground (arith, text_lt_trans s t u)

-- What stands after `last` stands after `base`.
abbrev pub Beyond : Text → Text → Type 0
Beyond base last = (c : Text) → After last c → After base c

report_after-Beyond :
    (chunks : List Text) (base last : Text)
    → Beyond base last
    → All (After base) (report_after chunks last).0 × Beyond base (report_after chunks last).1
unfolding report_after
report_after-Beyond [] base last h = (tt, h)
report_after-Beyond (chunk ∷ chunks) base last h = elim (Bool-cases (text_lt last chunk)) [
  | inl new ↦
      let (all, beyond) =
        report_after-Beyond chunks base chunk λ c k. text_lt_trans base chunk c (h chunk new) k in
      rw new ((h chunk new, all), beyond)
  | inr old ↦ rw old (report_after-Beyond chunks base last h)
]

after-After : (chunks : List Text) (last : Text) → All (After last) (after last chunks)
unfolding after
after-After [] last = tt
after-After (chunk ∷ chunks) last = elim (Bool-cases (text_lt last chunk)) [
  | inl new ↦ rw new (new, after-After chunks last)
  | inr old ↦ rw old (after-After chunks last)
]

tick-Beyond :
    (entries : List Entry) (base last : Text)
    → Beyond base last
    → All (After base) (tick entries last).0 × Beyond base (tick entries last).1
unfolding tick
tick-Beyond entries base last h = elim (Bool-cases (ltb (length (list_chunks entries)) 2)) [
  | inl few ↦ rw few (tt, h)
  | inr many ↦ rw many (report_after-Beyond (all_but_last (list_chunks entries)) base last h)
]

watch-Beyond :
    (ticks : List (List Entry)) (final : List Entry) (base last : Text)
    → Beyond base last
    → All (After base) (watch_chunks ticks final last)
unfolding watch_chunks report_remaining_chunks
watch-Beyond [] final base last h =
    All-imp (after last (list_chunks final)) h (after-After (list_chunks final) last)
watch-Beyond (entries ∷ ticks) final base last h =
    let (all, beyond) = tick-Beyond entries base last h in
    All-append (After base) (tick entries last).0 (watch_chunks ticks final (tick entries last).1)
      all (watch-Beyond ticks final base (tick entries last).1 beyond)

-- Whatever directories follow, a watch reports only names after the last that it has reported: no
-- chunk is reported twice.
pub watch_chunks-After :
    (ticks : List (List Entry)) (final : List Entry) (last : Text)
    → All (After last) (watch_chunks ticks final last)
watch_chunks-After ticks final last = watch-Beyond ticks final last last (λ c k. k)

four_rounds :
    (m n : ℕ)
    → 1000 ≤ n
    → n < 10000
    → itoa_from (suc (suc (suc (suc m)))) n []
      ≡ (b'0' + n / 1000) ∷ (b'0' + n / 100 % 10) ∷ (b'0' + n / 10 % 10) ∷ (b'0' + n % 10) ∷ []
unfolding itoa_from
four_rounds m n low high = ground arith

four_digits :
    (n : ℕ)
    → 1000 ≤ n
    → n < 10000
    → three_digits n
      ≡ (b'0' + n / 1000) ∷ (b'0' + n / 100 % 10) ∷ (b'0' + n / 10 % 10) ∷ (b'0' + n % 10) ∷ []
unfolding three_digits itoa
four_digits n low high =
    let rounds : suc n ≡ suc (suc (suc (suc (n - 3)))) = omega arith in
    let long : ltb n 1000 ≡ false = ground arith in
    rw (three_digits, long) (ap (λ k. itoa_from k n []) rounds ∙ four_rounds (n - 3) n low high)

four_before : (n : ℕ) → 1000 ≤ n → n < 9980 → text_lt (chunk_name 998) (chunk_name n) ≡ false
unfolding chunk_name text_lt
four_before n low high = rw (four_digits n low (omega arith)) (ground arith)

-- A chunk with a number of four digits, up to 9979, is not reported any more once chunk 998 is.
pub watch_chunks-late :
    (n : ℕ) (ticks : List (List Entry)) (final : List Entry)
    → 1000 ≤ n
    → n < 9980
    → All (λ c. c ≢ chunk_name n) (watch_chunks ticks final (chunk_name 998))
watch_chunks-late n ticks final low high =
    All-imp (watch_chunks ticks final (chunk_name 998))
      (λ c later same. absurd (cc (four_before n low high)))
      (watch_chunks-After ticks final (chunk_name 998))
