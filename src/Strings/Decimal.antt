-- ===== src/Strings/Decimal.antt =====
-- `itoa` has the digits of its number, so its fuel is enough.
use rdp_warp_portal.Prelude.{
  ℕ, zero, suc, ◌+◌, ◌-◌, ◌*◌, ◌/◌, ◌%◌, ◌≤◌, ◌≡◌, ap, ◌∙◌, inl, inr, true, [], ◌∷◌, Text, ltb,
  arith, Bool-cases,
}
use rdp_warp_portal.Strings.{itoa, itoa_from, read_decimal}

one_digit :
    (n : ℕ) (acc : Text) → read_decimal (n / 10) ((b'0' + n % 10) ∷ acc) ≡ read_decimal n acc
one_digit n acc =
    let whole : n / 10 * 10 + (b'0' + n % 10 - b'0') ≡ n = omega arith in
    ap (λ k. read_decimal k acc) whole

last_round :
    (fuel n : ℕ) (acc : Text)
    → ltb n 10 ≡ true
    → read_decimal 0 (itoa_from (suc fuel) n acc) ≡ read_decimal n acc
unfolding itoa_from
last_round fuel n acc small =
    let one : 0 * 10 + (b'0' + n - b'0') ≡ n = omega arith in
    rw (small, itoa_from) (ap (λ k. read_decimal k acc) one)

read_decimal-itoa_from :
    (fuel n : ℕ) (acc : Text)
    → n ≤ fuel
    → read_decimal 0 (itoa_from (suc fuel) n acc) ≡ read_decimal n acc
unfolding itoa_from
read_decimal-itoa_from zero n acc enough = last_round zero n acc (ground arith)
read_decimal-itoa_from (suc fuel) n acc enough = elim (Bool-cases (ltb n 10)) [
  | inl small ↦ last_round (suc fuel) n acc small
  | inr large ↦
      rw (large, itoa_from)
        (read_decimal-itoa_from fuel (n / 10) ((b'0' + n % 10) ∷ acc) (ground arith)
          ∙ one_digit n acc)
]

-- The digits of a number are read back as that number.
pub read_decimal-itoa : (n : ℕ) → read_decimal 0 (itoa n) ≡ n
unfolding itoa
read_decimal-itoa n = read_decimal-itoa_from n n [] (omega arith)
