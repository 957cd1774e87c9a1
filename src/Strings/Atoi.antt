-- ===== src/Strings/Atoi.antt =====
-- `atoi` reads back what `%03d` writes.
use rdp_warp_portal.Prelude.{
  ℕ, zero, suc, ◌+◌, ◌-◌, ◌/◌, ◌%◌, ◌^◌, ◌≤◌, ◌<◌, ◌≡◌, refl, inl, inr, true, some, [], ◌∷◌, ◌++◌,
  Text, ltb, arith, Bool-cases, length, length-append, take-length-append, drop-length-append,
  beq_refl, text_eq, text_beq, nat_eq, pos,
}
use rdp_warp_portal.Strings.Decimal.{read_decimal-itoa}
use rdp_warp_portal.Strings.{
  itoa, itoa_from, read_decimal, has_suffix, trim_suffix, all_digits, read_digits, int_of, signed,
  atoi, three_digits,
}

pub trim_suffix-append : (s p : Text) → trim_suffix (s ++ p) p ≡ s
unfolding trim_suffix has_suffix
trim_suffix-append s p =
    let long : length (s ++ p) - length p ≡ length s = omega (arith, length-append s p) in
    let enough : (length p ≤ length (s ++ p)) = omega (arith, length-append s p) in
    rw (long, drop-length-append s p, beq_refl p) (ground (arith, take-length-append s p))

itoa_from-digits :
    (fuel n : ℕ) (acc : Text)
    → n < fuel
    → all_digits acc ≡ true
    → all_digits (itoa_from fuel n acc) ≡ true
unfolding itoa_from all_digits
itoa_from-digits zero n acc h k = absurd (omega arith)
itoa_from-digits (suc fuel) n acc h k =
    ground (arith, itoa_from-digits fuel (n / 10) ((b'0' + n % 10) ∷ acc))

three_digits-digits : (n : ℕ) → all_digits (three_digits n) ≡ true
unfolding three_digits itoa all_digits
three_digits-digits n = elim (Bool-cases (ltb n 1000)) [
  | inl small ↦ rw small (ground arith)
  | inr large ↦ rw large (itoa_from-digits (suc n) n [] (omega arith) refl)
]

three_digits_value : (n : ℕ) → read_decimal 0 (three_digits n) ≡ n
unfolding three_digits
three_digits_value n = elim (Bool-cases (ltb n 1000)) [
  | inl small ↦ rw small (ground arith)
  | inr large ↦ rw large (read_decimal-itoa n)
]

itoa_from_filled :
    (fuel n : ℕ) (acc : Text) → 0 < fuel + length acc → 0 < length (itoa_from fuel n acc)
unfolding itoa_from
itoa_from_filled zero n acc h = omega arith
itoa_from_filled (suc fuel) n acc h =
    ground (arith, itoa_from_filled fuel (n / 10) ((b'0' + n % 10) ∷ acc))

three_digits_filled : (n : ℕ) → 0 < length (three_digits n)
unfolding three_digits itoa
three_digits_filled n = elim (Bool-cases (ltb n 1000)) [
  | inl small ↦ rw small (omega arith)
  | inr large ↦ rw large (itoa_from_filled (suc n) n [] (omega arith))
]

-- A text of digits that is not empty.
atoi_digits :
    (s : Text) (n : ℕ)
    → 0 < length s
    → all_digits s ≡ true
    → read_decimal 0 s ≡ n
    → n < 2 ^ 63
    → atoi s ≡ some (pos n)
unfolding atoi signed read_digits int_of all_digits text_beq
atoi_digits [] n h k e b = absurd (omega arith)
atoi_digits (c ∷ s) n h k e b = ground arith

-- `%03d` is read back, up to the largest integer.
pub atoi-three_digits : (n : ℕ) → n < 2 ^ 63 → atoi (three_digits n) ≡ some (pos n)
atoi-three_digits n h =
    atoi_digits (three_digits n) n (three_digits_filled n) (three_digits-digits n)
      (three_digits_value n) h
