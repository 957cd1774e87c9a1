-- ===== src/Agent/Screen/Names.antt =====
-- The names of chunk files, and their order as texts.
use rdp_warp_portal.Prelude.{
  ℕ, zero, suc, ◌+◌, ◌/◌, ◌%◌, ◌*◌, ◌∙◌, ◌≤◌, ◌<◌, ◌≡◌, refl, true, false, List, [], ◌∷◌, ◌++◌,
  Text, codes, arith, ap, ltb, length,
}
use rdp_warp_portal.Strings.{text_lt, three_digits}
use rdp_warp_portal.Agent.Screen.{chunk_name, all_but_last}

-- Three digits are in the order of the number that they spell.
digits_lt :
    (a b c d e f : ℕ) (rest : Text)
    → a < 10
    → b < 10
    → c < 10
    → d < 10
    → e < 10
    → f < 10
    → text_lt rest rest ≡ false
    → text_lt
        ((b'0' + a) ∷ (b'0' + b) ∷ (b'0' + c) ∷ rest)
        ((b'0' + d) ∷ (b'0' + e) ∷ (b'0' + f) ∷ rest)
      ≡ ltb (100 * a + 10 * b + c) (100 * d + 10 * e + f)
unfolding text_lt
digits_lt a b c d e f rest ha hb hc hd he hf h = ground arith

below_1000 :
    (n : ℕ)
    → n < 1000
    → three_digits n ≡ (b'0' + n / 100) ∷ (b'0' + n / 10 % 10) ∷ (b'0' + n % 10) ∷ []
unfolding three_digits
below_1000 n h = ground arith

-- The first 1000 names are in the order of their numbers.
pub text_lt-chunk_name :
    (i j : ℕ) → i < 1000 → j < 1000 → text_lt (chunk_name i) (chunk_name j) ≡ ltb i j
unfolding chunk_name text_lt
text_lt-chunk_name i j hi hj =
    rw (below_1000 i hi, below_1000 j hj)
      (digits_lt (i / 100) (i / 10 % 10) (i % 10) (j / 100) (j / 10 % 10) (j % 10) (codes ".ts")
          (omega arith) (omega arith) (omega arith) (omega arith) (omega arith) (omega arith) refl
        ∙ (ground arith))

-- The names of `n` chunks from the number `i` on.
unfoldable pub chunk_names : ℕ → ℕ → List Text
chunk_names i zero = []
chunk_names i (suc n) = chunk_name i ∷ chunk_names (suc i) n

-- The last name before the number `j`: no name before the first.
unfoldable pub last_of : ℕ → Text
last_of zero = []
last_of (suc j) = chunk_name j

pub chunk_names-append :
    (i m n : ℕ) → chunk_names i m ++ chunk_names (i + m) n ≡ chunk_names i (m + n)
unfolding chunk_names
chunk_names-append i zero n =
    let none_more : n ≡ zero + n = omega arith in
    ap (λ k. chunk_names k n) (omega arith) ∙ ap (chunk_names i) none_more
chunk_names-append i (suc m) n =
    let shift : chunk_names (i + suc m) n ≡ chunk_names (suc i + m) n =
      ap (λ k. chunk_names k n) (omega arith) in
    let same : suc (m + n) ≡ suc m + n = omega arith in
    let count : chunk_names i (suc (m + n)) ≡ chunk_names i (suc m + n) = ap (chunk_names i) same in
    ap (λ rest. chunk_name i ∷ (chunk_names (suc i) m ++ rest)) shift
    ∙ ap (◌∷◌ (chunk_name i)) (chunk_names-append (suc i) m n)
    ∙ count

pub all_but_last-chunk_names : (i n : ℕ) → all_but_last (chunk_names i (suc n)) ≡ chunk_names i n
unfolding all_but_last chunk_names
all_but_last-chunk_names i zero = refl
all_but_last-chunk_names i (suc n) = ap (◌∷◌ (chunk_name i)) (all_but_last-chunk_names (suc i) n)

-- A name stands after those before it.
pub last_of_lt : (j i : ℕ) → j ≤ i → i < 1000 → text_lt (last_of j) (chunk_name i) ≡ true
unfolding last_of text_lt chunk_name
last_of_lt zero i h hi = refl
last_of_lt (suc j) i h hi = text_lt-chunk_name j i (omega arith) hi ∙ ground arith

pub length-chunk_names : (i n : ℕ) → length (chunk_names i n) ≡ n
unfolding chunk_names
length-chunk_names i zero = refl
length-chunk_names i (suc n) = ap suc (length-chunk_names (suc i) n)
