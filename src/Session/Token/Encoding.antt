-- ===== src/Session/Token/Encoding.antt =====
-- Go's `base64.RawURLEncoding`, by which proxy/internal/session/token.go writes random bytes.
use rdp_warp_portal.Prelude.{
  ℕ, ◌+◌, ◌-◌, ◌*◌, ◌/◌, ◌%◌, ◌≤◌, ◌<◌, ◌≡◌, refl, ◌⊎◌, ◌∷◌, [], ltb, if◌then◌else◌, ◌==◌, nat_eq,
  Text, arith, length, All,
}

-- The alphabet of the URL-safe encoding.
unfoldable pub digit : ℕ → ℕ
digit i =
    if ltb i 26
    then b'A' + i
    else if ltb i 52
    then b'a' + (i - 26)
    else if ltb i 62
    then b'0' + (i - 52)
    else if i == 62
    then b'-'
    else b'_'

-- Three bytes make four digits; one or two bytes at the end make two or three, without padding.
unfoldable pub encode : Text → Text
encode (a ∷ b ∷ c ∷ rest) =
    digit (a / 4)
    ∷ digit ((a % 4) * 16 + b / 16)
    ∷ digit ((b % 16) * 4 + c / 64)
    ∷ digit (c % 64)
    ∷ encode rest
encode (a ∷ b ∷ []) = digit (a / 4) ∷ digit ((a % 4) * 16 + b / 16) ∷ digit ((b % 16) * 4) ∷ []
encode (a ∷ []) = digit (a / 4) ∷ digit ((a % 4) * 16) ∷ []
encode [] = []

-- A letter, a digit, a dash or an underscore.
abbrev pub IsUrlSafe : ℕ → Type 0
IsUrlSafe c =
    ((b'A' ≤ c) × (c ≤ b'Z'))
    ⊎ ((b'a' ≤ c) × (c ≤ b'z'))
    ⊎ ((b'0' ≤ c) × (c ≤ b'9'))
    ⊎ (c ≡ b'-')
    ⊎ (c ≡ b'_')

digit-IsUrlSafe : (i : ℕ) → IsUrlSafe (digit i)
unfolding digit
digit-IsUrlSafe i = grind arith

digit_inj : (i j : ℕ) → i < 64 → j < 64 → digit i ≡ digit j → i ≡ j
unfolding digit
digit_inj i j a b h = ground arith

pub encode-IsUrlSafe : (s : Text) → All IsUrlSafe (encode s)
unfolding encode
encode-IsUrlSafe (a ∷ b ∷ c ∷ rest) = (
  digit-IsUrlSafe (a / 4),
  (
    digit-IsUrlSafe ((a % 4) * 16 + b / 16),
    (digit-IsUrlSafe ((b % 16) * 4 + c / 64), (digit-IsUrlSafe (c % 64), encode-IsUrlSafe rest)),
  ),
)
encode-IsUrlSafe (a ∷ b ∷ []) = (
  digit-IsUrlSafe (a / 4),
  (digit-IsUrlSafe ((a % 4) * 16 + b / 16), (digit-IsUrlSafe ((b % 16) * 4), tt)),
)
encode-IsUrlSafe (a ∷ []) = (digit-IsUrlSafe (a / 4), (digit-IsUrlSafe ((a % 4) * 16), tt))
encode-IsUrlSafe [] = tt

-- Four digits for three bytes, rounded up.
pub length-encode : (s : Text) → length (encode s) ≡ (4 * length s + 2) / 3
unfolding encode
length-encode (a ∷ b ∷ c ∷ rest) = omega (arith, length-encode rest)
length-encode (a ∷ b ∷ []) = refl
length-encode (a ∷ []) = refl
length-encode [] = refl

abbrev pub IsByte : ℕ → Type 0
IsByte c = c < 256

head_inj : (i j : ℕ) (s t : Text) → i < 64 → j < 64 → digit i ∷ s ≡ digit j ∷ t → (i ≡ j) × (s ≡ t)
head_inj i j s t hi hj e = let d : digit i ≡ digit j = cc in (digit_inj i j hi hj d, cc)

-- Different random bytes, as many, make different tokens.
pub encode_inj :
    (s t : Text) → All IsByte s → All IsByte t → length s ≡ length t → encode s ≡ encode t → s ≡ t
unfolding encode
encode_inj (a ∷ b ∷ c ∷ s) (x ∷ y ∷ z ∷ t) hs ht n e =
    let (p, e1) = head_inj (a / 4) (x / 4) _ _ (omega arith) (omega arith) e in
    let (q, e2) =
      head_inj ((a % 4) * 16 + b / 16) ((x % 4) * 16 + y / 16) _ _ (omega arith) (omega arith) e1 in
    let (r, e3) =
      head_inj ((b % 16) * 4 + c / 64) ((y % 16) * 4 + z / 64) _ _ (omega arith) (omega arith) e2 in
    let (u, e4) = head_inj (c % 64) (z % 64) _ _ (omega arith) (omega arith) e3 in
    let rest = encode_inj s t hs.1.1.1 ht.1.1.1 (omega arith) e4 in
    let third : c ≡ z = omega arith in
    let second : b ≡ y = omega arith in let first : a ≡ x = omega arith in cc
encode_inj (a ∷ b ∷ []) (x ∷ y ∷ []) hs ht n e =
    let (p, e1) = head_inj (a / 4) (x / 4) _ _ (omega arith) (omega arith) e in
    let (q, e2) =
      head_inj ((a % 4) * 16 + b / 16) ((x % 4) * 16 + y / 16) _ _ (omega arith) (omega arith) e1 in
    let (r, e3) = head_inj ((b % 16) * 4) ((y % 16) * 4) _ _ (omega arith) (omega arith) e2 in
    let second : b ≡ y = omega arith in let first : a ≡ x = omega arith in cc
encode_inj (a ∷ []) (x ∷ []) hs ht n e =
    let (p, e1) = head_inj (a / 4) (x / 4) _ _ (omega arith) (omega arith) e in
    let (q, e2) = head_inj ((a % 4) * 16) ((x % 4) * 16) _ _ (omega arith) (omega arith) e1 in
    let first : a ≡ x = omega arith in cc
encode_inj [] [] hs ht n e = refl
encode_inj _ _ hs ht n e = absurd (omega arith)
