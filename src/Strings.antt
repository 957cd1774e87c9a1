-- ===== src/Strings.antt =====
-- What the program uses of Go's package `strings`, over bytes. Letters are those of ASCII, so that
-- `to_lower` and `equal_fold` are Go's on ASCII texts.
pub mod Index
pub mod Parts
pub mod Replace
pub mod Decimal
pub mod Atoi
use rdp_warp_portal.Prelude.{
  ℕ, zero, suc, ◌+◌, ◌-◌, Bool, true, false, ◌&&◌, ◌||◌, not, Option, none, some, List, [], ◌∷◌,
  ◌++◌, map, ltb, leb, ◌/◌, ◌%◌, if◌then◌else◌, ◌==◌, nat_eq, text_eq, Text, length, take, drop,
  ◌*◌, ◌^◌, ℤ, pos, negsuc,
}

unfoldable pub has_prefix : Text → Text → Bool
has_prefix s [] = true
has_prefix [] (c ∷ p) = false
has_prefix (d ∷ s) (c ∷ p) = d == c && has_prefix s p

-- `strings.Index`, with `none` for -1.
unfoldable pub index : Text → Text → Option ℕ
unfolding has_prefix
index [] sub = if has_prefix [] sub then some 0 else none
index (c ∷ s) sub =
    let later = index s sub in
    if has_prefix (c ∷ s) sub then some 0 else elim later [ none ↦ none | some i ↦ some (suc i) ]

unfoldable pub contains : Text → Text → Bool
unfolding index
contains s sub = elim (index s sub) [ none ↦ false | some i ↦ true ]

-- `strings.Split` at a separator of one byte.
unfoldable pub split : Text → ℕ → List Text
split [] sep = [] ∷ []
split (c ∷ s) sep =
    if c == sep
    then [] ∷ split s sep
    else elim (split s sep) [ [] ↦ (c ∷ []) ∷ [] | p ∷ ps ↦ (c ∷ p) ∷ ps ]

-- `strings.ReplaceAll` of a text `old ∷ more` that is not empty: `skip` bytes of an occurrence are
-- still to be passed over.
unfoldable pub replace_from : ℕ → ℕ → Text → Text → Text → Text
unfolding has_prefix
replace_from skip old more new [] = []
replace_from (suc skip) old more new (c ∷ s) = replace_from skip old more new s
replace_from zero old more new (c ∷ s) =
    let found = new ++ replace_from (length more) old more new s in
    let next = c ∷ replace_from zero old more new s in
    if has_prefix (c ∷ s) (old ∷ more) then found else next

unfoldable pub lower_byte : ℕ → ℕ
lower_byte c = if leb b'A' c && leb c b'Z' then c + 32 else c

unfoldable pub to_lower : Text → Text
unfolding lower_byte
to_lower = map lower_byte

unfoldable pub equal_fold : Text → Text → Bool
unfolding to_lower
equal_fold s t = to_lower s == to_lower t

unfoldable pub has_suffix : Text → Text → Bool
has_suffix s p = leb (length p) (length s) && drop (length s - length p) s == p

-- `%d` of a natural number: the digits before `acc`, with fuel for the rounds.
unfoldable pub itoa_from : ℕ → ℕ → Text → Text
itoa_from zero n acc = acc
itoa_from (suc fuel) n acc =
    let rest = itoa_from fuel (n / 10) ((b'0' + n % 10) ∷ acc) in
    if ltb n 10 then (b'0' + n) ∷ acc else rest

-- A number has no more digits than `suc n`.
unfoldable pub itoa : ℕ → Text
unfolding itoa_from
itoa n = itoa_from (suc n) n []

-- `strings.LastIndex` of one byte.
unfoldable pub last_index : Text → ℕ → Option ℕ
last_index [] b = none
last_index (c ∷ s) b = elim (last_index s b) [
  | some i ↦ some (suc i)
  | none ↦ if c == b then some 0 else none
]

-- The order of Go's strings, by bytes.
unfoldable pub text_lt : Text → Text → Bool
text_lt [] [] = false
text_lt [] (d ∷ t) = true
text_lt (c ∷ s) [] = false
text_lt (c ∷ s) (d ∷ t) = if c == d then text_lt s t else ltb c d

-- `%03d` of a natural number.
unfoldable pub three_digits : ℕ → Text
unfolding itoa
three_digits n =
    if ltb n 1000 then (b'0' + n / 100) ∷ (b'0' + n / 10 % 10) ∷ (b'0' + n % 10) ∷ [] else itoa n

unfoldable pub trim_suffix : Text → Text → Text
unfolding has_suffix
trim_suffix s p = if has_suffix s p then take (length s - length p) s else s

unfoldable pub all_digits : Text → Bool
all_digits [] = true
all_digits (c ∷ s) = leb b'0' c && leb c b'9' && all_digits s

-- The number that decimal digits write behind the digits of `n`.
abbrev pub read_decimal : ℕ → Text → ℕ
read_decimal n [] = n
read_decimal n (c ∷ s) = read_decimal (n * 10 + (c - b'0')) s

-- One digit or more.
unfoldable pub read_digits : Text → Option ℕ
unfolding all_digits
read_digits s = if not (s == []) && all_digits s then some (read_decimal 0 s) else none

-- The integers of 64 bits.
unfoldable pub int_of : Bool → ℕ → Option ℤ
int_of false n = if ltb n (2 ^ 63) then some (pos n) else none
int_of true zero = some (pos zero)
int_of true (suc n) = if ltb n (2 ^ 63) then some (negsuc n) else none

unfoldable pub signed : Bool → Text → Option ℤ
unfolding read_digits int_of
signed negative s = elim (read_digits s) [ none ↦ none | some n ↦ int_of negative n ]

-- `strconv.Atoi`, with `none` for an error.
unfoldable pub atoi : Text → Option ℤ
unfolding signed
atoi [] = none
atoi (c ∷ s) =
    if c == b'-' then signed true s else if c == b'+' then signed false s else signed false (c ∷ s)
