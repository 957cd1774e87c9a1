-- ===== src/Strings/Index.antt =====
-- `has_prefix` and `index` against the texts that they cut.
use rdp_warp_portal.Prelude.{
  ℕ, zero, suc, ◌+◌, ◌≡◌, ◌≢◌, refl, ap, inl, inr, true, some, [], ◌∷◌, ◌++◌, nat_eq, Text, arith,
  Bool-cases, Option-cases, length, take, drop, All,
}
use rdp_warp_portal.Strings.{has_prefix, index}

pub has_prefix-append : (p rest : Text) → has_prefix (p ++ rest) p ≡ true
unfolding has_prefix
has_prefix-append [] [] = refl
has_prefix-append [] (c ∷ rest) = refl
has_prefix-append (c ∷ p) rest = ground (arith, has_prefix-append p rest)

-- A text with a prefix is the prefix and the rest.
pub has_prefix_cut : (s p : Text) → has_prefix s p ≡ true → s ≡ p ++ drop (length p) s
unfolding has_prefix
has_prefix_cut [] [] h = refl
has_prefix_cut (d ∷ s) [] h = refl
has_prefix_cut [] (c ∷ p) h = cc
has_prefix_cut (d ∷ s) (c ∷ p) h = ground (arith, has_prefix_cut s p)

cut_at_start :
    (s sub : Text) (i : ℕ)
    → has_prefix s sub ≡ true
    → i ≡ 0
    → s ≡ take i s ++ (sub ++ drop (i + length sub) s)
cut_at_start s sub i h e =
    let start : zero + length sub ≡ length sub = omega arith in
    let zero' : i ≡ zero = e in rw (zero', start) (has_prefix_cut s sub h)

cut_later :
    (c : ℕ) (s sub : Text) (i j : ℕ)
    → s ≡ take j s ++ (sub ++ drop (j + length sub) s)
    → i ≡ suc j
    → c ∷ s ≡ take i (c ∷ s) ++ (sub ++ drop (i + length sub) (c ∷ s))
cut_later c s sub i j ih e =
    let start : suc j + length sub ≡ suc (j + length sub) = omega arith in
    rw (e, start) (ap (◌∷◌ c) ih)

-- `index` finds an occurrence.
pub index_cut :
    (s sub : Text) (i : ℕ) → index s sub ≡ some i → s ≡ take i s ++ (sub ++ drop (i + length sub) s)
unfolding index
index_cut [] sub i h = elim (Bool-cases (has_prefix [] sub)) [
  | inl here ↦ cut_at_start [] sub i here (ground arith)
  | inr away ↦ absurd (ground arith)
]
index_cut (c ∷ s) sub i h = elim (Bool-cases (has_prefix (c ∷ s) sub)) [
  | inl here ↦ cut_at_start (c ∷ s) sub i here (ground arith)
  | inr away ↦ elim (Option-cases (index s sub)) [
    | inl e ↦ absurd (ground arith)
    | inr (j, e) ↦ cut_later c s sub i j (index_cut s sub j e) (ground arith)
  ]
]

abbrev pub Lacks : ℕ → Text → Type 0
Lacks b = All (λ c. c ≢ b)

-- The first occurrence stands behind a text that lacks its first byte.
pub index-append :
    (s : Text) (b : ℕ) (p rest : Text)
    → Lacks b s
    → index (s ++ ((b ∷ p) ++ rest)) (b ∷ p) ≡ some (length s)
unfolding index has_prefix
index-append [] b p rest h = ground (arith, has_prefix-append p rest)
index-append (c ∷ s) b p rest h = ground (arith, index-append s b p rest)
