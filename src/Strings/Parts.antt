-- ===== src/Strings/Parts.antt =====
-- `split`, and the texts that its parts spell.
use rdp_warp_portal.Prelude.{
  ℕ, ◌≡◌, refl, ap, ◌∙◌, List, [], ◌∷◌, ◌++◌, ◌==◌, nat_eq, Text, arith, Bool-cases, All, inl, inr,
}
use rdp_warp_portal.Strings.Index.{Lacks}
use rdp_warp_portal.Strings.{split}

-- A part behind which the text ends.
split_last : (s : Text) (sep : ℕ) → Lacks sep s → split s sep ≡ s ∷ []
unfolding split
split_last [] sep h = refl
split_last (c ∷ s) sep h = ground (arith, split_last s sep)

-- A part behind which a separator stands.
split_part :
    (s rest : Text) (sep : ℕ) → Lacks sep s → split (s ++ sep ∷ rest) sep ≡ s ∷ split rest sep
unfolding split
split_part [] rest sep h = ground arith
split_part (c ∷ s) rest sep h = ground (arith, split_part s rest sep)

pub split_three :
    (a b c : Text) (sep : ℕ)
    → Lacks sep a
    → Lacks sep b
    → Lacks sep c
    → split (a ++ sep ∷ (b ++ sep ∷ c)) sep ≡ a ∷ b ∷ c ∷ []
split_three a b c sep ha hb hc =
    split_part a _ sep ha ∙ ap (◌∷◌ a) (split_part b c sep hb ∙ ap (◌∷◌ b) (split_last c sep hc))

-- The text that parts spell, with the separator between them.
unfoldable pub joined : ℕ → List Text → Text
joined sep [] = []
joined sep (p ∷ []) = p
joined sep (p ∷ q ∷ ps) = p ++ sep ∷ joined sep (q ∷ ps)

joined_cons :
    (sep c : ℕ) (p : Text) (ps : List Text) → joined sep ((c ∷ p) ∷ ps) ≡ c ∷ joined sep (p ∷ ps)
unfolding joined
joined_cons sep c p [] = refl
joined_cons sep c p (q ∷ ps) = refl

split_cons : (s : Text) (sep : ℕ) → (p : Text) × (ps : List Text) × (split s sep ≡ p ∷ ps)
unfolding split
split_cons [] sep = ([], [], refl)
split_cons (c ∷ s) sep = elim (Bool-cases (c == sep)) [
  | inl hit ↦ ([], split s sep, ground arith)
  | inr miss ↦ let (p, ps, e) = split_cons s sep in (c ∷ p, ps, ground arith)
]

-- The parts of a split spell the text.
pub joined-split : (s : Text) (sep : ℕ) → joined sep (split s sep) ≡ s
unfolding split joined
joined-split [] sep = refl
joined-split (c ∷ s) sep =
    let (p, ps, e) = split_cons s sep in
    ground (arith, e, joined_cons sep c p ps, joined-split s sep)

-- No part of a split holds the separator.
pub split-Lacks : (s : Text) (sep : ℕ) → All (Lacks sep) (split s sep)
unfolding split
split-Lacks [] sep = (tt, tt)
split-Lacks (c ∷ s) sep =
    let (p, ps, e) = split_cons s sep in
    let rest : All (Lacks sep) (p ∷ ps) = rw e at (split-Lacks s sep) in
    elim (Bool-cases (c == sep)) [
      | inl hit ↦ rw (hit, e) (tt, rest)
      | inr miss ↦ rw (miss, e) ((ground arith, rest.0), rest.1)
    ]
