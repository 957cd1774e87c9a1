-- ===== src/Strings/Replace.antt =====
-- The two replacements of the user's name: `@` by `%40` in the RDP file, and back in the gatekeeper.
use rdp_warp_portal.Prelude.{
  ℕ, ◌≡◌, ◌≢◌, refl, ap, false, [], ◌∷◌, ◌++◌, sym, ◌∙◌, if◌then◌else◌, ◌==◌, nat_eq, Text, arith,
  Bool-cases, beq_eq, inl, inr, codes,
}
use rdp_warp_portal.Strings.Index.{Lacks}
use rdp_warp_portal.Strings.{has_prefix, replace_from, contains}

-- `strings.ReplaceAll(s, "@", "%40")`.
unfoldable pub encode_at : Text → Text
unfolding replace_from
encode_at s = replace_from 0 b'@' [] (codes "%40") s

-- `strings.ReplaceAll(s, "%40", "@")`.
unfoldable pub decode_at : Text → Text
unfolding replace_from
decode_at s = replace_from 0 b'%' (codes "40") (codes "@") s

encode_at_nil : encode_at [] ≡ []
unfolding encode_at
encode_at_nil = refl

encode_at_cons :
    (c : ℕ) (s : Text)
    → encode_at (c ∷ s) ≡ (if c == b'@' then codes "%40" ++ encode_at s else c ∷ encode_at s)
unfolding encode_at
encode_at_cons c s = ground arith

decode_at_hit : (s : Text) → decode_at (codes "%40" ++ s) ≡ b'@' ∷ decode_at s
unfolding decode_at has_prefix
decode_at_hit s = refl

decode_at_miss :
    (c : ℕ) (s : Text)
    → has_prefix (c ∷ s) (codes "%40") ≡ false
    → decode_at (c ∷ s) ≡ c ∷ decode_at s
unfolding decode_at
decode_at_miss c s h = rw h

decoded_nil : decode_at [] ≡ []
unfolding decode_at
decoded_nil = refl

-- Encoding makes no `%40` at a byte that is not encoded itself.
prefix_stays :
    (c : ℕ) (s : Text)
    → has_prefix (c ∷ s) (codes "%40") ≡ false
    → has_prefix (c ∷ encode_at s) (codes "%40") ≡ false
unfolding has_prefix
prefix_stays c [] h = ground (arith, encode_at_nil)
prefix_stays c (d ∷ []) h = ground (arith, encode_at_nil, encode_at_cons d [])
prefix_stays c (d ∷ e ∷ s) h = ground (arith, encode_at_cons d (e ∷ s), encode_at_cons e s)

contains_tail :
    (c : ℕ) (s p : Text)
    → contains (c ∷ s) p ≡ false
    → (has_prefix (c ∷ s) p ≡ false) × (contains s p ≡ false)
unfolding contains
contains_tail c s p h = ground arith

-- Encoding brings in no byte but those of `%40`.
pub encode_at-Lacks :
    (b : ℕ) (s : Text) → b ≢ b'%' → b ≢ b'4' → b ≢ b'0' → Lacks b s → Lacks b (encode_at s)
encode_at-Lacks b [] p f z h = rw encode_at_nil tt
encode_at-Lacks b (c ∷ s) p f z h =
    let rest = encode_at-Lacks b s p f z h.1 in
    elim (Bool-cases (c == b'@')) [
      | inl hit ↦
          rw (encode_at_cons, hit) ((λ e. p (sym e)), ((λ e. f (sym e)), ((λ e. z (sym e)), rest)))
      | inr miss ↦ rw (encode_at_cons, miss) (h.0, rest)
    ]

pub encode_at-ne-nil : (s : Text) → s ≢ [] → encode_at s ≢ []
encode_at-ne-nil [] h = absurd (h refl)
encode_at-ne-nil (c ∷ s) h = ground (arith, encode_at_cons c s)

-- Decoding the encoded text gives the text back, if it does not hold `%40` itself.
pub decode_at-encode_at :
    (s : Text) → contains s (codes "%40") ≡ false → decode_at (encode_at s) ≡ s
decode_at-encode_at [] h = rw encode_at_nil decoded_nil
decode_at-encode_at (c ∷ s) h =
    let (here, later) = contains_tail c s (codes "%40") h in
    let ih = decode_at-encode_at s later in
    elim (Bool-cases (c == b'@')) [
      | inl hit ↦
          rw (encode_at_cons, hit)
            (decode_at_hit (encode_at s)
              ∙ ap (◌∷◌ b'@') ih
              ∙ ap (λ b. b ∷ s) (sym (beq_eq c b'@' hit)))
      | inr miss ↦
          rw (encode_at_cons, miss)
            (decode_at_miss c (encode_at s) (prefix_stays c s here) ∙ ap (◌∷◌ c) ih)
    ]
