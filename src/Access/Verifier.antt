-- ===== src/Access/Verifier.antt =====
-- `Verify` of proxy/internal/auth/verifier.go. The JWT library is a parameter: what subject a token
-- names, and whether it verifies against a key.
use rdp_warp_portal.Prelude.{
  ◌≡◌, ◌≢◌, sym, ◌∙◌, inl, inr, Option, none, some, List, [], ◌∷◌, text_eq, Text, Result, ok, err,
  Option-cases, Result-cases, subst,
}
use rdp_warp_portal.Access.Store.{MemoryStore, get_public_keys}

-- `ParseUnverified` with `GetSubject`, and `ParseWithClaims`, which also returns the subject.
pub record Jwt (K : Type 0) : Type 0 where
  pub subject_of : Text → Option Text
  pub checks : K → Text → Option Text

pub data AuthError : Type 0 where
  unparsable no_subject no_keys not_verified : AuthError

module _ {K : Type 0} (jwt : Jwt K) where
  -- The loop over the keys.
  unfoldable pub try_keys : Text → List K → Result AuthError Text
  try_keys token [] = err not_verified
  try_keys token (k ∷ ks) =
      let rest = try_keys token ks in elim (jwt.checks k token) [ some sub ↦ ok sub | none ↦ rest ]

  unfoldable pub verify_for : Text → MemoryStore K → Text → Result AuthError Text
  unfolding try_keys
  verify_for [] store token = err no_subject
  verify_for (c ∷ sub) store token = elim (get_public_keys (c ∷ sub) store) [
    | err e ↦ err no_keys
    | ok keys ↦ try_keys token keys
  ]

  unfoldable pub verify : MemoryStore K → Text → Result AuthError Text
  unfolding verify_for
  verify store token = elim (jwt.subject_of token) [
    | none ↦ err unparsable
    | some sub ↦ verify_for sub store token
  ]

  -- A key of the list.
  pub data IsIn (k : K) : List K → Type 0 where
    here : {ks : List K} → IsIn k (k ∷ ks)
    there : {j : K} {ks : List K} → IsIn k ks → IsIn k (j ∷ ks)

  try_keys-ok :
      (token who : Text) (keys : List K)
      → try_keys token keys ≡ ok who
      → (k : K) × IsIn k keys × (jwt.checks k token ≡ some who)
  unfolding try_keys
  try_keys-ok token who [] h = absurd (cc)
  try_keys-ok token who (k ∷ ks) h = elim (Option-cases (jwt.checks k token)) [
    | inl no_match ↦
        let (j, in_rest, good) = try_keys-ok token who ks (rw (no_match, try_keys) at h) in
        (j, there in_rest, good)
    | inr (sub, good) ↦
        let same : ◌≡◌ {A = Result AuthError Text} (ok sub) (ok who) = rw (good, try_keys) at h in
        (k, here, good ∙ cc)
  ]

  -- A key registered under `who` verifies the token.
  abbrev pub Vouched : MemoryStore K → Text → Text → Type 0
  Vouched store token who =
      (keys : List K) × (k : K) × (get_public_keys who store ≡ ok keys)
      × IsIn k keys
      × (jwt.checks k token ≡ some who)

  verify_for-ok :
      (sub : Text) (store : MemoryStore K) (token who : Text)
      → verify_for sub store token ≡ ok who
      → (sub ≢ [])
        × (keys : List K) × (k : K) × (get_public_keys sub store ≡ ok keys)
        × IsIn k keys
        × (jwt.checks k token ≡ some who)
  unfolding verify_for
  verify_for-ok [] store token who h = absurd (cc)
  verify_for-ok (c ∷ sub) store token who h =
      elim (Result-cases (get_public_keys (c ∷ sub) store)) [
        | inl (e, unknown) ↦ absurd (cc (rw (unknown, verify_for) at h))
        | inr (keys, known) ↦
            let (k, in_keys, good) = try_keys-ok token who keys (rw (known, verify_for) at h) in
            ((λ e. cc), keys, k, known, in_keys, good)
      ]

  module _
      (agrees : (k : K) (token who : Text)
        → jwt.checks k token ≡ some who
        → jwt.subject_of token ≡ some who) where
    -- An identity is verified only if it is not empty and a key that is registered for it verifies
    -- the token, where the library reads the same subject with and without a key.
    pub verify_sound :
        (store : MemoryStore K) (token who : Text)
        → verify store token ≡ ok who
        → (who ≢ []) × Vouched store token who
    unfolding verify
    verify_sound store token who h = elim (Option-cases (jwt.subject_of token)) [
      | inl e ↦ absurd (cc (rw (e, verify) at h))
      | inr (sub, e) ↦
          let (filled, keys, k, known, in_keys, good) =
            verify_for-ok sub store token who (rw (e, verify) at h) in
          let both : some sub ≡ some who = sym e ∙ agrees k token who good in
          let same : sub ≡ who = cc in
          (
            subst (λ w. w ≢ []) same filled,
            (keys, k, subst (λ w. get_public_keys w store ≡ ok keys) same known, in_keys, good),
          )
    ]
