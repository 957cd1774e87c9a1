-- ===== src/Access/Admin/Keys.antt =====
-- A public key that proxy/internal/api/publickeys.go accepts.
use rdp_warp_portal.Prelude.{
  ℕ, ◌≡◌, refl, subst, inl, inr, Option, some, List, [], ◌∷◌, ◌++◌, ◌==◌, nat_eq, text_eq, Text,
  Bool-cases, Option-cases, beq_refl, arith,
}
use rdp_warp_portal.Prelude.Assoc.{lookup-insert}
use rdp_warp_portal.Access.Handlers.{bad_email}
use rdp_warp_portal.Access.Store.{
  MemoryStore, PublicKeyEntry, KeyCodec, add_public_key, add_entry, keys_of, find_entry,
  normalize_email,
}
use rdp_warp_portal.Access.Admin.{AddPublicKeyRequest, post_public_key, key_added}

some_text : (a b : Text) → some a ≡ some b → a ≡ b
some_text a b h = cc

module _ {K : Type 0} where
  find_last :
      (fp : Text) (es : List (PublicKeyEntry K)) (e : PublicKeyEntry K)
      → e.fingerprint ≡ fp
      → (d : PublicKeyEntry K) × (find_entry fp (es ++ (e ∷ [])) ≡ some d)
  unfolding find_entry
  find_last fp [] e same = (e, ground (arith, beq_refl fp))
  find_last fp (d ∷ es) e same = elim (Bool-cases (d.fingerprint == fp)) [
    | inl hit ↦ (d, rw (find_entry, hit) refl)
    | inr other ↦ let (x, found) = find_last fp es e same in (x, rw (find_entry, other) found)
  ]

  -- An entry that is added is found.
  add_entry_found :
      (key : K) (raw fp email : Text) (s : MemoryStore K)
      → (d : PublicKeyEntry K) × (find_entry fp (keys_of email (add_entry key raw fp email s))
          ≡ some d)
  unfolding add_entry keys_of
  add_entry_found key raw fp email s = elim (Option-cases (find_entry fp (keys_of email s))) [
    | inl new ↦
        let entry : PublicKeyEntry K = record {
          key = key;
          raw = raw;
          fingerprint = fp;
          email = email;
        } in
        let (d, found) = find_last fp (keys_of email s) entry refl in
        (
          d,
          rw
              (
                add_entry,
                new,
                keys_of,
                lookup-insert email email (keys_of email s ++ (entry ∷ [])) s.public_keys,
                beq_refl email,
              )
              found,
        )
    | inr (d, known) ↦ (d, rw (add_entry, known) known)
  ]

  -- What holds of a store that has a key of that fingerprint for the user.
  abbrev pub Trusts : Text → Text → MemoryStore K → Type 0
  Trusts fp email store =
      (d : PublicKeyEntry K) × (find_entry fp (keys_of (normalize_email email) store) ≡ some d)

  -- What an answer with a fingerprint shows of the store.
  abbrev Answers : Text → Text → MemoryStore K × ℕ × Option Text → Type 0
  Answers fp email answer = answer.2 ≡ some fp → Trusts fp email answer.0

  add_public_key-Answers :
      (codec : KeyCodec K) (email fp : Text) (key : K) (store : MemoryStore K)
      → Answers fp email (key_added (add_public_key codec email key store))
  unfolding add_public_key key_added
  add_public_key-Answers codec email fp key store = elim (Option-cases (codec.fingerprint_of key)) [
    | inl unwritten ↦ rw (add_public_key, unwritten) (λ h. absurd (cc))
    | inr (print, e) ↦ elim (Option-cases (codec.pem_of key)) [
      | inl unwritten ↦ rw (add_public_key, e, unwritten) (λ h. absurd (cc))
      | inr (raw, written) ↦
          rw (add_public_key, e, written)
            (λ h.
              subst (λ f. Trusts f email (add_entry key raw print (normalize_email email) store))
                (some_text print fp h)
                (add_entry_found key raw print (normalize_email email) store))
    ]
  ]

  post-Answers :
      (codec : KeyCodec K) (parse : Text → Option K) (req : AddPublicKeyRequest)
      (store : MemoryStore K) (fp : Text)
      → Answers fp req.email (post_public_key codec parse (some req) store)
  unfolding post_public_key
  post-Answers codec parse req store fp = elim (Bool-cases (bad_email req.email)) [
    | inl bad ↦ rw (post_public_key, bad) (λ h. absurd (cc))
    | inr good ↦ elim (Bool-cases (req.public_key == [])) [
      | inl empty ↦ rw (post_public_key, good, empty) (λ h. absurd (cc))
      | inr filled ↦ elim (Option-cases (parse req.public_key)) [
        | inl unread ↦ rw (post_public_key, good, filled, unread) (λ h. absurd (cc))
        | inr (key, read) ↦
            rw (post_public_key, good, filled, read)
              (add_public_key-Answers codec req.email fp key store)
      ]
    ]
  ]

  -- A request to add a key that is answered with a fingerprint leaves a key of that fingerprint with
  -- the user, whether it was there before or not.
  pub post_public_key-Trusts :
      (codec : KeyCodec K) (parse : Text → Option K) (req : AddPublicKeyRequest)
      (store : MemoryStore K) (fp : Text)
      → (post_public_key codec parse (some req) store).2 ≡ some fp
      → Trusts fp req.email (post_public_key codec parse (some req) store).0
  post_public_key-Trusts codec parse req store fp h = post-Answers codec parse req store fp h
