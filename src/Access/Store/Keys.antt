-- ===== src/Access/Store/Keys.antt =====
-- The keys of a user as they are added and removed.
use rdp_warp_portal.Prelude.{
  ◌≡◌, refl, ap, sym, ◌∙◌, none, some, inl, inr, List, [], ◌∷◌, ◌++◌, if◌then◌else◌, ◌==◌, text_eq,
  Text, arith, ok, Option-cases, beq_refl, beq_eq,
}
use rdp_warp_portal.Prelude.Assoc.{insert, lookup-insert, lookup-delete}
use rdp_warp_portal.Access.Store.{
  MemoryStore, PublicKeyEntry, KeyCodec, find_entry, remove_entry, keys_of, add_entry,
  add_public_key, put_entries, remove_public_key, normalize_email,
}

module _ {K : Type 0} where
  find_entry-append :
      (fp : Text) (es : List (PublicKeyEntry K)) (e : PublicKeyEntry K)
      → find_entry fp es ≡ none
      → find_entry fp (es ++ (e ∷ [])) ≡ (if e.fingerprint == fp then some e else none)
  unfolding find_entry
  find_entry-append fp [] e missing = refl
  find_entry-append fp (d ∷ es) e missing = ground (arith, find_entry-append fp es e)

  remove_entry-append :
      (fp : Text) (es : List (PublicKeyEntry K)) (e : PublicKeyEntry K)
      → find_entry fp es ≡ none
      → e.fingerprint ≡ fp
      → remove_entry fp (es ++ (e ∷ [])) ≡ es
  unfolding find_entry remove_entry
  remove_entry-append fp [] e missing same = ground (arith, beq_refl fp)
  remove_entry-append fp (d ∷ es) e missing same = ground (arith, remove_entry-append fp es e)

  keys_of-put_entries :
      (email other : Text) (es : List (PublicKeyEntry K)) (s : MemoryStore K)
      → keys_of other (put_entries email es s) ≡ (if email == other then es else keys_of other s)
  unfolding keys_of put_entries
  keys_of-put_entries email other [] s = ground (arith, lookup-delete email other s.public_keys)
  keys_of-put_entries email other (e ∷ es) s =
      ground (arith, lookup-insert email other (e ∷ es) s.public_keys)

  -- The entry that `AddPublicKey` makes.
  abbrev pub new_entry : K → Text → Text → Text → PublicKeyEntry K
  new_entry key raw fp email = record { key = key; raw = raw; fingerprint = fp; email = email }

  add_entry_new :
      (key : K) (raw fp email : Text) (s : MemoryStore K)
      → find_entry fp (keys_of email s) ≡ none
      → add_entry key raw fp email s ≡ record s {
        public_keys =
            insert email (keys_of email s ++ (new_entry key raw fp email ∷ [])) s.public_keys;
      }
  unfolding add_entry
  add_entry_new key raw fp email s missing = rw (add_entry, missing) refl

  add_entry_known :
      (key : K) (raw fp email : Text) (s : MemoryStore K) (e : PublicKeyEntry K)
      → find_entry fp (keys_of email s) ≡ some e
      → add_entry key raw fp email s ≡ s
  unfolding add_entry
  add_entry_known key raw fp email s e known = rw (add_entry, known) refl

  keys_of-add_entry :
      (key : K) (raw fp email other : Text) (s : MemoryStore K)
      → find_entry fp (keys_of email s) ≡ none
      → keys_of other (add_entry key raw fp email s) ≡ (
          if email == other
          then keys_of email s ++ (new_entry key raw fp email ∷ [])
          else keys_of other s)
  unfolding keys_of
  keys_of-add_entry key raw fp email other s missing =
      ap (keys_of other) (add_entry_new key raw fp email s missing)
      ∙ ground (
        arith,
        lookup-insert email other (keys_of email s ++ (new_entry key raw fp email ∷ []))
            s.public_keys,
      )

  find_entry-add_entry :
      (key : K) (raw fp email : Text) (s : MemoryStore K)
      → (e : PublicKeyEntry K) × (find_entry fp (keys_of email (add_entry key raw fp email s))
          ≡ some e)
  find_entry-add_entry key raw fp email s = elim (Option-cases (find_entry fp (keys_of email s))) [
    | inl missing ↦ (
      new_entry key raw fp email,
      ap (find_entry fp)
            (keys_of-add_entry key raw fp email email s missing ∙ rw (beq_refl email) refl)
          ∙ find_entry-append fp (keys_of email s) (new_entry key raw fp email) missing
          ∙ rw (beq_refl fp) refl,
    )
    | inr (e, known) ↦ (
      e,
      ap (λ left. find_entry fp (keys_of email left)) (add_entry_known key raw fp email s e known)
          ∙ known,
    )
  ]

  remove_found :
      (email fp : Text) (s : MemoryStore K) (e : PublicKeyEntry K)
      → find_entry fp (keys_of (normalize_email email) s) ≡ some e
      → remove_public_key email fp s ≡ (
        put_entries (normalize_email email) (remove_entry fp (keys_of (normalize_email email) s)) s,
        none,
      )
  unfolding remove_public_key
  remove_found email fp s e found = rw (remove_public_key, found) refl

  add_public_key_ok :
      (codec : KeyCodec K) (key : K) (email : Text) (s : MemoryStore K) (fp raw : Text)
      → codec.fingerprint_of key ≡ some fp
      → codec.pem_of key ≡ some raw
      → add_public_key codec email key s ≡ (add_entry key raw fp (normalize_email email) s, ok fp)
  unfolding add_public_key
  add_public_key_ok codec key email s fp raw printed written =
      rw (add_public_key, printed, written) refl

  module _ (codec : KeyCodec K) (key : K) (email : Text) (s : MemoryStore K) where
    -- Adding a key that the user has not yet, and removing it by the fingerprint that was returned,
    -- succeeds and gives every user the keys that they had.
    pub remove_public_key-add_public_key :
        (fp raw other : Text)
        → codec.fingerprint_of key ≡ some fp
        → codec.pem_of key ≡ some raw
        → find_entry fp (keys_of (normalize_email email) s) ≡ none
        → let added = add_public_key codec email key s in
          (added.1 ≡ ok fp)
          × ((remove_public_key email fp added.0).1 ≡ none)
          × (keys_of other (remove_public_key email fp added.0).0 ≡ keys_of other s)
    remove_public_key-add_public_key fp raw other printed written missing =
        let norm = normalize_email email in
        let entry = new_entry key raw fp norm in
        let after = add_entry key raw fp norm s in
        let made = add_public_key_ok codec key email s fp raw printed written in
        let (e, found) = find_entry-add_entry key raw fp norm s in
        let removed = remove_found email fp after e found in
        let its_keys : keys_of norm after ≡ keys_of norm s ++ (entry ∷ []) =
          keys_of-add_entry key raw fp norm norm s missing ∙ rw (beq_refl norm) refl in
        let left : remove_entry fp (keys_of norm after) ≡ keys_of norm s =
          ap (remove_entry fp) its_keys
          ∙ remove_entry-append fp (keys_of norm s) entry missing refl in
        let back : keys_of other (put_entries norm (remove_entry fp (keys_of norm after)) after)
            ≡ keys_of other s =
          ground (
            arith,
            keys_of-put_entries norm other (remove_entry fp (keys_of norm after)) after,
            keys_of-add_entry key raw fp norm other s missing,
            beq_eq norm other,
          ) in
        rw made (refl, ap (λ r. r.1) removed, ap (λ r. keys_of other r.0) removed ∙ back)

    unprinted :
        codec.fingerprint_of key ≡ none
        → add_public_key codec email key (add_public_key codec email key s).0
          ≡ add_public_key codec email key s
    unfolding add_public_key
    unprinted e = ground arith

    unwritten :
        codec.pem_of key ≡ none
        → add_public_key codec email key (add_public_key codec email key s).0
          ≡ add_public_key codec email key s
    unfolding add_public_key
    unwritten e = ground arith

    -- Adding a key again changes nothing and returns the same fingerprint.
    pub add_public_key_again :
        let once = add_public_key codec email key s in add_public_key codec email key once.0 ≡ once
    add_public_key_again = elim (Option-cases (codec.fingerprint_of key)) [
      | inl e ↦ unprinted e
      | inr (fp, printed) ↦ elim (Option-cases (codec.pem_of key)) [
        | inl e ↦ unwritten e
        | inr (raw, written) ↦
            let norm = normalize_email email in
            let (e, found) = find_entry-add_entry key raw fp norm s in
            let made = add_public_key_ok codec key email s fp raw printed written in
            ap (λ r. add_public_key codec email key r.0) made
            ∙ add_public_key_ok codec key email (add_entry key raw fp norm s) fp raw printed written
            ∙ ap (λ left. (left, ok fp))
                (add_entry_known key raw fp norm (add_entry key raw fp norm s) e found)
            ∙ sym made
      ]
    ]
