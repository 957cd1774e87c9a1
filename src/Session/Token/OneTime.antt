-- ===== src/Session/Token/OneTime.antt =====
-- A token is accepted once, for its own value and until it expires.
use rdp_warp_portal.Prelude.{
  ℕ, ◌+◌, ◌≤◌, ◌≡◌, ◌≢◌, refl, ◌↔◌, Bool, true, false, not, ◌&&◌, ◌||◌, leb, none, some, List, [],
  ◌∷◌, if◌then◌else◌, ◌==◌, text_eq, Text, text_beq_iff, arith, length, All, beq_refl, beq_ne, ◌∙◌,
  sym,
}
use rdp_warp_portal.Session.Token.Encoding.{encode, encode_inj, IsByte}
use rdp_warp_portal.Session.Token.{
  Token, token_mismatch, token_size, validate, validate_without_consume, new_token, generate_token,
}

-- `Validate` accepts exactly the token's own value, unused, until the moment of expiry included; it
-- then marks the token used and changes nothing else. Every other call leaves the token as it is and
-- returns the error that `ValidateWithoutConsume` returns.
pub validate_lem :
    (t : Token) (value : Text) (now : ℕ)
    → ((validate t value now).1 ≡ validate_without_consume t value now)
      × (((validate t value now).1 ≡ none)
          ↔ ((t.value ≡ value) × (t.consumed ≡ false) × (now ≤ t.expiry)))
      × ((validate t value now).1 ≡ none → (validate t value now).0 ≡ record t { consumed = true })
      × ((validate t value now).1 ≢ none → (validate t value now).0 ≡ t)
unfolding validate validate_without_consume
validate_lem t value now = (
  ground arith,
  (ground (arith, text_beq_iff t.value value), ground (arith, text_beq_iff t.value value)),
  ground arith,
  ground arith,
)

-- An attempt: the value that is presented, and when.
abbrev pub Attempt : Type 0
Attempt = Text × ℕ

-- How many attempts of a sequence `Validate` accepts.
pub accepted : Token → List Attempt → ℕ
accepted t [] = 0
accepted t ((value, now) ∷ rest) =
    let (t', error) = validate t value now in
    elim error [ none ↦ 1 | some e ↦ 0 ] + accepted t' rest

-- Some attempt presents the token's value, until the moment of expiry included.
unfoldable pub any_in_time : Token → List Attempt → Bool
any_in_time t [] = false
any_in_time t ((value, now) ∷ rest) = (t.value == value && leb now t.expiry) || any_in_time t rest

used : (t : Token) (attempts : List Attempt) → t.consumed ≡ true → accepted t attempts ≡ 0
unfolding accepted validate
used t [] h = refl
used t ((value, now) ∷ rest) h = ground (arith, used t rest)

-- Of any sequence of attempts on a token that is not used yet, exactly one is accepted if any of them
-- presents its value no later than its expiry, and none otherwise. A used token accepts none.
pub accepted_once :
    (t : Token) (attempts : List Attempt)
    → accepted t attempts ≡ (if not t.consumed && any_in_time t attempts then 1 else 0)
unfolding accepted any_in_time validate
accepted_once t [] = ground arith
accepted_once t ((value, now) ∷ rest) =
    ground (arith, used (record t { consumed = true }) rest, used t rest, accepted_once t rest)

-- A token that `NewToken` makes of random bytes is accepted at every moment of its life, and then no
-- more; the token made of as many other bytes is refused in its place.
pub new_token_lem :
    (bytes other : Text) (now ttl later : ℕ) (t u : Token)
    → All IsByte bytes
    → All IsByte other
    → length bytes ≡ token_size
    → length other ≡ token_size
    → bytes ≢ other
    → new_token (some bytes) now ttl ≡ some t
    → new_token (some other) now ttl ≡ some u
    → later ≤ now + ttl
    → ((validate t t.value later).1 ≡ none) × (validate t u.value later ≡ (t, some token_mismatch))
unfolding new_token generate_token validate
new_token_lem bytes other now ttl later t u hb ho size size' differ et eu alive =
    let mine : t.value ≡ encode bytes = ground arith in
    let theirs : u.value ≡ encode other = ground arith in
    let apart : t.value ≢ u.value =
      λ same. differ (encode_inj bytes other hb ho (size ∙ sym size') (sym mine ∙ same ∙ theirs)) in
    (ground (arith, beq_refl t.value), ground (arith, beq_ne t.value u.value apart))
