-- ===== src/Access/Router.antt =====
-- `ServeHTTP` of proxy/internal/api/router.go: which requests reach a handler, and as whom.
pub mod Entry
use rdp_warp_portal.Prelude.{
  ◌+◌, ◌≡◌, ◌≢◌, refl, ◌↔◌, ◌⊎◌, inl, inr, Bool, true, false, ◌&&◌, Option, none, some, [], ◌∷◌,
  text_eq, Text, codes, Result, ok, err, if◌then◌else◌, ◌==◌, take, drop, Bool-cases, Option-cases,
  Result-cases, beq_eq, beq_refl, beq_ne, ap, ◌∙◌,
}
use rdp_warp_portal.Access.Verifier.{AuthError}
use rdp_warp_portal.Strings.{index, has_prefix, to_lower}

pub record HttpRequest : Type 0 where
  pub method : Text
  pub path : Text
  pub authorization : Text

-- The fields of `Router` that decide: the shared key, and `Verify` if there is a verifier.
pub record Router : Type 0 where
  pub api_key : Text
  pub verifier : Option (Text → Result AuthError Text)

pub data Refusal : Type 0 where
  missing_header invalid_header invalid_token invalid_api_key : Refusal

-- The answer to a preflight, a refusal with status 401, or the handler, with the user that is known.
pub data Decision : Type 0 where
  preflight : Decision
  refused : Refusal → Decision
  serves : Option Text → Decision

-- The token behind "Bearer ", in any case: `SplitN` at the first space.
unfoldable pub bearer : Text → Option Text
unfolding index to_lower
bearer header = elim (index header (codes " ")) [
  | none ↦ none
  | some i ↦ if to_lower (take i header) == codes "bearer" then some (drop (i + 1) header) else none
]

unfoldable pub by_token : (Text → Result AuthError Text) → Text → Decision
unfolding bearer
by_token verify header = if header == [] then refused missing_header else elim (bearer header) [
  | none ↦ refused invalid_header
  | some token ↦ elim (verify token) [ err e ↦ refused invalid_token | ok sub ↦ serves (some sub) ]
]

unfoldable pub by_key : Text → Text → Decision
unfolding bearer
by_key api_key header = if header == [] then refused missing_header else elim (bearer header) [
  | none ↦ refused invalid_api_key
  | some key ↦ if key == api_key then serves none else refused invalid_api_key
]

-- `isJWTProtected`, for a router that has a verifier.
unfoldable pub is_session_request : HttpRequest → Bool
is_session_request req = req.method == codes "POST" && req.path == codes "/api/sessions"

-- The shared key is checked if there is one.
unfoldable pub by_shared_key : Router → HttpRequest → Decision
unfolding by_key
by_shared_key r req = if r.api_key == [] then serves none else by_key r.api_key req.authorization

unfoldable pub by_rule : Router → HttpRequest → Decision
unfolding is_session_request by_token by_shared_key
by_rule r req = elim r.verifier [
  | none ↦ by_shared_key r req
  | some verify ↦
      if is_session_request req then by_token verify req.authorization else by_shared_key r req
]

unfoldable pub serve_http : Router → HttpRequest → Decision
unfolding by_rule has_prefix
serve_http r req =
    if req.method == codes "OPTIONS"
    then preflight
    else if has_prefix req.path (codes "/api/")
    then by_rule r req
    else serves none

-- A header with a bearer token is not empty.
bearer_filled : (header token : Text) → bearer header ≡ some token → (header == []) ≡ false
unfolding bearer has_prefix
bearer_filled [] token h = absurd (cc)
bearer_filled (c ∷ header) token h = beq_ne (c ∷ header) [] (λ e. cc)

pub by_key-serves :
    (api_key header : Text) → (by_key api_key header ≡ serves none) ↔ (bearer header ≡ some api_key)
unfolding by_key
by_key-serves api_key header = (
  λ h. elim (Bool-cases (header == [])) [
    | inl e ↦ absurd (cc (rw (e, by_key) at h))
    | inr e ↦ elim (Option-cases (bearer header)) [
      | inl n ↦ absurd (cc (rw (e, by_key, n) at h))
      | inr (key, b) ↦ elim (Bool-cases (key == api_key)) [
        | inl same ↦ b ∙ ap some (beq_eq key api_key same)
        | inr other ↦ absurd (cc (rw (e, by_key, b, other) at h))
      ]
    ]
  ],
  λ b. rw (bearer_filled header api_key b, by_key, b, beq_refl api_key) refl,
)

by_token-serves :
    (verify : Text → Result AuthError Text) (header who : Text)
    → (by_token verify header ≡ serves (some who))
      ↔ ((token : Text) × (bearer header ≡ some token) × (verify token ≡ ok who))
unfolding by_token
by_token-serves verify header who = (
  λ h. elim (Bool-cases (header == [])) [
    | inl e ↦ absurd (cc (rw (e, by_token) at h))
    | inr e ↦ elim (Option-cases (bearer header)) [
      | inl n ↦ absurd (cc (rw (e, by_token, n) at h))
      | inr (token, b) ↦ elim (Result-cases (verify token)) [
        | inl (bad, v) ↦ absurd (cc (rw (e, by_token, b, v) at h))
        | inr (sub, v) ↦
            let got : serves (some sub) ≡ serves (some who) = rw (e, by_token, b, v) at h in
            (token, b, v ∙ cc)
      ]
    ]
  ],
  λ p. let (token, b, v) = p in rw (bearer_filled header token b, by_token, b, v) refl,
)

-- The same by the tests of the code.
pub serve_http-decides :
    (r : Router) (req : HttpRequest) (verify : Text → Result AuthError Text) (who : Text)
    → r.verifier ≡ some verify
    → r.api_key ≢ []
    → (req.method == codes "OPTIONS") ≡ false
    → has_prefix req.path (codes "/api/") ≡ true
    → ((is_session_request req ≡ true)
        × ((serve_http r req ≡ serves (some who))
            ↔ ((token : Text) × (bearer req.authorization ≡ some token) × (verify token ≡ ok who))))
      ⊎ ((is_session_request req ≡ false)
          × ((serve_http r req ≡ serves none) ↔ (bearer req.authorization ≡ some r.api_key)))
unfolding serve_http
serve_http-decides r req verify who with_verifier keyed method path =
    elim (Bool-cases (is_session_request req)) [
      | inl session ↦
          let same : serve_http r req ≡ by_token verify req.authorization =
            rw (method, serve_http, path, with_verifier, session) refl in
          inl (session, rw same (by_token-serves verify req.authorization who))
      | inr other ↦
          let same : serve_http r req ≡ by_key r.api_key req.authorization =
            rw (method, serve_http, path, with_verifier, other, beq_ne r.api_key [] keyed) refl in
          inr (other, rw same (by_key-serves r.api_key req.authorization))
    ]
