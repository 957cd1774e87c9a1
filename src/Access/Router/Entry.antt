-- ===== src/Access/Router/Entry.antt =====
-- The requests that `ServeHTTP` lets through, by the text of their header.
use rdp_warp_portal.Prelude.{
  ℕ, ◌+◌, ◌≡◌, ◌≢◌, refl, ◌↔◌, ◌⊎◌, inl, inr, true, false, none, some, [], ◌∷◌, ◌++◌, text_eq, Text,
  codes, Result, ok, ◌==◌, take, drop, length, Bool-cases, Option-cases, arith, beq_eq, beq_refl,
  ap, sym, ◌∙◌, subst, suc, take-length-append, nat_eq,
}
use rdp_warp_portal.Access.Router.{
  HttpRequest, Router, serves, bearer, is_session_request, serve_http, serve_http-decides,
}
use rdp_warp_portal.Access.Verifier.{AuthError}
use rdp_warp_portal.Strings.Index.{index_cut, index-append, Lacks}
use rdp_warp_portal.Strings.{index, has_prefix, to_lower, lower_byte}

-- The header is the word "bearer" in any case, a space, and the token.
abbrev pub HasBearer : Text → Text → Type 0
HasBearer header token =
    (scheme : Text) × (header ≡ scheme ++ (codes " " ++ token)) × (to_lower scheme ≡ codes "bearer")

-- The request opens a session.
abbrev pub IsOpening : HttpRequest → Type 0
IsOpening req = (req.method ≡ codes "POST") × (req.path ≡ codes "/api/sessions")

-- A text lacks the space if its lower case does.
to_lower-Lacks : (s : Text) → Lacks 32 (to_lower s) → Lacks 32 s
unfolding to_lower lower_byte
to_lower-Lacks [] h = tt
to_lower-Lacks (c ∷ s) (first, rest) = (λ same. first (ap lower_byte same), to_lower-Lacks s rest)

bearer-Lacks : Lacks 32 (codes "bearer")
bearer-Lacks = (
  λ e. absurd (omega arith),
  (
    λ e. absurd (omega arith),
    (
      λ e. absurd (omega arith),
      (λ e. absurd (omega arith), (λ e. absurd (omega arith), (λ e. absurd (omega arith), tt))),
    ),
  ),
)

drop_next : (s t : Text) (b : ℕ) → drop (length s + 1) (s ++ (b ∷ t)) ≡ t
drop_next [] t b = refl
drop_next (c ∷ s) t b =
    let one : suc (length s) + 1 ≡ suc (length s + 1) = omega arith in
    ap (λ n. drop n ((c ∷ s) ++ (b ∷ t))) one ∙ drop_next s t b

bearer_of :
    (scheme token : Text)
    → to_lower scheme ≡ codes "bearer"
    → bearer (scheme ++ (codes " " ++ token)) ≡ some token
unfolding bearer
bearer_of scheme token word =
    let lacks = to_lower-Lacks scheme (subst (Lacks 32) (sym word) bearer-Lacks) in
    let at_space : index (scheme ++ (codes " " ++ token)) (codes " ") ≡ some (length scheme) =
      index-append scheme 32 [] token lacks in
    let taken : take (length scheme) (scheme ++ (codes " " ++ token)) ≡ scheme =
      take-length-append scheme (codes " " ++ token) in
    let left : drop (length scheme + 1) (scheme ++ (codes " " ++ token)) ≡ token =
      drop_next scheme token 32 in
    rw (bearer, at_space, taken, left, word, beq_refl (codes "bearer")) refl

bearer-HasBearer : (header token : Text) → (bearer header ≡ some token) ↔ HasBearer header token
unfolding bearer
bearer-HasBearer header token = (
  λ h. elim (Option-cases (index header (codes " "))) [
    | inl e ↦ absurd (cc (rw (bearer, e) at h))
    | inr (i, e) ↦ elim (Bool-cases (to_lower (take i header) == codes "bearer")) [
      | inr other ↦ absurd (cc (rw (bearer, e, other) at h))
      | inl same ↦
          let rest : drop (i + 1) header ≡ token = cc (rw (bearer, e, same) at h) in
          (
            take i header,
            index_cut header (codes " ") i e ∙ ap (λ t. take i header ++ (codes " " ++ t)) rest,
            beq_eq (to_lower (take i header)) (codes "bearer") same,
          )
    ]
  ],
  λ p. let (scheme, cut, word) = p in ap bearer cut ∙ bearer_of scheme token word,
)

is_session_request-IsOpening : (req : HttpRequest) → is_session_request req ≡ true → IsOpening req
unfolding is_session_request
is_session_request-IsOpening req h = elim (Bool-cases (req.method == codes "POST")) [
  | inr other ↦ absurd (cc (rw (is_session_request, other) at h))
  | inl post ↦ (
    beq_eq req.method (codes "POST") post,
    beq_eq req.path (codes "/api/sessions") (rw (is_session_request, post) at h),
  )
]

other-IsOpening : (req : HttpRequest) → is_session_request req ≡ false → ¬ IsOpening req
unfolding is_session_request
other-IsOpening req h (post, path) = absurd (
    cc (
      rw (is_session_request, post, path, beq_refl (codes "POST"), beq_refl (codes "/api/sessions"))
        at h))

-- With a verifier and a key that is not empty: a POST to /api/sessions is served, as `who`, exactly when
-- its header is the word "bearer", in any case, a space, and a token that is verified for `who`; any
-- other request under /api/ is served, as nobody, exactly when its header is that word, a space and the
-- shared key. Only preflights are left out here.
pub serve_http-serves :
    (r : Router) (req : HttpRequest) (verify : Text → Result AuthError Text) (who : Text)
    → r.verifier ≡ some verify
    → r.api_key ≢ []
    → (req.method == codes "OPTIONS") ≡ false
    → has_prefix req.path (codes "/api/") ≡ true
    → (IsOpening req
        × ((serve_http r req ≡ serves (some who))
            ↔ ((token : Text) × HasBearer req.authorization token × (verify token ≡ ok who))))
      ⊎ (¬ IsOpening req
          × ((serve_http r req ≡ serves none) ↔ HasBearer req.authorization r.api_key))
serve_http-serves r req verify who with_verifier keyed method path =
    elim (serve_http-decides r req verify who with_verifier keyed method path) [
      | inl (session, served) ↦ inl (
        is_session_request-IsOpening req session,
        (
          λ h.
              let (token, got, good) = served.0 h in
              (token, (bearer-HasBearer req.authorization token).0 got, good),
          λ p.
              let (token, has, good) = p in
              served.1 (token, (bearer-HasBearer req.authorization token).1 has, good),
        ),
      )
      | inr (other, served) ↦ inr (
        other-IsOpening req other,
        (
          λ h. (bearer-HasBearer req.authorization r.api_key).0 (served.0 h),
          λ has. served.1 ((bearer-HasBearer req.authorization r.api_key).1 has),
        ),
      )
    ]
