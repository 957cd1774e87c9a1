-- ===== src/Secrets/Chain.antt =====
-- The requests and the tokens of a call of `GetGoogleAccessToken`.
use rdp_warp_portal.Prelude.{
  ℕ, ◌+◌, ◌≤◌, ◌<◌, ◌≡◌, ◌≢◌, refl, inl, inr, true, codes, beq_refl, Option, none, some, List, [],
  ◌∷◌, ◌++◌, nat_eq, text_eq, Text, Result, ok, err, ◌>>=◌, ◌==◌, ltb, arith, beq_eq, Option-cases,
  Result-cases, Bool-cases, ap, ◌∙◌, subst,
}
use rdp_warp_portal.Secrets.{
  CachedToken, TokenProvider, FetchError, Services, Request, to_azure, to_sts, to_iam, Fetched,
  Reply, lost, answered, fresh, ok_body, read_token, unix_time, from_now, fetch_azure_token,
  fetch_sts_token, fetch_iam_token, stored, get_azure_token, exchange_sts, get_sts_token,
  impersonate, get_iam_token,
}

-- A token is kept and has more than 60 seconds left.
abbrev pub Kept : ℕ → Option CachedToken → Text → Type 0
Kept now kept token =
    (cached : CachedToken) × (kept ≡ some cached)
    × (cached.token ≡ token)
    × (now + 60 < cached.expires_at)

-- None is kept, or it has 60 seconds left at most.
abbrev pub Stale : ℕ → Option CachedToken → Type 0
Stale now kept = (cached : CachedToken) → kept ≡ some cached → cached.expires_at ≤ now + 60

-- The service answers with status 200 and a body with this token, which is not empty.
abbrev pub Gives : {X : Type 0} → Reply → (Text → Option (Text × X)) → Text → Type 0
Gives {X} reply decode token =
    (body : Text) × (x : X) × (reply ≡ answered 200 body)
    × (decode body ≡ some (token, x))
    × (token ≢ [])

-- How a call comes to the Azure token: it was kept, or is asked for.
pub data AzureBy (s : Services) (now : ℕ) (tp : TokenProvider) : List Request → Text → Type 0 where
  azure_kept : (token : Text) → Kept now tp.azure_token token → AzureBy s now tp [] token
  azure_asked :
      (token : Text)
      → Stale now tp.azure_token
      → Gives s.azure s.decode_azure token
      → AzureBy s now tp (to_azure ∷ []) token

-- To the STS token: it was kept, or the Azure token is exchanged for it.
pub data StsBy (s : Services) (now : ℕ) (tp : TokenProvider) : List Request → Text → Type 0 where
  sts_kept : (token : Text) → Kept now tp.sts_token token → StsBy s now tp [] token
  sts_asked :
      (requests : List Request) (azure token : Text)
      → Stale now tp.sts_token
      → AzureBy s now tp requests azure
      → Gives (s.sts azure) s.decode_sts token
      → StsBy s now tp (requests ++ (to_sts azure ∷ [])) token

-- To the access token: it was kept, or the account is impersonated with the STS token.
pub data IamBy (s : Services) (now : ℕ) (tp : TokenProvider) : List Request → Text → Type 0 where
  iam_kept : (token : Text) → Kept now tp.iam_token token → IamBy s now tp [] token
  iam_asked :
      (requests : List Request) (sts token : Text)
      → Stale now tp.iam_token
      → StsBy s now tp requests sts
      → Gives (s.iam sts) s.decode_iam token
      → IamBy s now tp (requests ++ (to_iam sts ∷ [])) token

fresh-Kept :
    (now : ℕ) (kept : Option CachedToken) (token : Text)
    → fresh now kept ≡ some token
    → Kept now kept token
unfolding fresh
fresh-Kept now none token h = absurd (cc)
fresh-Kept now (some cached) token h = elim (Bool-cases (ltb (now + 60) cached.expires_at)) [
  | inl live ↦ (cached, refl, cc (rw (live) at h), ground arith)
  | inr over ↦ absurd (cc (rw (over) at h))
]

fresh-Stale : (now : ℕ) (kept : Option CachedToken) → fresh now kept ≡ none → Stale now kept
unfolding fresh
fresh-Stale now none h = λ cached e. absurd (cc)
fresh-Stale now (some kept) h = λ cached e. elim (Bool-cases (ltb (now + 60) kept.expires_at)) [
  | inl live ↦ absurd (cc (rw (live) at h))
  | inr over ↦
      let same : kept ≡ cached = cc in subst (λ c. c.expires_at ≤ now + 60) same (ground arith)
]

ok-same : {a b : CachedToken} → Path (Result FetchError CachedToken) (ok a) (ok b) → a ≡ b
ok-same e = cc

-- A token that was read is that of an answer with status 200.
module _ {X : Type 0} (decode : Text → Option (Text × X)) (expiry : X → Option ℕ) where
  read_token-ok :
      (body : Text) (cached : CachedToken)
      → read_token decode expiry body ≡ ok cached
      → (x : X) × (decode body ≡ some (cached.token, x)) × (cached.token ≢ [])
  unfolding read_token
  read_token-ok body cached h = elim (Option-cases (decode body)) [
    | inl bad ↦ absurd (cc (rw (read_token, bad) at h))
    | inr ((token, x), good) ↦ elim (Bool-cases (token == [])) [
      | inl blank ↦ absurd (cc (rw (read_token, good, blank) at h))
      | inr filled ↦ elim (Option-cases (expiry x)) [
        | inl never ↦ absurd (cc (rw (read_token, good, filled, never) at h))
        | inr (time, known) ↦
            let same = ok-same (rw (read_token, good, filled, known) at h) in
            let named : token ≡ cached.token = ap (λ c. c.token) same in
            (
              x,
              good ∙ ap (λ t. some (t, x)) named,
              λ empty.
                  let blank = named ∙ empty in
                  let yes : (token == []) ≡ true = rw blank (beq_refl (codes "")) in
                  absurd (cc (yes, filled)),
            )
      ]
    ]
  ]

  ok_body-Gives :
      (reply : Reply) (cached : CachedToken)
      → (ok_body reply >>= read_token decode expiry) ≡ ok cached
      → Gives reply decode cached.token
  unfolding ok_body
  ok_body-Gives lost cached h = absurd (cc)
  ok_body-Gives (answered status body) cached h = elim (Bool-cases (status == 200)) [
    | inr other ↦ absurd (cc (rw (other) at h))
    | inl fine ↦
        let (x, decoded, filled) = read_token-ok body cached (rw (fine) at h) in
        (body, x, ap (λ n. answered n body) (beq_eq status 200 fine), decoded, filled)
  ]

kept_token : (a b : Text) → Path (Result FetchError Text) (ok a) (ok b) → a ≡ b
kept_token a b e = cc

stored-ok :
    (keep : CachedToken → TokenProvider) (r : Result FetchError CachedToken) (tp : TokenProvider)
    (requests : List Request) (token : Text)
    → (stored keep r tp requests).result ≡ ok token
    → (cached : CachedToken) × (r ≡ ok cached)
      × (cached.token ≡ token)
      × ((stored keep r tp requests).requests ≡ requests)
      × ((stored keep r tp requests).provider ≡ keep cached)
unfolding stored
stored-ok keep (err e) tp requests token h = absurd (cc)
stored-ok keep (ok cached) tp requests token h =
    (cached, refl, kept_token cached.token token h, refl, refl)

get_azure_token-AzureBy :
    (s : Services) (now : ℕ) (tp : TokenProvider) (token : Text)
    → (get_azure_token s now tp).result ≡ ok token
    → AzureBy s now tp (get_azure_token s now tp).requests token
unfolding get_azure_token fetch_azure_token
get_azure_token-AzureBy s now tp token h = elim (Option-cases (fresh now tp.azure_token)) [
  | inl stale ↦
      let keep : CachedToken → TokenProvider = λ cached. record tp { azure_token = some cached } in
      let (cached, got, same, sent, left) =
        stored-ok keep (fetch_azure_token s) tp (to_azure ∷ []) token
          (rw (get_azure_token, stale) at h) in
      rw (get_azure_token, stale, sent)
        (subst (AzureBy s now tp (to_azure ∷ [])) same (
          azure_asked cached.token (fresh-Stale now tp.azure_token stale)
            (ok_body-Gives s.decode_azure unix_time s.azure cached got)))
  | inr (known, e) ↦
      let same = kept_token known token (rw (get_azure_token, e) at h) in
      rw (get_azure_token, e)
        (azure_kept token (fresh-Kept now tp.azure_token token (e ∙ ap some same)))
]

exchange_sts-StsBy :
    (s : Services) (now : ℕ) (tp : TokenProvider) (azure : Fetched) (token : Text)
    → Stale now tp.sts_token
    → ((known : Text) → azure.result ≡ ok known → AzureBy s now tp azure.requests known)
    → (exchange_sts s now azure).result ≡ ok token
    → StsBy s now tp (exchange_sts s now azure).requests token
unfolding exchange_sts fetch_sts_token
exchange_sts-StsBy s now tp azure token stale before h = elim (Result-cases azure.result) [
  | inl (e, failed) ↦ absurd (cc (rw (exchange_sts, failed) at h))
  | inr (known, there) ↦
      let keep : CachedToken → TokenProvider =
        λ cached. record azure.provider { sts_token = some cached } in
      let requests = azure.requests ++ (to_sts known ∷ []) in
      let (cached, got, same, sent, left) =
        stored-ok keep (fetch_sts_token s now known) azure.provider requests token
          (rw (exchange_sts, there) at h) in
      rw (exchange_sts, there, sent)
        (subst (StsBy s now tp requests) same (
          sts_asked azure.requests known cached.token stale (before known there)
            (ok_body-Gives s.decode_sts (from_now now) (s.sts known) cached got)))
]

get_sts_token-StsBy :
    (s : Services) (now : ℕ) (tp : TokenProvider) (token : Text)
    → (get_sts_token s now tp).result ≡ ok token
    → StsBy s now tp (get_sts_token s now tp).requests token
unfolding get_sts_token
get_sts_token-StsBy s now tp token h = elim (Option-cases (fresh now tp.sts_token)) [
  | inl stale ↦
      rw (get_sts_token, stale)
        (exchange_sts-StsBy s now tp (get_azure_token s now tp) token
          (fresh-Stale now tp.sts_token stale) (get_azure_token-AzureBy s now tp)
          (rw (get_sts_token, stale) at h))
  | inr (known, e) ↦
      let same = kept_token known token (rw (get_sts_token, e) at h) in
      rw (get_sts_token, e) (sts_kept token (fresh-Kept now tp.sts_token token (e ∙ ap some same)))
]

impersonate-IamBy :
    (s : Services) (now : ℕ) (tp : TokenProvider) (sts : Fetched) (token : Text)
    → Stale now tp.iam_token
    → ((known : Text) → sts.result ≡ ok known → StsBy s now tp sts.requests known)
    → (impersonate s sts).result ≡ ok token
    → IamBy s now tp (impersonate s sts).requests token
unfolding impersonate fetch_iam_token
impersonate-IamBy s now tp sts token stale before h = elim (Result-cases sts.result) [
  | inl (e, failed) ↦ absurd (cc (rw (impersonate, failed) at h))
  | inr (known, there) ↦
      let keep : CachedToken → TokenProvider =
        λ cached. record sts.provider { iam_token = some cached } in
      let requests = sts.requests ++ (to_iam known ∷ []) in
      let (cached, got, same, sent, left) =
        stored-ok keep (fetch_iam_token s known) sts.provider requests token
          (rw (impersonate, there) at h) in
      rw (impersonate, there, sent)
        (subst (IamBy s now tp requests) same (
          iam_asked sts.requests known cached.token stale (before known there)
            (ok_body-Gives s.decode_iam s.parse_time (s.iam known) cached got)))
]

-- A call that returns an access token has it from one of these ways, and makes exactly the requests of
-- that way, in this order, each with the token of the one before. The access token was kept with more than
-- 60 seconds left; or none was, and it is in an answer of status 200 to a request with the STS token,
-- which was kept with more than 60 seconds left, or is, none being so, in an answer of status 200 to a
-- request with the Azure token, for which the same holds again. No asked token is empty.
pub get_iam_token-IamBy :
    (s : Services) (now : ℕ) (tp : TokenProvider) (token : Text)
    → (get_iam_token s now tp).result ≡ ok token
    → IamBy s now tp (get_iam_token s now tp).requests token
unfolding get_iam_token
get_iam_token-IamBy s now tp token h = elim (Option-cases (fresh now tp.iam_token)) [
  | inl stale ↦
      rw (get_iam_token, stale)
        (impersonate-IamBy s now tp (get_sts_token s now tp) token
          (fresh-Stale now tp.iam_token stale) (get_sts_token-StsBy s now tp)
          (rw (get_iam_token, stale) at h))
  | inr (known, e) ↦
      let same = kept_token known token (rw (get_iam_token, e) at h) in
      rw (get_iam_token, e) (iam_kept token (fresh-Kept now tp.iam_token token (e ∙ ap some same)))
]
