-- ===== src/Secrets.antt =====
-- proxy/internal/secrets: the three tokens of the way from Azure to Google, which tokens.go keeps and
-- renews, and the path of a secret in client.go. What the HTTP client returns and how a body is decoded
-- are arguments. Times are seconds; one before 1970 is zero, which is over as well.
pub mod Chain
pub mod Client
pub mod Path
pub mod Examples
use rdp_warp_portal.Prelude.{
  ℕ, suc, ◌+◌, ◌-◌, ◌*◌, ◌/◌, ◌%◌, ◌^◌, Bool, true, false, not, Option, none, some, List, [], ◌∷◌,
  ◌++◌, nat_eq, text_eq, Text, codes, ltb, if◌then◌else◌, ◌==◌, ℤ, pos, negsuc, Result, ok, err,
  ◌>>=◌,
}
use rdp_warp_portal.Strings.{atoi, has_prefix, has_suffix, contains}

pub record CachedToken : Type 0 where
  pub token : Text
  pub expires_at : ℕ

-- The tokens that `TokenProvider` keeps.
pub record TokenProvider : Type 0 where
  pub azure_token : Option CachedToken
  pub sts_token : Option CachedToken
  pub iam_token : Option CachedToken

pub data FetchError : Type 0 where
  request_failed bad_response empty_token bad_expiry : FetchError
  bad_status : ℕ → FetchError

-- What `httpClient.Do` and the reading of the body come to.
pub data Reply : Type 0 where
  lost : Reply
  answered : ℕ → Text → Reply

abbrev pub token_refresh_buffer : ℕ
token_refresh_buffer = 60

-- The token that is kept, if it is not about to expire.
unfoldable pub fresh : ℕ → Option CachedToken → Option Text
fresh now none = none
fresh now (some cached) =
    if ltb (now + token_refresh_buffer) cached.expires_at then some cached.token else none

-- The body of an answer with status 200.
unfoldable pub ok_body : Reply → Result FetchError Text
ok_body lost = err request_failed
ok_body (answered status body) = if status == 200 then ok body else err (bad_status status)

-- A response with its token and its expiry, which `expiry` reads.
unfoldable pub read_token :
    {X : Type 0}
    → (Text → Option (Text × X))
    → (X → Option ℕ)
    → Text
    → Result FetchError CachedToken
read_token decode expiry body = elim (decode body) [
  | none ↦ err bad_response
  | some (token, x) ↦ if token == [] then err empty_token else elim (expiry x) [
    | none ↦ err bad_expiry
    | some time ↦ ok (record { token = token; expires_at = time })
  ]
]

unfoldable pub seconds_of : ℤ → ℕ
seconds_of (pos n) = n
seconds_of (negsuc n) = 0

-- `ParseInt` of `expires_on`.
unfoldable pub unix_time : Text → Option ℕ
unfolding atoi seconds_of
unix_time value = elim (atoi value) [ none ↦ none | some n ↦ some (seconds_of n) ]

-- `time.Duration(n) * time.Second`: the nanoseconds as the 64-bit word that they wrap to.
unfoldable pub nanoseconds : ℤ → ℕ
nanoseconds (pos n) = n * 1000000000 % 2 ^ 64
nanoseconds (negsuc n) = (2 ^ 64 - suc n * 1000000000 % 2 ^ 64) % 2 ^ 64

-- `expires_in` seconds from now on; a word from 2^63 on is negative.
unfoldable pub from_now : ℕ → ℤ → Option ℕ
unfolding nanoseconds
from_now now n =
    let d = nanoseconds n in
    some
      (if ltb d (2 ^ 63) then now + d / 1000000000 else now - (2 ^ 64 - d + 999999999) / 1000000000)

-- How the three services answer and their bodies are decoded.
pub record Services : Type 0 where
  pub azure : Reply
  pub sts : Text → Reply
  pub iam : Text → Reply
  pub decode_azure : Text → Option (Text × Text)
  pub decode_sts : Text → Option (Text × ℤ)
  pub decode_iam : Text → Option (Text × Text)
  pub parse_time : Text → Option ℕ

unfoldable pub fetch_azure_token : Services → Result FetchError CachedToken
unfolding ok_body read_token unix_time
fetch_azure_token s = ok_body s.azure >>= read_token s.decode_azure unix_time

unfoldable pub fetch_sts_token : Services → ℕ → Text → Result FetchError CachedToken
unfolding ok_body read_token from_now
fetch_sts_token s now azure_token =
    ok_body (s.sts azure_token) >>= read_token s.decode_sts (from_now now)

unfoldable pub fetch_iam_token : Services → Text → Result FetchError CachedToken
unfolding ok_body read_token
fetch_iam_token s sts_token = ok_body (s.iam sts_token) >>= read_token s.decode_iam s.parse_time

-- A request to a service, with the token that it carries.
pub data Request : Type 0 where
  to_azure : Request
  to_sts to_iam : Text → Request

-- What a call returns, the tokens it leaves, and the requests that it makes.
pub record Fetched : Type 0 where
  pub result : Result FetchError Text
  pub provider : TokenProvider
  pub requests : List Request

-- A fetch that is stored by `keep` if it succeeds.
unfoldable pub stored :
    (CachedToken → TokenProvider)
    → Result FetchError CachedToken
    → TokenProvider
    → List Request
    → Fetched
stored keep (err e) tp requests = record { result = err e; provider = tp; requests = requests }
stored keep (ok cached) tp requests = record {
  result = ok cached.token;
  provider = keep cached;
  requests = requests;
}

-- A call finds its token fresh, or asks for it. The clock does not move during a call, and no other call
-- runs beside it, so that the second look under the lock finds what the first one found.
unfoldable pub get_azure_token : Services → ℕ → TokenProvider → Fetched
unfolding fresh fetch_azure_token stored
get_azure_token s now tp = elim (fresh now tp.azure_token) [
  | some token ↦ record { result = ok token; provider = tp; requests = [] }
  | none ↦
      stored (λ cached. record tp { azure_token = some cached }) (fetch_azure_token s) tp
        (to_azure ∷ [])
]

-- What follows once the Azure token is there.
unfoldable pub exchange_sts : Services → ℕ → Fetched → Fetched
unfolding fetch_sts_token stored
exchange_sts s now azure = elim azure.result [
  | err e ↦ azure
  | ok token ↦
      stored (λ cached. record azure.provider { sts_token = some cached })
        (fetch_sts_token s now token) azure.provider (azure.requests ++ (to_sts token ∷ []))
]

unfoldable pub get_sts_token : Services → ℕ → TokenProvider → Fetched
unfolding fresh get_azure_token exchange_sts
get_sts_token s now tp = elim (fresh now tp.sts_token) [
  | some token ↦ record { result = ok token; provider = tp; requests = [] }
  | none ↦ exchange_sts s now (get_azure_token s now tp)
]

unfoldable pub impersonate : Services → Fetched → Fetched
unfolding fetch_iam_token stored
impersonate s sts = elim sts.result [
  | err e ↦ sts
  | ok token ↦
      stored (λ cached. record sts.provider { iam_token = some cached }) (fetch_iam_token s token)
        sts.provider (sts.requests ++ (to_iam token ∷ []))
]

-- `GetGoogleAccessToken`.
unfoldable pub get_iam_token : Services → ℕ → TokenProvider → Fetched
unfolding fresh get_sts_token impersonate
get_iam_token s now tp = elim (fresh now tp.iam_token) [
  | some token ↦ record { result = ok token; provider = tp; requests = [] }
  | none ↦ impersonate s (get_sts_token s now tp)
]
