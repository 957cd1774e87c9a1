-- ===== src/Secrets/Client.antt =====
-- proxy/internal/secrets/client.go: the path of a secret, and what is read of the answer.
use rdp_warp_portal.Prelude.{
  not, Option, none, some, [], ◌++◌, nat_eq, text_eq, Text, codes, if◌then◌else◌, ◌==◌, Result, ok,
  err,
}
use rdp_warp_portal.Strings.{has_prefix, has_suffix, contains}
use rdp_warp_portal.Secrets.{FetchError, Reply, ok_body, bad_response}

pub data SecretError : Type 0 where
  no_token : FetchError → SecretError
  no_project undecodable : SecretError
  no_answer : FetchError → SecretError

-- The path of a secret's name: its project, its version and the operation are added if they are missing.
unfoldable pub secret_path : Text → Text → Option Text
unfolding has_prefix contains has_suffix
secret_path project_id name =
    let full =
      if has_prefix name (codes "projects/")
      then name
      else codes "projects/" ++ project_id ++ codes "/secrets/" ++ name in
    let versioned =
      if contains full (codes "/versions/") then full else full ++ codes "/versions/latest" in
    let path =
      if has_suffix versioned (codes ":access") then versioned else versioned ++ codes ":access" in
    if not (has_prefix name (codes "projects/"))
    then if project_id == [] then none else some path
    else some path

-- The payload by the standard alphabet, or else by the one for addresses.
unfoldable pub decode_payload :
    (Text → Option Text) → (Text → Option Text) → Text → Result SecretError Text
decode_payload standard url_safe payload = elim (standard payload) [
  | some value ↦ ok value
  | none ↦ elim (url_safe payload) [ none ↦ err undecodable | some value ↦ ok value ]
]

-- `AccessSecret`, from a token on: what the Secret Manager answers to the path and the token.
unfoldable pub access_secret :
    Text
    → Text
    → Result FetchError Text
    → (Text → Text → Reply)
    → (Text → Option Text)
    → (Text → Option Text)
    → (Text → Option Text)
    → Result SecretError Text
unfolding secret_path ok_body decode_payload
access_secret project_id name (err e) manager decode standard url_safe = err (no_token e)
access_secret project_id name (ok token) manager decode standard url_safe =
    elim (secret_path project_id name) [
      | none ↦ err no_project
      | some path ↦ elim (ok_body (manager path token)) [
        | err e ↦ err (no_answer e)
        | ok body ↦ elim (decode body) [
          | none ↦ err (no_answer bad_response)
          | some payload ↦ decode_payload standard url_safe payload
        ]
      ]
    ]
