-- ===== src/Access/Examples.antt =====
-- The theorems on access at a concrete user, host and key. A key is a number here.
use rdp_warp_portal.Prelude.{
  ℕ, ◌≡◌, ◌≢◌, ◌↔◌, ◌⊎◌, refl, true, false, Option, none, some, [], ◌∷◌, Text, codes, text_beq,
  text_eq, nat_eq, ok, to_option, if◌then◌else◌, ◌==◌, beq_eq, arith,
}
use rdp_warp_portal.Prelude.Assoc.{lookup, insert}
use rdp_warp_portal.Access.Handlers.Granting.{Carries, Opens, post_session-created}
use rdp_warp_portal.Access.Handlers.Revoked.{post_revoke-ok}
use rdp_warp_portal.Access.Handlers.{post_session, post_revoke, status_created, forbidden}
use rdp_warp_portal.Access.Router.Entry.{HasBearer, IsOpening, serve_http-serves}
use rdp_warp_portal.Access.Router.{HttpRequest, Router, serve_http, serves}
use rdp_warp_portal.Access.Store.Grants.{
  grants, revokes, serve_all, last_word, find_grant-serve_all,
}
use rdp_warp_portal.Access.Store.{
  Grant, MemoryStore, KeyCodec, keys_of, find_grant, grant_key, has_access, normalize_email,
  get_public_keys,
}
use rdp_warp_portal.Access.Verifier.{Jwt, verify, Vouched, verify_sound, try_keys}
use rdp_warp_portal.Session.ConfigWriter.{write_config, delete_config}
use rdp_warp_portal.Session.Manager.Create.{create_session}
use rdp_warp_portal.Session.Manager.Ending.{Keyed}
use rdp_warp_portal.Session.Manager.Examples.{manager, call, session}
use rdp_warp_portal.Session.Manager.Queries.{list_sessions, keep_selected, matches_user}
use rdp_warp_portal.Session.Manager.{Manager, Session, is_ending, terminating, check_admission}
use rdp_warp_portal.Session.PortPool.{allocate, held}
use rdp_warp_portal.Session.Token.Encoding.{encode, digit}
use rdp_warp_portal.Session.Token.{generate_token, new_token}
use rdp_warp_portal.Strings.{has_prefix, to_lower, index, contains, equal_fold}

abbrev grant : Grant
grant = record {
  host = record {
    hostname = codes "dc-01";
    ip = codes "10.0.0.5";
    port = 3389;
    domain = codes "CORP";
  };
  user = record { email = codes "Bob@p0.dev"; username = codes "bob"; secret = codes "s1" };
}

abbrev empty : MemoryStore ℕ
empty = record { grants = []; public_keys = [] }

find_grant-serve_all_example :
    let calls = grants grant ∷ revokes (codes "BOB@p0.dev") (codes "DC-01") ∷ [] in
    to_option (find_grant (codes "bob@p0.dev") (codes "dc-01") (serve_all empty calls))
    ≡ last_word (codes "bob@p0.dev") (codes "dc-01") none calls
unfolding find_grant lookup
find_grant-serve_all_example =
    find_grant-serve_all empty (grants grant ∷ revokes (codes "BOB@p0.dev") (codes "DC-01") ∷ [])
      (codes "bob@p0.dev") (codes "dc-01")

-- The revocation above has the last word, though it is written in other letters.
revoked :
    last_word
      (codes "bob@p0.dev")
      (codes "dc-01")
      none
      (grants grant ∷ revokes (codes "BOB@p0.dev") (codes "DC-01") ∷ [])
    ≡ none
unfolding last_word text_beq
revoked = refl

abbrev codec : KeyCodec ℕ
codec = record { fingerprint_of = λ k. some (k ∷ []); pem_of = λ k. some (k ∷ k ∷ []) }

-- A token is its subject, and key 7 verifies every token.
abbrev jwt : Jwt ℕ
jwt = record {
  subject_of = λ token. some token;
  checks = λ k token. if k == 7 then some token else none;
}

jwt_agrees :
    (k : ℕ) (token who : Text) → jwt.checks k token ≡ some who → jwt.subject_of token ≡ some who
jwt_agrees k token who h = ground arith

abbrev with_key : MemoryStore ℕ
with_key = record {
  grants = [];
  public_keys =
      (codes "bob", record { key = 7; raw = []; fingerprint = 7 ∷ []; email = codes "bob" } ∷ [])
      ∷ [];
}

verify_sound_example : (codes "bob" ≢ []) × Vouched jwt with_key (codes "bob") (codes "bob")
unfolding verify get_public_keys normalize_email to_lower lookup text_beq try_keys keys_of
verify_sound_example = verify_sound jwt jwt_agrees with_key (codes "bob") (codes "bob") refl

abbrev router : Router
router = record { api_key = codes "k"; verifier = some (verify jwt with_key) }

abbrev opening : HttpRequest
opening = record {
  method = codes "POST";
  path = codes "/api/sessions";
  authorization = codes "Bearer bob";
}

served : serve_http router opening ≡ serves (some (codes "bob"))
unfolding serve_http verify get_public_keys normalize_email to_lower lookup text_beq try_keys
    keys_of index
served = refl

serve_http-serves_example :
    (IsOpening opening
      × ((serve_http router opening ≡ serves (some (codes "bob"))) ↔ (
          (token : Text) × HasBearer opening.authorization token
          × (verify jwt with_key token ≡ ok (codes "bob")))))
    ⊎ (¬ IsOpening opening
        × ((serve_http router opening ≡ serves none)
            ↔ HasBearer opening.authorization router.api_key))
unfolding has_prefix text_beq
serve_http-serves_example =
    serve_http-serves router opening (verify jwt with_key) (codes "bob") refl (λ e. cc) refl refl

abbrev granted : MemoryStore ℕ
granted = record {
  grants =
      (
        record { email = codes "bob@p0.dev"; hostname = codes "dc-01" },
        record grant { user = record grant.user { email = codes "bob@p0.dev" } },
      )
      ∷ [];
  public_keys = [];
}

abbrev resolver : Option (Text → Option Text)
resolver = some (λ name. some (codes "pw"))

abbrev opened : Session
opened = record session { user_id = codes "bob@p0.dev"; username = codes "bob" }

opens :
    post_session resolver call
      (some (codes "DC-01"))
      (codes "bob@p0.dev")
      (codes "10.0.0.7")
      granted
      manager
    ≡ (
      (post_session resolver call
          (some (codes "DC-01"))
          (codes "bob@p0.dev")
          (codes "10.0.0.7")
          granted
          manager).0,
      (status_created, some opened),
    )
unfolding post_session find_grant grant_key to_lower normalize_email lookup text_beq create_session
    check_admission allocate held generate_token new_token encode write_config delete_config insert
opens = refl

post_session-created_example :
    let after =
      (post_session resolver call
        (some (codes "DC-01"))
        (codes "bob@p0.dev")
        (codes "10.0.0.7")
        granted
        manager).0 in
    (g : Grant) × (find_grant (codes "bob@p0.dev") (codes "DC-01") granted ≡ ok g)
    × Carries g (codes "bob@p0.dev") (codes "10.0.0.7") opened
    × Opens resolver call (codes "bob@p0.dev") (codes "10.0.0.7") g manager after opened
post_session-created_example =
    post_session-created resolver call (codes "DC-01") (codes "bob@p0.dev") (codes "10.0.0.7")
      granted manager
      (post_session resolver call (some (codes "DC-01")) (codes "bob@p0.dev") (codes "10.0.0.7")
        granted manager).0
      opened opens

-- A session of the user that another call is ending already.
abbrev leaving : Session
leaving = record opened { state = terminating }

abbrev ending : Manager
ending = record manager { sessions = (leaving.id, leaving) ∷ [] }

ending-Keyed : Keyed ending
unfolding lookup
ending-Keyed id s h = ground (arith, beq_eq leaving.id id)

post_revoke-ok_example :
    let store = (post_revoke (some (codes "bob@p0.dev", codes "dc-01")) (granted, ending)).0.0 in
    let after = (post_revoke (some (codes "bob@p0.dev", codes "dc-01")) (granted, ending)).0.1 in
    (post_session resolver call
        (some (codes "dc-01"))
        (codes "bob@p0.dev")
        (codes "10.0.0.7")
        store
        after
      ≡ (after, (forbidden, none)))
    × ((lookup leaving.id after.sessions ≡ none)
        ⊎ (u : Session) × (lookup leaving.id after.sessions ≡ some u)
          × ((matches_user u.user_id (codes "bob@p0.dev") ≡ false)
              ⊎ ((lookup leaving.id ending.sessions ≡ some u) × (is_ending u.state ≡ true))))
unfolding post_revoke has_access grant_key to_lower normalize_email lookup text_beq contains index
    is_ending list_sessions keep_selected matches_user equal_fold encode digit
post_revoke-ok_example =
    post_revoke-ok resolver call (codes "bob@p0.dev") (codes "dc-01") (codes "10.0.0.7") leaving.id
      granted (post_revoke (some (codes "bob@p0.dev", codes "dc-01")) (granted, ending)).0.0 ending
      (post_revoke (some (codes "bob@p0.dev", codes "dc-01")) (granted, ending)).0.1 ending-Keyed
      refl
