-- ===== src/Access/Store.antt =====
-- proxy/internal/acl/store.go: who may reach which host, and the public keys of each user. Each
-- method is one step under the store's mutex. The key type and the two functions that write a key
-- out, which the Go library has, are parameters.
pub mod Grants
pub mod Keys
use rdp_warp_portal.Prelude.{
  ℕ, ◌+◌, ◌≡◌, ◌↔◌, Bool, true, false, ◌&&◌, Option, none, some, List, [], ◌∷◌, ◌++◌, map,
  if◌then◌else◌, ◌==◌, text_eq, Text, Eq, text_beq, text_beq_iff, arith, Result, ok, err,
}
use rdp_warp_portal.Prelude.Assoc.{GoMap, lookup, insert, delete}
use rdp_warp_portal.Strings.{to_lower}

pub record HostConfig : Type 0 where
  pub hostname : Text
  pub ip : Text
  pub port : ℕ
  pub domain : Text

pub record UserConfig : Type 0 where
  pub email : Text
  pub username : Text
  pub secret : Text

pub record Grant : Type 0 where
  pub host : HostConfig
  pub user : UserConfig

pub record GrantKey : Type 0 where
  pub email : Text
  pub hostname : Text

abbrev pub grant_key_beq : GrantKey → GrantKey → Bool
grant_key_beq a b = text_beq a.email b.email && text_beq a.hostname b.hostname

pub grant_key_beq_iff : (a b : GrantKey) → (grant_key_beq a b ≡ true) ↔ (a ≡ b)
grant_key_beq_iff a b =
    ground (arith, text_beq_iff a.email b.email, text_beq_iff a.hostname b.hostname)

instance abbrev pub grant_key_eq : Eq GrantKey
grant_key_eq = record { equals = grant_key_beq; equals_iff = grant_key_beq_iff }

pub data AclError : Type 0 where
  key_not_found grant_not_found key_not_written : AclError

pub record PublicKeyEntry (K : Type 0) : Type 0 where
  pub key : K
  pub raw : Text
  pub fingerprint : Text
  pub email : Text

pub record MemoryStore (K : Type 0) : Type 0 where
  pub grants : GoMap GrantKey Grant
  pub public_keys : GoMap Text (List (PublicKeyEntry K))

unfoldable pub normalize_email : Text → Text
unfolding to_lower
normalize_email = to_lower

unfoldable pub grant_key : Text → Text → GrantKey
unfolding normalize_email to_lower
grant_key email hostname = record { email = normalize_email email; hostname = to_lower hostname }

-- `crypto.PublicKey` as the store uses it: what writes a key as a fingerprint, and as PEM.
pub record KeyCodec (K : Type 0) : Type 0 where
  pub fingerprint_of : K → Option Text
  pub pem_of : K → Option Text

unfoldable pub find_entry :
    {K : Type 0} → Text → List (PublicKeyEntry K) → Option (PublicKeyEntry K)
find_entry fp [] = none
find_entry fp (e ∷ es) = if e.fingerprint == fp then some e else find_entry fp es

unfoldable pub remove_entry :
    {K : Type 0} → Text → List (PublicKeyEntry K) → List (PublicKeyEntry K)
remove_entry fp [] = []
remove_entry fp (e ∷ es) = if e.fingerprint == fp then es else e ∷ remove_entry fp es

module _ {K : Type 0} where
  pub new_memory_store : MemoryStore K
  new_memory_store = record { grants = []; public_keys = [] }

  unfoldable pub grant_access : Grant → MemoryStore K → MemoryStore K
  unfolding grant_key normalize_email
  grant_access g s =
      let stored = record g { user = record g.user { email = normalize_email g.user.email } } in
      record s { grants = insert (grant_key g.user.email g.host.hostname) stored s.grants }

  unfoldable pub revoke_access : Text → Text → MemoryStore K → MemoryStore K
  unfolding grant_key
  revoke_access email hostname s = record s { grants = delete (grant_key email hostname) s.grants }

  unfoldable pub has_access : Text → Text → MemoryStore K → Bool
  unfolding grant_key
  has_access email hostname s = elim (lookup (grant_key email hostname) s.grants) [
    | none ↦ false
    | some g ↦ true
  ]

  unfoldable pub find_grant : Text → Text → MemoryStore K → Result AclError Grant
  unfolding grant_key
  find_grant email hostname s = elim (lookup (grant_key email hostname) s.grants) [
    | none ↦ err grant_not_found
    | some g ↦ ok g
  ]

  pub list_all : MemoryStore K → List Grant
  list_all s = map (λ e. e.1) s.grants

  -- `publicKeys[email]`, where a missing key reads as no entries.
  unfoldable pub keys_of : Text → MemoryStore K → List (PublicKeyEntry K)
  keys_of email s = elim (lookup email s.public_keys) [ none ↦ [] | some es ↦ es ]

  -- `AddPublicKey` from the check for a duplicate on.
  unfoldable pub add_entry : K → Text → Text → Text → MemoryStore K → MemoryStore K
  unfolding keys_of find_entry
  add_entry key raw fp email s =
      let entries = keys_of email s in
      let entry : PublicKeyEntry K = record {
        key = key;
        raw = raw;
        fingerprint = fp;
        email = email;
      } in
      elim (find_entry fp entries) [
        | some e ↦ s
        | none ↦ record s { public_keys = insert email (entries ++ (entry ∷ [])) s.public_keys }
      ]

  unfoldable pub add_public_key :
      KeyCodec K → Text → K → MemoryStore K → MemoryStore K × Result AclError Text
  unfolding add_entry normalize_email
  add_public_key codec email key s = elim (codec.fingerprint_of key) [
    | none ↦ (s, err key_not_written)
    | some fp ↦ elim (codec.pem_of key) [
      | none ↦ (s, err key_not_written)
      | some raw ↦ (add_entry key raw fp (normalize_email email) s, ok fp)
    ]
  ]

  -- What is left under an email, or the email goes with its last key.
  unfoldable pub put_entries : Text → List (PublicKeyEntry K) → MemoryStore K → MemoryStore K
  put_entries email [] s = record s { public_keys = delete email s.public_keys }
  put_entries email (e ∷ es) s = record s { public_keys = insert email (e ∷ es) s.public_keys }

  unfoldable pub remove_public_key : Text → Text → MemoryStore K → MemoryStore K × Option AclError
  unfolding normalize_email keys_of find_entry remove_entry put_entries
  remove_public_key email fp s =
      let entries = keys_of (normalize_email email) s in
      elim (find_entry fp entries) [
        | none ↦ (s, some key_not_found)
        | some e ↦ (put_entries (normalize_email email) (remove_entry fp entries) s, none)
      ]

  unfoldable pub get_public_keys : Text → MemoryStore K → Result AclError (List K)
  unfolding normalize_email keys_of
  get_public_keys email s = elim (keys_of (normalize_email email) s) [
    | [] ↦ err key_not_found
    | e ∷ es ↦ ok (e.key ∷ map (λ x. x.key) es)
  ]

  gather : GoMap Text (List (PublicKeyEntry K)) → List (PublicKeyEntry K)
  gather [] = []
  gather ((email, es) ∷ rest) = es ++ gather rest

  pub list_public_keys : MemoryStore K → List (PublicKeyEntry K)
  unfolding gather
  list_public_keys s = gather s.public_keys
