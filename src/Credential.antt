-- ===== src/Credential.antt =====
-- proxy/internal/credential/gsm.go: the machines and the users of the configuration file, and where the
-- password of a user comes from. The decoded file is an argument; iteration over a Go map is that over
-- the list of its entries.
pub mod Users
pub mod Examples
use rdp_warp_portal.Prelude.{
  ℕ, zero, suc, Bool, true, false, Option, none, some, List, [], ◌∷◌, nat_eq, text_eq, Text, codes,
  length, map, if◌then◌else◌, ◌==◌, Result, ok, err,
}
use rdp_warp_portal.Prelude.Assoc.{GoMap, lookup, insert, delete}
use rdp_warp_portal.Session.ConfigWriter.{TargetCredentials}
use rdp_warp_portal.Strings.{to_lower, equal_fold}

pub record TargetInfo : Type 0 where
  pub id : Text
  pub hostname : Text
  pub ip : Text
  pub domain : Text

pub record TargetUser : Type 0 where
  pub username : Text
  pub secret : Text

pub record GsmTarget : Type 0 where
  pub info : TargetInfo
  pub port : ℕ
  pub domain : Text
  pub users : List TargetUser

pub record GsmConfigTarget : Type 0 where
  pub hostname : Text
  pub ip : Text
  pub port : ℕ
  pub domain : Text

pub record GsmConfigUser : Type 0 where
  pub username : Text
  pub secret : Text

pub record GsmConfigFile : Type 0 where
  pub targets : GoMap Text GsmConfigTarget
  pub users : GoMap Text GsmConfigUser

pub data CredentialError : Type 0 where
  cancelled target_not_found user_not_found no_secret resolver_not_configured : CredentialError
  resolver_failed : CredentialError

pub record TargetDestination : Type 0 where
  pub id : Text
  pub hostname : Text
  pub ip : Text
  pub users : List TargetUser

-- `resolveSecret`, if there is one.
pub record GsmProvider : Type 0 where
  pub targets : GoMap Text GsmTarget
  pub users : GoMap Text GsmConfigUser
  pub resolve_secret : Option (Text → Option Text)

-- Any user can be used on any target.
unfoldable pub target_users : GoMap Text GsmConfigUser → List TargetUser
target_users [] = []
target_users ((email, u) ∷ users) =
    record { username = u.username; secret = u.secret } ∷ target_users users

unfoldable pub build_target : GoMap Text GsmConfigUser → Text → GsmConfigTarget → GsmTarget
unfolding target_users
build_target users id t = record {
  info = record { id = id; hostname = t.hostname; ip = t.ip; domain = t.domain };
  port = if t.port == 0 then 3389 else t.port;
  domain = t.domain;
  users = target_users users;
}

unfoldable pub build_targets :
    GoMap Text GsmConfigUser → GoMap Text GsmConfigTarget → GoMap Text GsmTarget
unfolding build_target insert
build_targets users [] = []
build_targets users ((id, t) ∷ targets) =
    insert id (build_target users id t) (build_targets users targets)

-- The users by their address in lower case, with those that are already in the map.
unfoldable pub user_map_from :
    GoMap Text GsmConfigUser → GoMap Text GsmConfigUser → GoMap Text GsmConfigUser
unfolding insert to_lower
user_map_from found [] = found
user_map_from found ((email, u) ∷ users) = user_map_from (insert (to_lower email) u found) users

-- A file that cannot be read or decoded gives no provider.
unfoldable pub new_gsm_provider :
    Option GsmConfigFile → Option (Text → Option Text) → Option GsmProvider
unfolding build_targets user_map_from
new_gsm_provider none resolver = none
new_gsm_provider (some config) resolver = some (record {
  targets = build_targets config.users config.targets;
  users = user_map_from [] config.users;
  resolve_secret = resolver;
})

-- The first user of that name, in any case.
unfoldable pub find_user : List TargetUser → Text → Option TargetUser
unfolding equal_fold
find_user [] username = none
find_user (u ∷ users) username =
    let later = find_user users username in if equal_fold u.username username then some u else later

-- The password behind a user's secret.
unfoldable pub resolve_password :
    Option (Text → Option Text) → TargetUser → Result CredentialError Text
resolve_password resolver user = if user.secret == [] then err no_secret else elim resolver [
  | none ↦ err resolver_not_configured
  | some resolve ↦ elim (resolve user.secret) [
    | none ↦ err resolver_failed
    | some password ↦ ok password
  ]
]

unfoldable pub credentials_of :
    GsmTarget → TargetUser → Result CredentialError Text → Result CredentialError TargetCredentials
credentials_of target user (err e) = err e
credentials_of target user (ok password) = ok (record {
  hostname = [];
  ip = target.info.ip;
  port = target.port;
  username = user.username;
  password = password;
  domain = target.domain;
})

-- Whether the context is done, the target and the user.
unfoldable pub get_target_credentials :
    Bool → Text → Text → GsmProvider → Result CredentialError TargetCredentials
unfolding find_user resolve_password credentials_of lookup
get_target_credentials done target_id username p =
    if done then err cancelled else elim (lookup target_id p.targets) [
      | none ↦ err target_not_found
      | some target ↦ elim (find_user target.users username) [
        | none ↦ err user_not_found
        | some user ↦ credentials_of target user (resolve_password p.resolve_secret user)
      ]
    ]

unfoldable pub infos : GoMap Text GsmTarget → List TargetInfo
infos [] = []
infos ((id, t) ∷ targets) = t.info ∷ infos targets

unfoldable pub list_targets : Bool → GsmProvider → Result CredentialError (List TargetInfo)
unfolding infos
list_targets done p = if done then err cancelled else ok (infos p.targets)

-- A user without the secret.
unfoldable pub shown_user : TargetUser → TargetUser
shown_user u = record { username = u.username; secret = [] }

unfoldable pub destinations : GoMap Text GsmTarget → List TargetDestination
unfolding shown_user
destinations [] = []
destinations ((id, t) ∷ targets) =
    record {
      id = t.info.id;
      hostname = t.info.hostname;
      ip = t.info.ip;
      users = map shown_user t.users;
    }
    ∷ destinations targets

unfoldable pub list_destinations :
    Bool → GsmProvider → Result CredentialError (List TargetDestination)
unfolding destinations
list_destinations done p = if done then err cancelled else ok (destinations p.targets)

unfoldable pub resolve_username : Text → GsmProvider → Result CredentialError Text
unfolding lookup to_lower
resolve_username email p = elim (lookup (to_lower email) p.users) [
  | none ↦ err user_not_found
  | some u ↦ ok u.username
]

unfoldable pub add_target :
    Text → TargetInfo → ℕ → Text → List TargetUser → GsmProvider → GsmProvider
unfolding insert
add_target id info port domain users p = record p {
  targets =
      insert id (record { info = info; port = port; domain = domain; users = users }) p.targets;
}

-- Whether the target was there.
unfoldable pub remove_target : Text → GsmProvider → GsmProvider × Bool
unfolding lookup delete
remove_target id p = (
  record p { targets = delete id p.targets },
  elim (lookup id p.targets) [ none ↦ false | some t ↦ true ],
)

unfoldable pub target_count : GsmProvider → ℕ
target_count p = length p.targets
