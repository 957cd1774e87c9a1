-- ===== src/Credential/Users.antt =====
-- The users that the configuration names can be used on the targets that it names.
use rdp_warp_portal.Prelude.{◌≡◌, true, false, Option, [], nat_eq, text_eq, Text}
use rdp_warp_portal.Strings.{equal_fold}
use rdp_warp_portal.Credential.{
  TargetUser, GsmTarget, GsmConfigFile, GsmProvider, build_targets, user_map_from, resolve_password,
  credentials_of, get_target_credentials,
}

abbrev provider_of : GsmConfigFile → Option (Text → Option Text) → GsmProvider
provider_of config resolver = record {
  targets = build_targets config.users config.targets;
  users = user_map_from [] config.users;
  resolve_secret = resolver;
}

-- The credentials that a provider gives for a user who is found on the target.
abbrev pub FoundOn : Text → Text → GsmTarget → Option (Text → Option Text) → GsmProvider → Type 0
FoundOn username id target resolver p =
    (user : TargetUser) × (equal_fold user.username username ≡ true)
    × (get_target_credentials false id username p
        ≡ credentials_of target user (resolve_password resolver user))
