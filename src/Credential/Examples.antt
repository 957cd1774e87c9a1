-- ===== src/Credential/Examples.antt =====
-- A configuration with one target and one user.
use rdp_warp_portal.Prelude.{some, [], ◌∷◌, nat_eq, text_eq, codes}
use rdp_warp_portal.Credential.{GsmConfigFile, GsmProvider, GsmTarget}

abbrev config : GsmConfigFile
config = record {
  targets =
      (
        codes "dc",
        record { hostname = codes "dc-01"; ip = codes "10.1.0.5"; port = 0; domain = [] },
      )
      ∷ [];
  users = (codes "Amy@p0.dev", record { username = codes "amy"; secret = codes "pw" }) ∷ [];
}

abbrev target : GsmTarget
target = record {
  info = record { id = codes "dc"; hostname = codes "dc-01"; ip = codes "10.1.0.5"; domain = [] };
  port = 3389;
  domain = [];
  users = record { username = codes "amy"; secret = codes "pw" } ∷ [];
}

abbrev provider : GsmProvider
provider = record {
  targets = (codes "dc", target) ∷ [];
  users = (codes "amy@p0.dev", record { username = codes "amy"; secret = codes "pw" }) ∷ [];
  resolve_secret = some (λ name. some name);
}
