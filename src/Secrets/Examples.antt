-- ===== src/Secrets/Examples.antt =====
-- A call for an access token with nothing kept, and one with the STS token kept.
use rdp_warp_portal.Prelude.{◌≡◌, refl, none, some, nat_eq, text_eq, text_beq, codes, ok, pos}
use rdp_warp_portal.Secrets.Chain.{IamBy, get_iam_token-IamBy}
use rdp_warp_portal.Secrets.{
  Services, TokenProvider, answered, get_iam_token, get_sts_token, impersonate, stored, fresh,
  fetch_iam_token, ok_body, read_token,
}

-- Every service answers with a token of one letter.
abbrev willing : Services
willing = record {
  azure = answered 200 (codes "a");
  sts = λ token. answered 200 (codes "s");
  iam = λ token. answered 200 (codes "i");
  decode_azure = λ body. some (body, codes "4000");
  decode_sts = λ body. some (body, pos 3600);
  decode_iam = λ body. some (body, codes "later");
  parse_time = λ time. some 9000;
}

abbrev sts_only : TokenProvider
sts_only = record {
  azure_token = none;
  sts_token = some (record { token = codes "k"; expires_at = 2000 });
  iam_token = none;
}

willing_ok : (get_iam_token willing 1000 sts_only).result ≡ ok (codes "i")
unfolding get_iam_token get_sts_token impersonate stored fresh fetch_iam_token ok_body read_token
    text_beq
willing_ok = refl

get_iam_token-IamBy_example :
    IamBy willing 1000 sts_only (get_iam_token willing 1000 sts_only).requests (codes "i")
get_iam_token-IamBy_example = get_iam_token-IamBy willing 1000 sts_only (codes "i") willing_ok
