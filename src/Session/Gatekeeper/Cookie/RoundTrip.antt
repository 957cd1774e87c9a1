-- ===== src/Session/Gatekeeper/Cookie/RoundTrip.antt =====
-- The gatekeeper reads back what the RDP file tells the client to send.
use rdp_warp_portal.Prelude.{
  ◌≡◌, ◌≢◌, refl, ap, ◌∙◌, false, [], ◌∷◌, ◌++◌, append_assoc, text_eq, Text, codes, ok, arith,
  All-append, beq_ne, take-length-append,
}
use rdp_warp_portal.Session.Gatekeeper.Cookie.{parse_cookie, parse_value, parse_parts}
use rdp_warp_portal.Session.RdpFile.{RdpFileParams, cookie_prefix, crlf, lb_info, compound_username}
use rdp_warp_portal.Strings.Index.{Lacks, index-append}
use rdp_warp_portal.Strings.Parts.{split_three}
use rdp_warp_portal.Strings.Replace.{
  encode_at, encode_at-Lacks, decode_at-encode_at, encode_at-ne-nil,
}
use rdp_warp_portal.Strings.{split, contains}

-- A field of the cookie: not empty, with no delimiter and no carriage return.
abbrev pub IsField : Text → Type 0
IsField s = (s ≢ []) × Lacks b'#' s × Lacks b'\r' s

-- Fields that survive the journey. The name may hold `@`, but not `%40`.
pub record IsCookieSafe (p : RdpFileParams) : Type 0 where
  pub user : IsField p.user_id
  pub no_escape : contains p.user_id (codes "%40") ≡ false
  pub target : IsField p.target_id
  pub token : IsField p.token

append-ne-nil : (s t : Text) → s ≢ [] → s ++ t ≢ []
append-ne-nil [] t h = absurd (h refl)
append-ne-nil (c ∷ s) t h = λ e. cc

-- The prefix is found where the text begins with it.
parse_cookie_at :
    (after_prefix : Text) → parse_cookie (cookie_prefix ++ after_prefix) ≡ parse_value after_prefix
unfolding parse_cookie
parse_cookie_at after_prefix =
    rw (index-append [] b'C' (codes "ookie: mstshash=") after_prefix tt, parse_cookie)

-- The value ends at the first line end.
parse_value_at :
    (value rest : Text)
    → Lacks b'\r' value
    → value ≢ []
    → parse_value (value ++ (crlf ++ rest)) ≡ parse_parts value (split value b'#')
unfolding parse_value
parse_value_at value rest clean filled = rw (
  index-append value b'\r' (codes "\n") rest clean,
  parse_value,
  take-length-append value (crlf ++ rest),
  beq_ne value [] filled,
)

module _ (p : RdpFileParams) (safe : IsCookieSafe p) where
  compound-Lacks : Lacks b'\r' (compound_username p)
  unfolding compound_username
  compound-Lacks =
      All-append _ (encode_at p.user_id) _
        (encode_at-Lacks b'\r' p.user_id (omega arith) (omega arith) (omega arith) safe.user.2)
        (omega arith, All-append _ p.target_id _ safe.target.2 (omega arith, safe.token.2))

  split-compound :
      split (compound_username p) b'#' ≡ encode_at p.user_id ∷ p.target_id ∷ p.token ∷ []
  unfolding compound_username
  split-compound =
      split_three (encode_at p.user_id) p.target_id p.token b'#'
        (encode_at-Lacks b'#' p.user_id (omega arith) (omega arith) (omega arith) safe.user.1)
        safe.target.1 safe.token.1

  compound-ne-nil : compound_username p ≢ []
  unfolding compound_username
  compound-ne-nil = append-ne-nil (encode_at p.user_id) _ (encode_at-ne-nil p.user_id safe.user.0)

  parse_compound :
      parse_parts (compound_username p) (split (compound_username p) b'#')
      ≡ ok (record {
        user_id = p.user_id;
        target_id = p.target_id;
        token = p.token;
        raw = compound_username p;
      })
  unfolding parse_parts
  parse_compound = rw (
    split-compound,
    decode_at-encode_at p.user_id safe.no_escape,
    beq_ne p.user_id [] safe.user.0,
    beq_ne p.target_id [] safe.target.0,
    beq_ne p.token [] safe.token.0,
  )

-- If no field is empty or holds `#` or a carriage return, and the name holds no `%40`, then from the
-- routing token of the RDP file, whatever follows it, the gatekeeper reads the session's own user,
-- target and token.
pub parse_cookie-lb_info :
    (p : RdpFileParams) (rest : Text)
    → IsCookieSafe p
    → parse_cookie (lb_info p ++ rest)
      ≡ ok (record {
        user_id = p.user_id;
        target_id = p.target_id;
        token = p.token;
        raw = compound_username p;
      })
unfolding lb_info
parse_cookie-lb_info p rest safe =
    parse_cookie_at ((compound_username p ++ crlf) ++ rest)
    ∙ ap parse_value (append_assoc (compound_username p) crlf rest)
    ∙ parse_value_at (compound_username p) rest (compound-Lacks p safe) (compound-ne-nil p safe)
    ∙ parse_compound p safe
