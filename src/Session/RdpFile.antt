-- ===== src/Session/RdpFile.antt =====
-- proxy/internal/session/rdp_file.go: the file that a client opens, and its name.
pub mod Filename
pub mod Examples
use rdp_warp_portal.Prelude.{
  ℕ, ◌+◌, ◌≡◌, refl, Bool, true, false, ◌&&◌, ◌||◌, List, [], ◌∷◌, ◌++◌, leb, ltb, if◌then◌else◌,
  ◌==◌, nat_eq, text_eq, Text, codes,
}
use rdp_warp_portal.Strings.Replace.{encode_at}
use rdp_warp_portal.Strings.{itoa}

pub record RdpFileParams : Type 0 where
  pub broker_host : Text
  pub port : ℕ
  pub user_id : Text
  pub target_id : Text
  pub token : Text
  pub domain : Text

abbrev pub crlf : Text
crlf = codes "\r\n"

abbrev pub cookie_prefix : Text
cookie_prefix = codes "Cookie: mstshash="

-- username#target_id#token, the name with `@` written as `%40`.
unfoldable pub compound_username : RdpFileParams → Text
compound_username p = encode_at p.user_id ++ (b'#' ∷ (p.target_id ++ (b'#' ∷ p.token)))

-- The routing token that the client sends in its Connection Request.
unfoldable pub lb_info : RdpFileParams → Text
unfolding compound_username
lb_info p = cookie_prefix ++ (compound_username p ++ crlf)

-- `strings.Join(lines, "\r\n") + "\r\n"`: each line and its end.
unfoldable pub join_lines : List Text → Text
join_lines [] = []
join_lines (l ∷ ls) = l ++ (crlf ++ join_lines ls)

abbrev fixed_settings : List Text
fixed_settings =
    codes "prompt for credentials:i:0"
    ∷ codes "authentication level:i:0"
    ∷ codes "negotiate security layer:i:1"
    ∷ codes "enablecredsspsupport:i:0"
    ∷ codes "autoreconnection enabled:i:0"
    ∷ codes "screen mode id:i:2"
    ∷ codes "desktopwidth:i:1920"
    ∷ codes "desktopheight:i:1080"
    ∷ codes "session bpp:i:32"
    ∷ codes "smart sizing:i:1"
    ∷ codes "compression:i:1"
    ∷ codes "displayconnectionbar:i:0"
    ∷ codes "allow font smoothing:i:1"
    ∷ codes "autoreconnection enabled:i:0"
    ∷ codes "redirectclipboard:i:1"
    ∷ codes "redirectprinters:i:0"
    ∷ codes "redirectcomports:i:0"
    ∷ codes "redirectsmartcards:i:0"
    ∷ codes "redirectposdevices:i:0"
    ∷ codes "redirectdrives:i:0"
    ∷ codes "audiomode:i:0"
    ∷ codes "audiocapturemode:i:0"
    ∷ []

pub generate_rdp_file : RdpFileParams → Text
unfolding lb_info itoa join_lines
generate_rdp_file p = join_lines (
    (codes "full address:s:" ++ (p.broker_host ++ (b':' ∷ itoa p.port)))
    ∷ (codes "username:s:" ++ compound_username p)
    ∷ (codes "domain:s:" ++ p.domain)
    ∷ (codes "loadbalanceinfo:s:" ++ lb_info p)
    ∷ fixed_settings)

is_file_safe : ℕ → Bool
is_file_safe r =
    (leb b'a' r && leb r b'z')
    || (leb b'A' r && leb r b'Z')
    || (leb b'0' r && leb r b'9')
    || r == b'-'
    || r == b'_'

-- A byte that goes on with a rune, in a text of valid UTF-8.
is_continuation : ℕ → Bool
is_continuation c = leb 128 c && ltb c 192

-- `strings.Map` goes by runes: a rune that is not in ASCII becomes one underscore.
sanitize : Text → Text
unfolding is_file_safe is_continuation
sanitize [] = []
sanitize (c ∷ s) =
    let rest = sanitize s in
    if is_continuation c then rest else (if is_file_safe c then c else b'_') ∷ rest

pub rdp_filename : Text → Text
unfolding sanitize
rdp_filename target_id =
    let safe = sanitize target_id in
    (if safe == [] then codes "connection" else safe) ++ codes ".rdp"
