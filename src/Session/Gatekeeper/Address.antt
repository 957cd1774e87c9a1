-- ===== src/Session/Gatekeeper/Address.antt =====
-- `extractIP` of proxy/internal/session/gatekeeper.go: the host of "host:port" or "[ipv6]:port".
use rdp_warp_portal.Prelude.{◌-◌, ◌&&◌, none, some, if◌then◌else◌, Text, codes, length, take, drop}
use rdp_warp_portal.Strings.{last_index, has_prefix, has_suffix}

-- `ip[1 : len(ip)-1]`.
unfoldable pub inner : Text → Text
inner ip = take (length ip - 2) (drop 1 ip)

unfoldable pub unbracket : Text → Text
unfolding inner
unbracket ip = if has_prefix ip (codes "[") && has_suffix ip (codes "]") then inner ip else ip

unfoldable pub extract_ip : Text → Text
unfolding unbracket
extract_ip addr = elim (last_index addr b':') [ some idx ↦ unbracket (take idx addr) | none ↦ addr ]
