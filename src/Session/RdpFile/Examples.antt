-- ===== src/Session/RdpFile/Examples.antt =====
-- A test of the file, and the theorem on its name at a concrete target.
use rdp_warp_portal.Prelude.{true, ◌≡◌, refl, codes, text_beq}
use rdp_warp_portal.Session.RdpFile.{
  RdpFileParams, generate_rdp_file, rdp_filename, lb_info, join_lines,
}
use rdp_warp_portal.Strings.Replace.{encode_at}
use rdp_warp_portal.Strings.{itoa, has_prefix}

abbrev params : RdpFileParams
params = record {
  broker_host = codes "broker";
  port = 33400;
  user_id = codes "bob";
  target_id = codes "dc-01";
  token = codes "T";
  domain = codes "D";
}

file_start :
    has_prefix
      (generate_rdp_file params)
      (codes "full address:s:broker:33400\r\nusername:s:bob#dc-01#T\r\ndomain:s:D\r\n")
    ≡ true
unfolding generate_rdp_file lb_info itoa join_lines encode_at has_prefix
file_start = refl

sanitized : rdp_filename (codes "a/b") ≡ codes "a_b.rdp"
unfolding rdp_filename text_beq
sanitized = refl
