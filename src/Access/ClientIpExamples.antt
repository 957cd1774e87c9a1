-- ===== src/Access/ClientIpExamples.antt =====
-- Tests of the client's address.
use rdp_warp_portal.Prelude.{◌≡◌, refl, [], codes, text_beq, text_eq}
use rdp_warp_portal.Access.ClientIp.{extract_client_ip}

headers :
    (extract_client_ip (codes " 10.0.0.7 , 10.0.0.1") [] (codes "10.0.0.1:80") ≡ codes "10.0.0.7")
    × (extract_client_ip [] (codes "10.0.0.8") (codes "10.0.0.1:80") ≡ codes "10.0.0.8")
    × (extract_client_ip [] [] (codes "[::1]:80") ≡ codes "::1")
unfolding extract_client_ip text_beq
headers = (refl, refl, refl)
