-- ===== src/Session/Token/Examples.antt =====
-- Tests of the token, and its theorems at a concrete token.
use rdp_warp_portal.Prelude.{
  ◌+◌, ◌≡◌, refl, true, false, none, some, [], ◌∷◌, Text, codes, text_beq, length, replicate, pos,
  negsuc,
}
use rdp_warp_portal.Session.Token.Encoding.{encode, digit, length-encode}
use rdp_warp_portal.Session.Token.OneTime.{accepted, any_in_time, accepted_once}
use rdp_warp_portal.Session.Token.{
  Token, token_mismatch, token_expired, token_already_used, token_size, is_expired, validate,
  ttl_remaining,
}

rfc_vectors : (encode (codes "foobar") ≡ codes "Zm9vYmFy") × (encode (codes "fo") ≡ codes "Zm8")
unfolding encode digit
rfc_vectors = (refl, refl)

url_safe : encode (0xfb ∷ 0xff ∷ []) ≡ codes "-_8"
unfolding encode digit
url_safe = refl

abbrev ticket : Token
ticket = record { value = codes "abc"; expiry = 300; consumed = false }

outcomes :
    ((validate ticket (codes "abd") 10).1 ≡ some token_mismatch)
    × ((validate ticket (codes "abc") 301).1 ≡ some token_expired)
    × ((validate (record ticket { consumed = true }) (codes "abc") 301).1 ≡ some token_already_used)
    × ((validate ticket (codes "abc") 300).1 ≡ none)
unfolding validate text_beq
outcomes = (refl, refl, refl, refl)

remaining : (ttl_remaining ticket 100 ≡ pos 200) × (ttl_remaining ticket 301 ≡ negsuc 0)
unfolding ttl_remaining
remaining = (refl, refl)

accepted_once_example :
    accepted ticket ((codes "x", 1) ∷ (codes "abc", 2) ∷ (codes "abc", 3) ∷ []) ≡ 1
unfolding any_in_time is_expired text_beq
accepted_once_example =
    accepted_once ticket ((codes "x", 1) ∷ (codes "abc", 2) ∷ (codes "abc", 3) ∷ [])

abbrev zeros : Text
zeros = replicate token_size 0

abbrev sevens : Text
sevens = replicate token_size 7

abbrev made_of : Text → Token
made_of bytes = record { value = encode bytes; expiry = 1000 + 300; consumed = false }

length-encode_example : length (encode sevens) ≡ 43
length-encode_example = length-encode sevens
