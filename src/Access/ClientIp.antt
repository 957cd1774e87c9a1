-- ===== src/Access/ClientIp.antt =====
-- `extractClientIP` of proxy/internal/api/sessions.go, the address that a session is bound to, beside
-- the `extractIP` by which the gatekeeper checks it. `TrimSpace` is that of ASCII.
use rdp_warp_portal.Prelude.{
  ℕ, suc, ◌-◌, ◌≡◌, refl, sym, ap, ◌∙◌, Bool, true, false, ◌&&◌, ◌||◌, none, some, List, [], ◌∷◌,
  ◌++◌, if◌then◌else◌, ◌==◌, nat_eq, text_eq, text_beq, Text, codes, arith, length, take, drop, leb,
  append_assoc, take-length-append, drop-length-append, length-append, beq_refl,
}
use rdp_warp_portal.Session.Gatekeeper.Address.{extract_ip, unbracket, inner}
use rdp_warp_portal.Strings.Index.{Lacks, index-append}
use rdp_warp_portal.Strings.{index, last_index, has_prefix, has_suffix, split}

unfoldable pub is_space : ℕ → Bool
is_space c = c == 32 || (leb 9 c && leb c 13)

unfoldable pub trim_left : Text → Text
unfolding is_space
trim_left [] = []
trim_left (c ∷ s) = if is_space c then trim_left s else c ∷ s

unfoldable pub trim_right : Text → Text
unfolding is_space
trim_right [] = []
trim_right (c ∷ s) = elim (trim_right s) [
  | [] ↦ if is_space c then [] else c ∷ []
  | d ∷ t ↦ c ∷ d ∷ t
]

abbrev first_part : List Text → Text
first_part [] = []
first_part (p ∷ ps) = p

-- The remote address: up to the last colon, or what stands in its brackets.
unfoldable pub remote_ip : Text → Text
unfolding last_index has_prefix index
remote_ip addr = elim (last_index addr b':') [
  | none ↦ addr
  | some i ↦
      if has_prefix addr (codes "[")
      then elim (index addr (codes "]")) [
        | some j ↦ take (j - 1) (drop 1 addr)
        | none ↦ take i addr
      ]
      else take i addr
]

-- The headers `X-Forwarded-For` and `X-Real-IP`, empty if they are not sent, and `RemoteAddr`.
unfoldable pub extract_client_ip : Text → Text → Text → Text
unfolding split trim_left trim_right remote_ip
extract_client_ip forwarded real remote =
    if forwarded == []
    then if real == [] then remote_ip remote else real
    else trim_right (trim_left (first_part (split forwarded b',')))

-- How Go's net package writes a host and a port.
abbrev pub bracketed : Text → Text → Text
bracketed host port = (b'[' ∷ host) ++ (b']' ∷ b':' ∷ port)

abbrev pub plain : Text → Text → Text
plain host port = host ++ (b':' ∷ port)

last_index-Lacks : (s : Text) (b : ℕ) → Lacks b s → last_index s b ≡ none
unfolding last_index
last_index-Lacks [] b h = refl
last_index-Lacks (c ∷ s) b h = ground (arith, last_index-Lacks s b)

-- The last occurrence stands before a text that lacks it.
last_index-append :
    (s : Text) (b : ℕ) (rest : Text)
    → Lacks b rest
    → last_index (s ++ (b ∷ rest)) b ≡ some (length s)
unfolding last_index
last_index-append [] b rest h = ground (arith, last_index-Lacks rest b)
last_index-append (c ∷ s) b rest h = ground (arith, last_index-append s b rest)

no_bracket :
    (host rest : Text) → Lacks b'[' host → has_prefix (host ++ (b':' ∷ rest)) (codes "[") ≡ false
unfolding has_prefix
no_bracket [] rest h = refl
no_bracket (c ∷ host) rest h = ground arith

no_bracket_alone : (host : Text) → Lacks b'[' host → has_prefix host (codes "[") ≡ false
unfolding has_prefix
no_bracket_alone [] h = refl
no_bracket_alone (c ∷ host) h = ground arith

remote_ip-plain :
    (host port : Text) → Lacks b'[' host → Lacks b':' port → remote_ip (plain host port) ≡ host
unfolding remote_ip
remote_ip-plain host port clean digits =
    rw (last_index-append host b':' port digits, remote_ip, no_bracket host port clean)
      (take-length-append host (b':' ∷ port))

extract_ip-plain :
    (host port : Text) → Lacks b'[' host → Lacks b':' port → extract_ip (plain host port) ≡ host
unfolding extract_ip unbracket
extract_ip-plain host port clean digits =
    rw
      (
        last_index-append host b':' port digits,
        extract_ip,
        take-length-append host (b':' ∷ port),
        no_bracket_alone host clean,
      )
      refl

-- The colon of the port stands after the closing bracket.
last_colon :
    (host port : Text)
    → Lacks b':' port
    → last_index (bracketed host port) b':' ≡ some (suc (suc (length host)))
last_colon host port digits =
    ap (λ s. last_index s b':') (sym (append_assoc (b'[' ∷ host) (b']' ∷ []) (b':' ∷ port)))
    ∙ last_index-append ((b'[' ∷ host) ++ (b']' ∷ [])) b':' port digits
    ∙ ap some (omega (arith, length-append (b'[' ∷ host) (b']' ∷ [])))

remote_ip-bracketed :
    (host port : Text) → Lacks b']' host → Lacks b':' port → remote_ip (bracketed host port) ≡ host
unfolding remote_ip has_prefix
remote_ip-bracketed host port clean digits =
    let closing : index (bracketed host port) (codes "]") ≡ some (suc (length host)) =
      index-append (b'[' ∷ host) b']' [] (b':' ∷ port) (omega arith, clean) in
    let cut : suc (length host) - 1 ≡ length host = omega arith in
    rw (last_colon host port digits, remote_ip, closing)
      (ap (λ n. take n (host ++ (b']' ∷ b':' ∷ port))) cut
        ∙ take-length-append host (b']' ∷ b':' ∷ port))

has_suffix-append : (s p : Text) → has_suffix (s ++ p) p ≡ true
unfolding has_suffix
has_suffix-append s p =
    let size = length-append s p in
    let cut : length (s ++ p) - length p ≡ length s = omega arith in
    let long : leb (length p) (length (s ++ p)) ≡ true = ground arith in
    let end : drop (length (s ++ p) - length p) (s ++ p) ≡ p =
      ap (λ n. drop n (s ++ p)) cut ∙ drop-length-append s p in
    ap (λ b. b && drop (length (s ++ p) - length p) (s ++ p) == p) long
    ∙ ap (λ t. t == p) end
    ∙ beq_refl p

inner-bracketed : (host : Text) → inner ((b'[' ∷ host) ++ (b']' ∷ [])) ≡ host
unfolding inner
inner-bracketed host =
    let size = length-append (b'[' ∷ host) (b']' ∷ []) in
    let cut : length ((b'[' ∷ host) ++ (b']' ∷ [])) - 2 ≡ length host = omega arith in
    ap (λ n. take n (host ++ (b']' ∷ []))) cut ∙ take-length-append host (b']' ∷ [])

unbracket-bracketed : (host : Text) → unbracket ((b'[' ∷ host) ++ (b']' ∷ [])) ≡ host
unfolding unbracket has_prefix
unbracket-bracketed host =
    rw (has_suffix-append (b'[' ∷ host) (b']' ∷ []), unbracket) (inner-bracketed host)

extract_ip-bracketed :
    (host port : Text) → Lacks b':' port → extract_ip (bracketed host port) ≡ host
unfolding extract_ip
extract_ip-bracketed host port digits =
    let whole = (b'[' ∷ host) ++ (b']' ∷ []) in
    let size = length-append (b'[' ∷ host) (b']' ∷ []) in
    let count : suc (suc (length host)) ≡ length whole = omega arith in
    let front : take (suc (suc (length host))) (bracketed host port) ≡ whole =
      ap (λ n. take n (bracketed host port)) count
      ∙ ap (take (length whole)) (sym (append_assoc (b'[' ∷ host) (b']' ∷ []) (b':' ∷ port)))
      ∙ take-length-append whole (b':' ∷ port) in
    rw (last_colon host port digits, extract_ip) (ap unbracket front ∙ unbracket-bracketed host)

-- The address that a session is bound to, taken from a request that comes straight from the client,
-- is the one that the gatekeeper finds in any later connection from the same host, from whatever
-- port, for an IPv4 address as for an IPv6 address in brackets.
pub extract_ip-extract_client_ip :
    (host port later : Text)
    → Lacks b'[' host
    → Lacks b']' host
    → Lacks b':' port
    → Lacks b':' later
    → (extract_ip (plain host later) ≡ extract_client_ip [] [] (plain host port))
      × (extract_ip (bracketed host later) ≡ extract_client_ip [] [] (bracketed host port))
      × (extract_client_ip [] [] (plain host port) ≡ host)
unfolding extract_client_ip text_beq
extract_ip-extract_client_ip host port later no_open no_close digits digits' = (
  extract_ip-plain host later no_open digits' ∙ sym (remote_ip-plain host port no_open digits),
  extract_ip-bracketed host later digits' ∙ sym (remote_ip-bracketed host port no_close digits),
  remote_ip-plain host port no_open digits,
)
