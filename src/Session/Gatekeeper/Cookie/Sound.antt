-- ===== src/Session/Gatekeeper/Cookie/Sound.antt =====
-- What an accepted cookie is made of.
use rdp_warp_portal.Prelude.{
  ◌+◌, ◌≡◌, ◌≢◌, refl, sym, ap, ◌∙◌, inl, inr, ◌||◌, List, [], ◌∷◌, ◌++◌, ◌==◌, text_eq, Text, ok,
  length, take, drop, arith, All, Bool-cases, Option-cases, subst, text_beq_iff,
}
use rdp_warp_portal.Session.Gatekeeper.Cookie.{ParsedCookie, parse_cookie, parse_value, parse_parts}
use rdp_warp_portal.Session.RdpFile.{cookie_prefix, crlf}
use rdp_warp_portal.Strings.Index.{Lacks, index_cut}
use rdp_warp_portal.Strings.Parts.{joined, joined-split, split-Lacks}
use rdp_warp_portal.Strings.Replace.{decode_at}
use rdp_warp_portal.Strings.{index, split}

-- The value of a cookie, spelled by three parts that hold no delimiter.
abbrev pub Spells : ParsedCookie → Type 0
Spells c =
    (user : Text) × (c.raw ≡ user ++ (b'#' ∷ (c.target_id ++ (b'#' ∷ c.token))))
    × (c.user_id ≡ decode_at user)
    × Lacks b'#' user
    × Lacks b'#' c.target_id
    × Lacks b'#' c.token
    × (c.user_id ≢ [])
    × (c.target_id ≢ [])
    × (c.token ≢ [])

parse_parts-Spells :
    (raw : Text) (parts : List Text) (c : ParsedCookie)
    → joined b'#' parts ≡ raw
    → All (Lacks b'#') parts
    → parse_parts raw parts ≡ ok c
    → Spells c × (c.raw ≡ raw)
unfolding parse_parts joined
parse_parts-Spells raw (user ∷ target ∷ token ∷ []) c j l h =
    elim (Bool-cases (decode_at user == [] || target == [] || token == [])) [
      | inl bad ↦ absurd (ground arith)
      | inr good ↦
          let made : record {
            user_id = decode_at user;
            target_id = target;
            token = token;
            raw = raw;
          }
              ≡ c =
            ground arith in
          subst (λ k. Spells k × (k.raw ≡ raw)) made
            (
              (
                user,
                sym j,
                refl,
                l.0,
                l.1.0,
                l.1.1.0,
                λ e. ground (arith, text_beq_iff (decode_at user) []),
                λ e. ground (arith, text_beq_iff target []),
                λ e. ground (arith, text_beq_iff token []),
              ),
              refl,
            )
    ]
parse_parts-Spells raw _ c j l h = absurd (cc)

parse_value_sound :
    (after : Text) (c : ParsedCookie)
    → parse_value after ≡ ok c
    → Spells c × ((rest : Text) × (after ≡ c.raw ++ (crlf ++ rest)))
unfolding parse_value
parse_value_sound after c h = elim (Option-cases (index after crlf)) [
  | inl e ↦ absurd (cc (rw (e, parse_value) at h))
  | inr (term, e) ↦ elim (Bool-cases (take term after == [])) [
    | inl empty ↦ absurd (cc (rw (e, parse_value, empty) at h))
    | inr filled ↦
        let value = take term after in
        let (spells, same) =
          parse_parts-Spells value (split value b'#') c (joined-split value b'#')
            (split-Lacks value b'#') (rw (e, parse_value, filled) at h) in
        (spells, (drop (term + length crlf) after, rw same (index_cut after crlf term e)))
  ]
]

-- An accepted cookie stands in the bytes, between `Cookie: mstshash=` and a line end; its value is
-- three parts that `#` separates and that hold none; the target and the token are two of them as they
-- are, the user is the first with each `%40` read as `@`; and none of the three is empty.
pub parse_cookie_sound :
    (bytes : Text) (c : ParsedCookie)
    → parse_cookie bytes ≡ ok c
    → Spells c
      × ((before : Text) × (rest : Text) × (bytes
            ≡ before ++ (cookie_prefix ++ (c.raw ++ (crlf ++ rest)))))
unfolding parse_cookie
parse_cookie_sound bytes c h = elim (Option-cases (index bytes cookie_prefix)) [
  | inl e ↦ absurd (cc (rw (e, parse_cookie) at h))
  | inr (idx, e) ↦
      let after = drop (idx + length cookie_prefix) bytes in
      let (spells, (rest, cut)) = parse_value_sound after c (rw (e, parse_cookie) at h) in
      (
        spells,
        (
          take idx bytes,
          rest,
          index_cut bytes cookie_prefix idx e
              ∙ ap (λ t. take idx bytes ++ (cookie_prefix ++ t)) cut,
        ),
      )
]
