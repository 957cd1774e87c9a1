-- ===== src/Agent/Sessions/Covered.antt =====
-- Every recorder that `runAgent` keeps belongs to a session of the last poll, and every recorder that
-- it starts is stopped once.
use rdp_warp_portal.Prelude.{
  ℕ, ◌≡◌, ◌≢◌, refl, ◌∙◌, sym, inl, inr, ◌⊎◌, Option, none, some, [], ◌∷◌, nat_eq, arith,
  Option-cases, Bool-cases, All, ◌==◌, beq_eq, beq_ne, beq_refl,
}
use rdp_warp_portal.Prelude.Assoc.{GoMap, lookup, lookup-insert, lookup-delete}
use rdp_warp_portal.Agent.Sessions.{SessionInfo, Agent, on_logon, on_logoff, log_on, log_off}
use rdp_warp_portal.Agent.Sessions.Balance.{Matches, Keyed, Balanced, on_logon-Balanced}

module _ {R : Type 0} where
  -- No session that is still to log on has a recorder.
  abbrev pub Fresh : GoMap ℕ SessionInfo → GoMap ℕ SessionInfo → Agent R → Type 0
  Fresh entries before a =
      (id : ℕ) (info : SessionInfo)
      → lookup id entries ≡ some info
      → lookup id before ≡ none
      → lookup id a.recorders ≡ none

  pub on_logon_elsewhere :
      (start : SessionInfo → Option R) (info : SessionInfo) (a : Agent R) (id : ℕ)
      → info.id ≢ id
      → lookup id (on_logon start info a).recorders ≡ lookup id a.recorders
  unfolding on_logon
  on_logon_elsewhere start info a id other = elim (Option-cases (start info)) [
    | inl failed ↦ rw (on_logon, failed) refl
    | inr (r, ok) ↦
        rw (on_logon, ok)
          (lookup-insert info.id id r a.recorders ∙ rw (beq_ne info.id id other) refl)
  ]

  log_on-Fresh :
      (start : SessionInfo → Option R) (key : ℕ) (info : SessionInfo)
      (entries before : GoMap ℕ SessionInfo) (a : Agent R)
      → key ≡ info.id
      → lookup key entries ≡ none
      → Fresh ((key, info) ∷ entries) before a
      → Fresh entries before (on_logon start info a)
  unfolding lookup
  log_on-Fresh start key info entries before a own once fresh id other found out =
      elim (Bool-cases (key == id)) [
        | inl same ↦ let twin = beq_eq key id same in absurd (cc)
        | inr apart ↦
            on_logon_elsewhere start info a id (λ e. absurd (ground (arith, beq_refl id)))
            ∙ fresh id other (rw apart found) out
      ]

  skip-Fresh :
      (key : ℕ) (info : SessionInfo) (entries before : GoMap ℕ SessionInfo) (a : Agent R)
      → lookup key entries ≡ none
      → Fresh ((key, info) ∷ entries) before a
      → Fresh entries before a
  unfolding lookup
  skip-Fresh key info entries before a once fresh id other found out =
      elim (Bool-cases (key == id)) [
        | inl same ↦ let twin = beq_eq key id same in absurd (cc)
        | inr apart ↦ fresh id other (rw apart found) out
      ]

  pub log_on-Balanced :
      (start : SessionInfo → Option R) (entries before : GoMap ℕ SessionInfo) (a : Agent R)
      → Keyed entries
      → Fresh entries before a
      → Balanced a
      → Balanced (log_on start entries before a)
  unfolding log_on lookup
  log_on-Balanced start [] before a keyed fresh b = b
  log_on-Balanced start ((key, info) ∷ entries) before a ((own, matches), (once, distinct)) fresh
        b =
      elim (Option-cases (lookup key before)) [
        | inl new ↦
            let free = fresh key info (rw (beq_refl key) refl) new in
            rw (log_on, new)
              (log_on-Balanced start entries before (on_logon start info a) (matches, distinct)
                (log_on-Fresh start key info entries before a own once fresh)
                (on_logon-Balanced start info a (rw own at free) b))
        | inr (old, known) ↦
            rw (log_on, known)
              (log_on-Balanced start entries before a (matches, distinct)
                (skip-Fresh key info entries before a once fresh) b)
      ]

  -- A recorder that the logons leave was there, or belongs to one of the sessions.
  pub log_on-lookup :
      (start : SessionInfo → Option R) (entries before : GoMap ℕ SessionInfo) (a : Agent R) (id : ℕ)
      (r : R)
      → All Matches entries
      → lookup id (log_on start entries before a).recorders ≡ some r
      → (lookup id a.recorders ≡ some r) ⊎ ((info : SessionInfo) × (lookup id entries ≡ some info))
  unfolding log_on lookup
  log_on-lookup start [] before a id r matches h = inl h
  log_on-lookup start ((key, info) ∷ entries) before a id r (own, matches) h =
      elim (Bool-cases (key == id)) [
        | inl same ↦ inr (info, rw same refl)
        | inr apart ↦ elim (Option-cases (lookup key before)) [
          | inl new ↦
              elim (log_on-lookup start entries before (on_logon start info a) id r matches
                (rw (log_on, new) at h)) [
                  | inl kept ↦ inl (
                      sym (
                        on_logon_elsewhere start info a id
                          (λ e. absurd (ground (arith, beq_refl id))))
                      ∙ kept)
                  | inr (other, found) ↦ inr (other, rw apart found)
                ]
          | inr (old, known) ↦
              elim (log_on-lookup start entries before a id r matches (rw (log_on, known) at h)) [
                | inl kept ↦ inl kept
                | inr (other, found) ↦ inr (other, rw apart found)
              ]
        ]
      ]

  on_logoff-lookup :
      (info : SessionInfo) (a : Agent R) (id : ℕ) (r : R)
      → lookup id (on_logoff info a).recorders ≡ some r
      → (lookup id a.recorders ≡ some r) × (info.id ≢ id)
  unfolding on_logoff
  on_logoff-lookup info a id r h = elim (Option-cases (lookup info.id a.recorders)) [
    | inl missing ↦ let kept = rw (on_logoff, missing) at h in (kept, λ e. absurd (cc))
    | inr (old, found) ↦
        let left = rw (on_logoff, found) at h in
        let computed = lookup-delete info.id id a.recorders in
        (ground arith, λ e. absurd (ground (arith, beq_refl id)))
  ]

  -- A recorder that the logoffs leave was there, and its session is still there, or it was none of the
  -- sessions that are compared.
  pub log_off-lookup :
      (entries current : GoMap ℕ SessionInfo) (a : Agent R) (id : ℕ) (r : R)
      → All Matches entries
      → lookup id (log_off entries current a).recorders ≡ some r
      → (lookup id a.recorders ≡ some r)
        × (((info : SessionInfo) × (lookup id current ≡ some info)) ⊎ (lookup id entries ≡ none))
  unfolding log_off lookup
  log_off-lookup [] current a id r matches h = (h, inr refl)
  log_off-lookup ((key, info) ∷ entries) current a id r (own, matches) h =
      elim (Option-cases (lookup key current)) [
        | inl over ↦
            let (kept, there) =
              log_off-lookup entries current (on_logoff info a) id r matches
                (rw (log_off, over) at h) in
            let (before, other) = on_logoff-lookup info a id r kept in
            (
              before,
              elim there [
                | inl found ↦ inl found
                | inr gone ↦ inr (rw (beq_ne key id (λ e. other (sym own ∙ e))) gone)
              ],
            )
        | inr (now, here) ↦
            let (kept, there) =
              log_off-lookup entries current a id r matches (rw (log_off, here) at h) in
            (
              kept,
              elim (Bool-cases (key == id)) [
                | inl same ↦ inl (now, rw (beq_eq key id same) at here)
                | inr apart ↦ elim there [ inl found ↦ inl found | inr gone ↦ inr (rw apart gone) ]
              ],
            )
      ]
