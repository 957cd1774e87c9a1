-- ===== src/Agent/Sessions/Balance.antt =====
-- Every recorder that `runAgent` starts is stopped once.
use rdp_warp_portal.Prelude.{
  ℕ, ◌+◌, ◌≡◌, refl, inl, inr, Option, none, List, [], ◌∷◌, nat_eq, arith, Option-cases, Bool-cases,
  All, ◌==◌,
}
use rdp_warp_portal.Prelude.Assoc.{
  GoMap, lookup, insert, Distinct, insert-Distinct, delete-Distinct,
}
use rdp_warp_portal.Prelude.Weights.{total_of, weigh, weigh-insert, weigh-delete}
use rdp_warp_portal.Agent.Sessions.{SessionInfo, Agent, current_from, on_logon, on_logoff, log_off}

-- A session stands under its own id.
abbrev pub Matches : ℕ × SessionInfo → Type 0
Matches entry = entry.0 ≡ entry.1.id

insert-Matches :
    (s : SessionInfo) (entries : GoMap ℕ SessionInfo)
    → All Matches entries
    → All Matches (insert s.id s entries)
unfolding insert
insert-Matches s [] h = (refl, tt)
insert-Matches s ((k, v) ∷ entries) h = elim (Bool-cases (k == s.id)) [
  | inl same ↦ rw same (refl, h.1)
  | inr other ↦ rw other (h.0, insert-Matches s entries h.1)
]

-- What `currentMap` is like.
abbrev pub Keyed : GoMap ℕ SessionInfo → Type 0
Keyed entries = All Matches entries × Distinct entries

pub current_from-Keyed :
    (sessions : List SessionInfo) (found : GoMap ℕ SessionInfo)
    → Keyed found
    → Keyed (current_from found sessions)
unfolding current_from
current_from-Keyed [] found h = h
current_from-Keyed (s ∷ sessions) found (matches, distinct) = ground (
  arith,
  current_from-Keyed sessions found,
  current_from-Keyed sessions (insert s.id s found),
  insert-Matches s found,
  insert-Distinct s.id s found,
)

module _ {R : Type 0} where
  -- The recorders that are started are those that are stopped and those of the map.
  pub record Balanced (a : Agent R) : Type 0 where
    pub distinct : Distinct a.recorders
    pub weights : (f : R → ℕ) → total_of f a.started ≡ total_of f a.stopped + weigh f a.recorders

  pub on_logon-Balanced :
      (start : SessionInfo → Option R) (info : SessionInfo) (a : Agent R)
      → lookup info.id a.recorders ≡ none
      → Balanced a
      → Balanced (on_logon start info a)
  unfolding on_logon total_of
  on_logon-Balanced start info a free b = elim (Option-cases (start info)) [
    | inl failed ↦ rw (on_logon, failed) b
    | inr (r, ok) ↦
        rw (on_logon, ok)
          (record {
            distinct = insert-Distinct info.id r a.recorders b.distinct;
            weights = λ f. omega (arith, b.weights f, weigh-insert f info.id r a.recorders free);
          })
  ]

  on_logoff-Balanced : (info : SessionInfo) (a : Agent R) → Balanced a → Balanced (on_logoff info a)
  unfolding on_logoff total_of
  on_logoff-Balanced info a b = elim (Option-cases (lookup info.id a.recorders)) [
    | inl missing ↦ rw (on_logoff, missing) b
    | inr (r, found) ↦
        rw (on_logoff, found)
          (record {
            distinct = delete-Distinct info.id a.recorders b.distinct;
            weights = λ f.
                omega (arith, b.weights f, weigh-delete f info.id r a.recorders b.distinct found);
          })
  ]

  pub log_off-Balanced :
      (entries current : GoMap ℕ SessionInfo) (a : Agent R)
      → Balanced a
      → Balanced (log_off entries current a)
  unfolding log_off
  log_off-Balanced [] current a b = b
  log_off-Balanced ((id, info) ∷ entries) current a b = elim (Option-cases (lookup id current)) [
    | inl over ↦
        rw (log_off, over)
          (log_off-Balanced entries current (on_logoff info a) (on_logoff-Balanced info a b))
    | inr (now, here) ↦ rw (log_off, here) (log_off-Balanced entries current a b)
  ]
