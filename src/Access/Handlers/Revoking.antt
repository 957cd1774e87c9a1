-- ===== src/Access/Handlers/Revoking.antt =====
-- What a revocation leaves of the user's sessions and of the user's access.
use rdp_warp_portal.Prelude.{
  ◌≡◌, sym, subst, inl, inr, true, false, none, some, List, [], ◌∷◌, ◌++◌, text_eq, Text, arith,
  Bool-cases, ◌==◌,
}
use rdp_warp_portal.Prelude.Assoc.{GoMap, lookup}
use rdp_warp_portal.Access.Handlers.{end_one, end_each}
use rdp_warp_portal.Session.Manager.Ending.{Keyed}
use rdp_warp_portal.Session.Manager.Queries.{
  selected, keep_selected, list_sessions, values, matches_user,
}
use rdp_warp_portal.Session.Manager.Shrinking.{
  Shrinks, Shrinks-Keyed, terminate-Shrinks, terminate-gone,
}
use rdp_warp_portal.Session.Manager.{Manager, Session, is_ending}

-- A session of a list.
pub data IsIn (s : Session) : List Session → Type 0 where
  here : {ss : List Session} → IsIn s (s ∷ ss)
  there : {t : Session} {ss : List Session} → IsIn s ss → IsIn s (t ∷ ss)

end_one-Shrinks : (s : Session) (m : Manager) → Keyed m → Shrinks m (end_one s m)
unfolding end_one
end_one-Shrinks s m keyed = elim (Bool-cases (is_ending s.state)) [
  | inl over ↦ rw over (λ k u at_k. at_k)
  | inr live ↦ rw live (terminate-Shrinks s.id m keyed)
]

pub end_each-Shrinks : (ss : List Session) (m : Manager) → Keyed m → Shrinks m (end_each ss m)
unfolding end_each
end_each-Shrinks [] m keyed = λ k u at_k. at_k
end_each-Shrinks (s ∷ ss) m keyed =
    let first = end_one-Shrinks s m keyed in
    let rest = end_each-Shrinks ss (end_one s m) (Shrinks-Keyed m (end_one s m) first keyed) in
    λ k u at_k. first k u (rest k u at_k)

end_one-gone :
    (s : Session) (m : Manager)
    → Keyed m
    → lookup s.id m.sessions ≡ some s
    → is_ending s.state ≡ false
    → lookup s.id (end_one s m).sessions ≡ none
unfolding end_one
end_one-gone s m keyed found live = rw (end_one, live) (terminate-gone s.id s m keyed found live)

-- Of the sessions of the list, those that are still registered were ending before.
pub end_each-ending :
    (ss : List Session) (m : Manager) (id : Text) (u : Session)
    → Keyed m
    → IsIn u ss
    → lookup id (end_each ss m).sessions ≡ some u
    → is_ending u.state ≡ true
unfolding end_each
end_each-ending [] m id u keyed inside left = elim inside [ ]
end_each-ending (s ∷ ss) m id u keyed here left = elim (Bool-cases (is_ending u.state)) [
  | inl over ↦ over
  | inr live ↦
      let first = end_one-Shrinks u m keyed in
      let kept =
        end_each-Shrinks ss (end_one u m) (Shrinks-Keyed m (end_one u m) first keyed) id u left in
      let before = first id u kept in
      let own : u.id ≡ id = keyed id u before in
      let gone : lookup id (end_one u m).sessions ≡ none =
        subst (λ k. lookup k (end_one u m).sessions ≡ none) own
          (end_one-gone u m keyed (subst (λ k. lookup k m.sessions ≡ some u) (sym own) before)
            live) in
      absurd (cc)
]
end_each-ending (s ∷ ss) m id u keyed (there in_rest) left =
    end_each-ending ss (end_one s m) id u
      (Shrinks-Keyed m (end_one s m) (end_one-Shrinks s m keyed) keyed) in_rest left

IsIn-append : (s : Session) (ss ts : List Session) → IsIn s ss → IsIn s (ss ++ ts)
IsIn-append s [] ts inside = elim inside [ ]
IsIn-append s (t ∷ ss) ts here = here
IsIn-append s (t ∷ ss) ts (there p) = there (IsIn-append s ss ts p)

lookup-IsIn :
    (id : Text) (s : Session) (entries : GoMap Text Session)
    → lookup id entries ≡ some s
    → IsIn s (values entries)
unfolding lookup
lookup-IsIn id s [] found = absurd (cc)
lookup-IsIn id s ((k, t) ∷ entries) found = elim (Bool-cases (k == id)) [
  | inl same ↦
      let hit : some t ≡ some s = rw same at found in
      subst (λ x. IsIn s (x ∷ values entries)) (sym cc) here
  | inr other ↦ there (lookup-IsIn id s entries (rw other at found))
]

keep_selected-IsIn :
    (user_id : Text) (s : Session) (ss : List Session)
    → IsIn s ss
    → selected user_id s ≡ true
    → IsIn s (keep_selected user_id ss)
unfolding keep_selected
keep_selected-IsIn user_id s [] inside mine = elim inside [ ]
keep_selected-IsIn user_id s (t ∷ ss) here mine = rw (keep_selected, mine) here
keep_selected-IsIn user_id s (t ∷ ss) (there p) mine = elim (Bool-cases (selected user_id t)) [
  | inl kept ↦ rw (keep_selected, kept) (there (keep_selected-IsIn user_id s ss p mine))
  | inr skipped ↦ rw (keep_selected, skipped) (keep_selected-IsIn user_id s ss p mine)
]

-- The user's registered sessions are in the list that the handler goes through.
pub list_sessions-IsIn :
    (email id : Text) (s : Session) (m : Manager)
    → lookup id m.sessions ≡ some s
    → matches_user s.user_id email ≡ true
    → IsIn s (list_sessions email m)
unfolding list_sessions selected
list_sessions-IsIn email id s m found mine =
    IsIn-append s (keep_selected email (values m.sessions)) (keep_selected email m.history) (
      keep_selected-IsIn email s (values m.sessions) (lookup-IsIn id s m.sessions found)
        (ground arith))
