-- ===== src/Session/Manager/Shrinking.antt =====
-- Ending sessions only takes sessions away.
use rdp_warp_portal.Prelude.{
  ◌≡◌, refl, sym, subst, ap, ◌∙◌, inl, inr, true, false, none, some, List, [], ◌∷◌, text_eq, Text,
  arith, Bool-cases, if◌then◌else◌, ◌==◌, beq_refl, beq_eq, err,
}
use rdp_warp_portal.Prelude.Assoc.{GoMap, lookup, lookup-delete}
use rdp_warp_portal.Session.Manager.Create.{Request, create_session}
use rdp_warp_portal.Session.Manager.Ending.{Keyed, terminate_session_cases, without_session}
use rdp_warp_portal.Session.Manager.Terminate.{
  terminate_session, terminate_all, shutdown, session_ids,
}
use rdp_warp_portal.Session.Manager.{Manager, Session, is_ending, check_admission, shutting_down}

-- Every session of `m'` is one of `m`, under the same id.
abbrev pub Shrinks : Manager → Manager → Type 0
Shrinks m m' =
    (id : Text) (s : Session) → lookup id m'.sessions ≡ some s → lookup id m.sessions ≡ some s

-- Taking `s` away leaves the other ids.
without-Shrinks : (s : Session) (m : Manager) → Shrinks m (without_session s m)
without-Shrinks s m id u found = ground (arith, lookup-delete s.id id m.sessions)

pub terminate-Shrinks : (id : Text) (m : Manager) → Keyed m → Shrinks m (terminate_session id m).0
terminate-Shrinks id m keyed = elim (terminate_session_cases id m keyed) [
  | inl (missing, e) ↦ rw e (λ k s found. found)
  | inr (s, found, inl (over, e)) ↦ rw e (λ k u at_k. at_k)
  | inr (s, found, inr (live, e)) ↦ rw e (without-Shrinks s m)
]

pub Shrinks-Keyed : (m m' : Manager) → Shrinks m m' → Keyed m → Keyed m'
Shrinks-Keyed m m' shrinks keyed id s found = keyed id s (shrinks id s found)

-- A registered session that is live is gone once it is ended.
pub terminate-gone :
    (id : Text) (s : Session) (m : Manager)
    → Keyed m
    → lookup id m.sessions ≡ some s
    → is_ending s.state ≡ false
    → lookup id (terminate_session id m).0.sessions ≡ none
terminate-gone id s m keyed found live = elim (terminate_session_cases id m keyed) [
  | inl (missing, e) ↦ absurd (cc)
  | inr (u, at_u, inl (over, e)) ↦
      let both : some s ≡ some u = sym found ∙ at_u in
      let its_end : is_ending s.state ≡ is_ending u.state = cc in absurd (cc)
  | inr (u, at_u, inr (live', e)) ↦
      ap (λ x. lookup id x.0.sessions) e
      ∙ lookup-delete u.id id m.sessions
      ∙ subst (λ k. (if k == id then none else lookup id m.sessions) ≡ none) (sym (keyed id u at_u))
          (rw (beq_refl id) refl)
]

terminate_all-Shrinks : (ids : List Text) (m : Manager) → Keyed m → Shrinks m (terminate_all ids m)
unfolding terminate_all
terminate_all-Shrinks [] m keyed = λ k u at_k. at_k
terminate_all-Shrinks (id ∷ ids) m keyed =
    let first = terminate-Shrinks id m keyed in
    let m' = (terminate_session id m).0 in
    let rest = terminate_all-Shrinks ids m' (Shrinks-Keyed m m' first keyed) in
    λ k u at_k. first k u (rest k u at_k)

-- An id of a list.
data IsListed (id : Text) : List Text → Type 0 where
  here : {ids : List Text} → IsListed id (id ∷ ids)
  there : {j : Text} {ids : List Text} → IsListed id ids → IsListed id (j ∷ ids)

terminate_all-ending :
    (ids : List Text) (m : Manager) (id : Text) (u : Session)
    → Keyed m
    → IsListed id ids
    → lookup id (terminate_all ids m).sessions ≡ some u
    → is_ending u.state ≡ true
unfolding terminate_all
terminate_all-ending [] m id u keyed inside left = elim inside [ ]
terminate_all-ending (k ∷ ids) m id u keyed here left = elim (Bool-cases (is_ending u.state)) [
  | inl over ↦ over
  | inr live ↦
      let m' = (terminate_session id m).0 in
      let first = terminate-Shrinks id m keyed in
      let kept = terminate_all-Shrinks ids m' (Shrinks-Keyed m m' first keyed) id u left in
      let gone = terminate-gone id u m keyed (first id u kept) live in absurd (cc)
]
terminate_all-ending (k ∷ ids) m id u keyed (there inside) left =
    let m' = (terminate_session k m).0 in
    terminate_all-ending ids m' id u (Shrinks-Keyed m m' (terminate-Shrinks k m keyed) keyed) inside
      left

lookup-IsListed :
    (id : Text) (s : Session) (entries : GoMap Text Session)
    → lookup id entries ≡ some s
    → IsListed id (session_ids entries)
unfolding lookup session_ids
lookup-IsListed id s [] found = absurd (cc)
lookup-IsListed id s ((k, t) ∷ entries) found = elim (Bool-cases (k == id)) [
  | inl same ↦ subst (λ x. IsListed id (x ∷ session_ids entries)) (sym (beq_eq k id same)) here
  | inr other ↦ there (lookup-IsListed id s entries (rw other at found))
]

-- A session that is still registered after the first `Shutdown` was registered before, and was
-- ending already when `Shutdown` began. Each session must stand under its id.
pub shutdown-ending :
    (m : Manager) (id : Text) (u : Session)
    → m.shut_down ≡ false
    → Keyed m
    → lookup id (shutdown m).sessions ≡ some u
    → (lookup id m.sessions ≡ some u) × (is_ending u.state ≡ true)
unfolding shutdown
shutdown-ending m id u running keyed left =
    let marked = record m { shut_down = true } in
    let ids = session_ids m.sessions in
    let ended : shutdown m ≡ terminate_all ids marked = rw (shutdown, running) refl in
    let still : lookup id (terminate_all ids marked).sessions ≡ some u =
      subst (λ x. lookup id x.sessions ≡ some u) ended left in
    let before = terminate_all-Shrinks ids marked keyed id u still in
    (
      before,
      terminate_all-ending ids marked id u keyed (lookup-IsListed id u m.sessions before) still,
    )

terminate-shut_down :
    (id : Text) (m : Manager) → Keyed m → (terminate_session id m).0.shut_down ≡ m.shut_down
terminate-shut_down id m keyed = elim (terminate_session_cases id m keyed) [
  | inl (missing, e) ↦ ap (λ r. r.0.shut_down) e
  | inr (s, found, inl (over, e)) ↦ ap (λ r. r.0.shut_down) e
  | inr (s, found, inr (live, e)) ↦ ap (λ r. r.0.shut_down) e
]

terminate_all-shut_down :
    (ids : List Text) (m : Manager) → Keyed m → (terminate_all ids m).shut_down ≡ m.shut_down
unfolding terminate_all
terminate_all-shut_down [] m keyed = refl
terminate_all-shut_down (id ∷ ids) m keyed =
    terminate_all-shut_down ids (terminate_session id m).0
      (Shrinks-Keyed m (terminate_session id m).0 (terminate-Shrinks id m keyed) keyed)
    ∙ terminate-shut_down id m keyed

shutdown_again : (m : Manager) → m.shut_down ≡ true → shutdown m ≡ m
unfolding shutdown
shutdown_again m already = rw (shutdown, already) refl

refused_down :
    (r : Request) (m : Manager) → m.shut_down ≡ true → create_session r m ≡ (m, err shutting_down)
unfolding create_session check_admission
refused_down r m down = ground arith

shutdown-shut_down : (m : Manager) → Keyed m → (shutdown m).shut_down ≡ true
unfolding shutdown
shutdown-shut_down m keyed = elim (Bool-cases m.shut_down) [
  | inl already ↦ ap (λ x. x.shut_down) (shutdown_again m already) ∙ already
  | inr running ↦
      let ended : shutdown m
          ≡ terminate_all (session_ids m.sessions) (record m { shut_down = true }) =
        rw (shutdown, running) refl in
      ap (λ x. x.shut_down) ended ∙ terminate_all-shut_down (session_ids m.sessions) _ keyed
]

-- After `Shutdown` every `CreateSession` is refused and changes nothing, and so does another
-- `Shutdown`. Each session must stand under its id.
pub create_session-shutdown :
    (r : Request) (m : Manager)
    → Keyed m
    → (create_session r (shutdown m) ≡ (shutdown m, err shutting_down))
      × (shutdown (shutdown m) ≡ shutdown m)
create_session-shutdown r m keyed =
    let down = shutdown-shut_down m keyed in
    (refused_down r (shutdown m) down, shutdown_again (shutdown m) down)
