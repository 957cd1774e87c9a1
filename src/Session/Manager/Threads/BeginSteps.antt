-- ===== src/Session/Manager/Threads/BeginSteps.antt =====
-- Each step keeps the invariant: the start of a termination.
use rdp_warp_portal.Prelude.{
  ◌≡◌, refl, sym, ap, subst, ◌∙◌, false, Option, none, some, inl, inr, text_eq, nat_eq, Text,
  if◌then◌else◌, ◌==◌, Result, ok, arith, Bool-cases, Option-cases, beq_eq,
}
use rdp_warp_portal.Prelude.Assoc.{lookup, insert, insert-Distinct, lookup-insert}
use rdp_warp_portal.Prelude.Weights.{weigh-insert, weigh-replace}
use rdp_warp_portal.Session.Manager.Threads.Invariant.{live_weight, ending_weight, owners, Sound}
use rdp_warp_portal.Session.Manager.Threads.{System, Termination}
use rdp_warp_portal.Session.Manager.{
  Manager, ManagerError, Session, terminating, is_ending, begin_termination,
}

-- A termination that begins found its session, which was not ending.
begin-some :
    (id : Text) (m m' : Manager) (s : Session)
    → begin_termination id m ≡ (m', ok (some s))
    → (u : Session) × (lookup id m.sessions ≡ some u)
      × (is_ending u.state ≡ false)
      × (record u { state = terminating } ≡ s)
      × (record m { sessions = insert id (record u { state = terminating }) m.sessions } ≡ m')
unfolding begin_termination
begin-some id m m' s h = elim (Option-cases (lookup id m.sessions)) [
  | inl missing ↦ absurd (cc (rw (missing, begin_termination) at h))
  | inr (u, found) ↦ elim (Bool-cases (is_ending u.state)) [
    | inl over ↦ absurd (cc (rw (found, begin_termination, over) at h))
    | inr live ↦
        let made = rw (found, begin_termination, live) at h in
        let given : ◌≡◌ {A = Result ManagerError (Option Session)}
            (ok (some (record u { state = terminating }))) (ok (some s)) =
          ap (λ r. r.1) made in
        (u, found, live, cc, ap (λ r. r.0) made)
  ]
]

-- The system after a live session `u` has begun to end.
abbrev begun : Text → Session → System → System
begun id u x = record x {
  manager = record x.manager {
    sessions = insert id (record u { state = terminating }) x.manager.sessions;
  };
  ending =
      insert id (record { session = record u { state = terminating }; released = false }) x.ending;
}

begun-Sound :
    (x : System) (id : Text) (u : Session)
    → lookup id x.manager.sessions ≡ some u
    → is_ending u.state ≡ false
    → Sound x
    → Sound (begun id u x)
unfolding owners is_ending
begun-Sound x id u found live sound =
    let s : Session = record u { state = terminating } in
    let t : Termination = record { session = s; released = false } in
    let at : (k : Text)
        → lookup k (insert id s x.manager.sessions)
          ≡ (if id == k then some s else lookup k x.manager.sessions) =
      λ k. lookup-insert id k s x.manager.sessions in
    let own : u.id ≡ id = sound.keyed id u found in
    let not_yet : lookup id x.ending ≡ none = elim (Option-cases (lookup id x.ending)) [
      | inl e ↦ e
      | inr (old, e) ↦
          let (_, (v, registered, over)) = sound.ends id old e in
          let both : some u ≡ some v = sym found ∙ registered in
          let its_end : is_ending u.state ≡ is_ending v.state = cc in absurd (cc)
    ] in
    record {
      pool_valid = sound.pool_valid;
      building_distinct = sound.building_distinct;
      sessions_distinct = insert-Distinct id s x.manager.sessions sound.sessions_distinct;
      ending_distinct = insert-Distinct id t x.ending sound.ending_distinct;
      keyed = λ k v at_k. elim (Bool-cases (id == k)) [
        | inl same ↦
            let here : some s ≡ some v = sym (at k ∙ rw same refl) ∙ at_k in
            let its_id : v.id ≡ u.id = cc in its_id ∙ own ∙ beq_eq id k same
        | inr other ↦ sound.keyed k v (sym (at k ∙ rw other refl) ∙ at_k)
      ];
      separate = λ k v at_k. ground (arith, at k, sound.separate k v, beq_eq id k);
      ends = λ k r at_k. elim (Bool-cases (id == k)) [
        | inl same ↦
            let here : some t ≡ some r =
              sym (lookup-insert id k t x.ending ∙ rw same refl) ∙ at_k in
            let its_id : r.session.id ≡ u.id = cc in
            (its_id ∙ own ∙ beq_eq id k same, (s, at k ∙ rw same refl, refl))
        | inr other ↦
            let (its_id, (v, registered, over)) =
              sound.ends k r (sym (lookup-insert id k t x.ending ∙ rw other refl) ∙ at_k) in
            (its_id, (v, at k ∙ rw other registered, over))
      ];
      owned = λ k.
          let before = sound.owned k in
          ground (
            arith,
            weigh-replace (live_weight k) id u s x.manager.sessions found,
            weigh-insert (ending_weight k) id t x.ending not_yet,
          );
    }

pub begins-Sound :
    (x : System) (id : Text) (m : Manager) (s : Session)
    → begin_termination id x.manager ≡ (m, ok (some s))
    → Sound x
    → Sound (record x {
      manager = m;
      ending = insert id (record { session = s; released = false }) x.ending;
    })
begins-Sound x id m s h sound =
    let (u, found, live, same, left) = begin-some id x.manager m s h in
    subst
      (λ m'. Sound (record x {
        manager = m';
        ending = insert id (record { session = s; released = false }) x.ending;
      }))
      left
      (subst
        (λ v. Sound (record x {
          manager = (begun id u x).manager;
          ending = insert id (record { session = v; released = false }) x.ending;
        }))
        same (begun-Sound x id u found live sound))
