-- ===== src/Session/Manager/Threads/EndSteps.antt =====
-- Each step keeps the invariant: steps of `TerminateSession`, and of the gatekeepers.
use rdp_warp_portal.Prelude.{
  ◌≡◌, refl, sym, subst, ◌∙◌, true, false, none, some, inl, inr, text_eq, nat_eq, Text,
  if◌then◌else◌, ◌==◌, arith, Bool-cases, Option-cases, beq_eq,
}
use rdp_warp_portal.Prelude.Assoc.{
  lookup, insert, delete, insert-Distinct, delete-Distinct, lookup-insert, lookup-delete,
}
use rdp_warp_portal.Prelude.Weights.{weigh-replace, weigh-delete}
use rdp_warp_portal.Session.Manager.Create.{give_back}
use rdp_warp_portal.Session.Manager.Threads.Invariant.{live_weight, ending_weight, owners, Sound}
use rdp_warp_portal.Session.Manager.Threads.{System, Termination, Touch, connects, presents, touch}
use rdp_warp_portal.Session.Manager.{
  Session, is_ending, finish_termination, update, on_connected, validate_token,
}
use rdp_warp_portal.Session.PortPool.Release.{release_in_use, release-IsValid}
use rdp_warp_portal.Session.PortPool.{is_in_use}

-- A termination releases its port once it has ended the proxy.
pub releases-Sound :
    (x : System) (id : Text) (s : Session)
    → lookup id x.ending ≡ some (record { session = s; released = false })
    → Sound x
    → Sound (record x {
      manager = give_back s.external_port x.manager;
      ending = insert id (record { session = s; released = true }) x.ending;
    })
unfolding owners give_back
releases-Sound x id s found sound =
    let port = s.external_port in
    let holds : Termination = record { session = s; released = false } in
    let freed_one : Termination = record { session = s; released = true } in
    let less = weigh-replace (ending_weight port) id holds freed_one x.ending found in
    let used : is_in_use x.manager.port_pool port ≡ true =
      let at_most = sound.owned port in ground arith in
    let (_, freed) = release_in_use x.manager.port_pool port sound.pool_valid used in
    record {
      pool_valid = release-IsValid x.manager.port_pool port sound.pool_valid;
      building_distinct = sound.building_distinct;
      sessions_distinct = sound.sessions_distinct;
      ending_distinct = insert-Distinct id freed_one x.ending sound.ending_distinct;
      keyed = sound.keyed;
      separate = sound.separate;
      ends = λ k t at_k. elim (Bool-cases (id == k)) [
        | inl same ↦
            let here : some freed_one ≡ some t =
              sym (lookup-insert id k freed_one x.ending ∙ rw same refl) ∙ at_k in
            let its_id : t.session.id ≡ s.id = cc in
            let (own, registered) = sound.ends id holds found in
            subst
              (λ q.
                (t.session.id ≡ q)
                × ((u : Session) × (lookup q x.manager.sessions ≡ some u)
                    × (is_ending u.state ≡ true)))
              (beq_eq id k same) (its_id ∙ own, registered)
        | inr other ↦
            sound.ends k t (sym (lookup-insert id k freed_one x.ending ∙ rw other refl) ∙ at_k)
      ];
      owned = λ k.
          let before = sound.owned k in
          ground
            (arith, weigh-replace (ending_weight k) id holds freed_one x.ending found, freed k);
    }

pub finishes-Sound :
    (x : System) (id : Text) (s : Session)
    → lookup id x.ending ≡ some (record { session = s; released = true })
    → Sound x
    → Sound (record x { manager = finish_termination s x.manager; ending = delete id x.ending })
unfolding owners finish_termination
finishes-Sound x id s found sound =
    let (same, (u, registered, ends)) =
      sound.ends id (record { session = s; released = true }) found in
    let at_s : lookup s.id x.manager.sessions ≡ some u =
      subst (λ k. lookup k x.manager.sessions ≡ some u) (sym same) registered in
    record {
      pool_valid = sound.pool_valid;
      building_distinct = sound.building_distinct;
      sessions_distinct = delete-Distinct s.id x.manager.sessions sound.sessions_distinct;
      ending_distinct = delete-Distinct id x.ending sound.ending_distinct;
      keyed = λ k v at_k. ground (arith, lookup-delete s.id k x.manager.sessions, sound.keyed k v);
      separate =
          λ k v at_k. ground (arith, lookup-delete s.id k x.manager.sessions, sound.separate k v);
      ends = λ k t at_k.
          let apart : (id == k) ≡ false = ground (arith, lookup-delete id k x.ending) in
          let still : lookup k x.ending ≡ some t = ground (arith, lookup-delete id k x.ending) in
          let (own, (v, registered, over)) = sound.ends k t still in
          (
            own,
            (
              v,
              lookup-delete s.id k x.manager.sessions
                  ∙ subst (λ q. (if q == k then none else lookup k x.manager.sessions) ≡ some v)
                      (sym same) (rw apart registered),
              over,
            ),
          );
      owned = λ k.
          let before = sound.owned k in
          ground (
            arith,
            weigh-delete (live_weight k) s.id u x.manager.sessions sound.sessions_distinct at_s,
            weigh-delete (ending_weight k) id (record { session = s; released = true }) x.ending
                sound.ending_distinct found,
          );
    }

touch_keeps :
    (t : Touch) (s : Session)
    → ((touch t s).id ≡ s.id)
      × ((touch t s).external_port ≡ s.external_port)
      × (is_ending (touch t s).state ≡ is_ending s.state)
unfolding touch on_connected validate_token is_ending
touch_keeps (connects now) s = (ground arith, ground arith, ground arith)
touch_keeps (presents now value target) s = (ground arith, ground arith, ground arith)

-- A session under its id is replaced by one that weighs the same.
replaces-Sound :
    (x : System) (id : Text) (s u : Session)
    → lookup id x.manager.sessions ≡ some s
    → u.id ≡ s.id
    → u.external_port ≡ s.external_port
    → is_ending u.state ≡ is_ending s.state
    → Sound x
    → Sound (record x { manager = record x.manager { sessions = insert id u x.manager.sessions } })
unfolding owners
replaces-Sound x id s u found same_id same_port same_end sound =
    let at : (k : Text)
        → lookup k (insert id u x.manager.sessions)
          ≡ (if id == k then some u else lookup k x.manager.sessions) =
      λ k. lookup-insert id k u x.manager.sessions in
    record {
      pool_valid = sound.pool_valid;
      building_distinct = sound.building_distinct;
      sessions_distinct = insert-Distinct id u x.manager.sessions sound.sessions_distinct;
      ending_distinct = sound.ending_distinct;
      keyed = λ k v at_k. elim (Bool-cases (id == k)) [
        | inl same ↦
            let here : some u ≡ some v = sym (at k ∙ rw same refl) ∙ at_k in
            let its_id : v.id ≡ u.id = cc in
            its_id ∙ same_id ∙ sound.keyed id s found ∙ beq_eq id k same
        | inr other ↦ sound.keyed k v (sym (at k ∙ rw other refl) ∙ at_k)
      ];
      separate = λ k v at_k. ground (arith, at k, sound.separate k v, beq_eq id k);
      ends = λ k t at_k.
          let (own, (v, registered, over)) = sound.ends k t at_k in
          elim (Bool-cases (id == k)) [
            | inl same ↦
                let both : some s ≡ some v =
                  sym found
                  ∙ subst (λ q. lookup q x.manager.sessions ≡ some v) (sym (beq_eq id k same))
                      registered in
                let its_end : is_ending s.state ≡ is_ending v.state = cc in
                (own, (u, at k ∙ rw same refl, same_end ∙ its_end ∙ over))
            | inr other ↦ (own, (v, at k ∙ rw other registered, over))
          ];
      owned = λ k.
          let before = sound.owned k in
          ground (arith, weigh-replace (live_weight k) id s u x.manager.sessions found);
    }

pub touches-Sound :
    (x : System) (id : Text) (t : Touch)
    → Sound x
    → Sound (record x { manager = update id (touch t) x.manager })
unfolding update
touches-Sound x id t sound = elim (Option-cases (lookup id x.manager.sessions)) [
  | inl missing ↦ rw (update, missing) sound
  | inr (s, found) ↦
      let (same_id, same_port, same_end) = touch_keeps t s in
      rw (update, found) (replaces-Sound x id s (touch t s) found same_id same_port same_end sound)
]
