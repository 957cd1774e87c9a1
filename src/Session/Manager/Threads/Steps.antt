-- ===== src/Session/Manager/Threads/Steps.antt =====
-- Each step keeps the invariant: steps of `CreateSession`.
use rdp_warp_portal.Prelude.{
  ℕ, ◌+◌, ◌≡◌, refl, sym, ◌∙◌, true, none, some, inl, inr, text_eq, nat_eq, ◌==◌, ok, arith,
  Bool-cases, beq_eq,
}
use rdp_warp_portal.Prelude.Assoc.{
  lookup, insert, delete, insert-Distinct, delete-Distinct, lookup-insert, lookup-delete,
}
use rdp_warp_portal.Prelude.Weights.{weigh-insert, weigh-delete}
use rdp_warp_portal.Session.Manager.Create.{give_back}
use rdp_warp_portal.Session.Manager.Threads.Invariant.{port_weight, live_weight, owners, Sound}
use rdp_warp_portal.Session.Manager.Threads.{System}
use rdp_warp_portal.Session.Manager.{Session, active, is_ending, register}
use rdp_warp_portal.Session.PortPool.Alloc.{allocate_marks, allocate-IsValid}
use rdp_warp_portal.Session.PortPool.Release.{release_in_use, release-IsValid}
use rdp_warp_portal.Session.PortPool.{allocate, is_in_use}

-- An owner's port is in use.
pub owned-in_use :
    (x : System) (port n : ℕ)
    → Sound x
    → owners port x ≡ n + 1
    → is_in_use x.manager.port_pool port ≡ true
owned-in_use x port n sound some_owner = let at_most = sound.owned port in ground arith

pub takes-Sound :
    (x : System) (n : ℕ) (s : Session)
    → (allocate x.manager.port_pool).1 ≡ ok (s.external_port, s.internal_port)
    → lookup s.id x.building ≡ none
    → lookup s.id x.manager.sessions ≡ none
    → Sound x
    → Sound (record x {
      admitted = n;
      manager = record x.manager { port_pool = (allocate x.manager.port_pool).0 };
      building = insert s.id s x.building;
    })
unfolding owners
takes-Sound x n s got new unregistered sound =
    let (free, marks) = allocate_marks x.manager.port_pool s.external_port s.internal_port got in
    record {
      pool_valid = allocate-IsValid x.manager.port_pool sound.pool_valid;
      building_distinct = insert-Distinct s.id s x.building sound.building_distinct;
      sessions_distinct = sound.sessions_distinct;
      ending_distinct = sound.ending_distinct;
      keyed = sound.keyed;
      separate = λ id u found.
          ground (arith, lookup-insert s.id id s x.building, beq_eq s.id id, sound.separate id u);
      ends = sound.ends;
      owned = λ port.
          let before = sound.owned port in
          ground (arith, weigh-insert (port_weight port) s.id s x.building new, marks port);
    }

-- A creation that fails after `Allocate` releases its port.
pub gives_up-Sound :
    (x : System) (s : Session)
    → lookup s.id x.building ≡ some s
    → Sound x
    → Sound (record x {
      manager = give_back s.external_port x.manager;
      building = delete s.id x.building;
    })
unfolding owners give_back
gives_up-Sound x s found sound =
    let port = s.external_port in
    let less = weigh-delete (port_weight port) s.id s x.building sound.building_distinct found in
    let used : is_in_use x.manager.port_pool port ≡ true =
      let at_most = sound.owned port in ground arith in
    let (_, freed) = release_in_use x.manager.port_pool port sound.pool_valid used in
    record {
      pool_valid = release-IsValid x.manager.port_pool port sound.pool_valid;
      building_distinct = delete-Distinct s.id x.building sound.building_distinct;
      sessions_distinct = sound.sessions_distinct;
      ending_distinct = sound.ending_distinct;
      keyed = sound.keyed;
      separate =
          λ id u at_id. ground (arith, lookup-delete s.id id x.building, sound.separate id u);
      ends = sound.ends;
      owned = λ k.
          let before = sound.owned k in
          ground (
            arith,
            weigh-delete (port_weight k) s.id s x.building sound.building_distinct found,
            freed k,
          );
    }

pub registers-Sound :
    (x : System) (s : Session)
    → lookup s.id x.building ≡ some s
    → Sound x
    → Sound (record x { manager = register s x.manager; building = delete s.id x.building })
unfolding owners register is_ending
registers-Sound x s found sound =
    let new = sound.separate s.id s found in
    let s' = record s { state = active } in
    record {
      pool_valid = sound.pool_valid;
      building_distinct = delete-Distinct s.id x.building sound.building_distinct;
      sessions_distinct = insert-Distinct s.id s' x.manager.sessions sound.sessions_distinct;
      ending_distinct = sound.ending_distinct;
      keyed = λ id u at_id. elim (Bool-cases (s.id == id)) [
        | inl same ↦
            let same_session : some s' ≡ some u =
              sym (lookup-insert s.id id s' x.manager.sessions ∙ rw same refl) ∙ at_id in
            let same_id : s.id ≡ u.id = cc in sym same_id ∙ beq_eq s.id id same
        | inr other ↦
            sound.keyed id u
              (sym (lookup-insert s.id id s' x.manager.sessions ∙ rw other refl) ∙ at_id)
      ];
      separate = λ id u at_id. ground (
        arith,
        lookup-delete s.id id x.building,
        lookup-insert s.id id s' x.manager.sessions,
        sound.separate id u,
      );
      ends = λ id t at_id.
          let (same, (u, registered, ends)) = sound.ends id t at_id in
          (
            same,
            (
              u,
              (ground (arith, lookup-insert s.id id s' x.manager.sessions, beq_eq s.id id)),
              ends,
            ),
          );
      owned = λ k.
          let before = sound.owned k in
          ground (
            arith,
            weigh-delete (port_weight k) s.id s x.building sound.building_distinct found,
            weigh-insert (live_weight k) s.id s' x.manager.sessions new,
          );
    }
