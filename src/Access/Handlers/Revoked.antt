-- ===== src/Access/Handlers/Revoked.antt =====
-- After a revocation that succeeds.
use rdp_warp_portal.Prelude.{
  ◌≡◌, refl, sym, subst, ap, ◌∙◌, ◌⊎◌, Option-cases, inl, inr, true, false, none, some, [], text_eq,
  Text, arith, err, Bool-cases, ◌==◌, beq_refl, Option,
}
use rdp_warp_portal.Prelude.Assoc.{lookup, lookup-delete}
use rdp_warp_portal.Access.Handlers.Revoking.{end_each-Shrinks, end_each-ending, list_sessions-IsIn}
use rdp_warp_portal.Access.Handlers.{
  status_ok, forbidden, bad_email, end_each, post_revoke, post_session, open_for,
}
use rdp_warp_portal.Access.Store.{
  MemoryStore, grant_key, grant_key_eq, find_grant, grant_not_found, revoke_access, has_access,
}
use rdp_warp_portal.Session.Manager.Create.{Request}
use rdp_warp_portal.Session.Manager.Ending.{Keyed}
use rdp_warp_portal.Session.Manager.Queries.{matches_user, list_sessions}
use rdp_warp_portal.Session.Manager.{Manager, Session, is_ending}

module _ {K : Type 0} where
  find_grant-revoke_access :
      (email hostname : Text) (s : MemoryStore K)
      → find_grant email hostname (revoke_access email hostname s) ≡ err grant_not_found
  unfolding find_grant revoke_access
  find_grant-revoke_access email hostname s =
      let key = grant_key email hostname in
      let gone : lookup key (revoke_access email hostname s).grants ≡ none =
        lookup-delete key key s.grants ∙ rw (beq_refl key) refl in
      rw (find_grant, gone) refl

  -- What a revocation does when it answers with success.
  revoke-ok :
      (email hostname : Text) (store store' : MemoryStore K) (m m' : Manager)
      → post_revoke (some (email, hostname)) (store, m) ≡ ((store', m'), status_ok)
      → (bad_email email ≡ false)
        × ((hostname == []) ≡ false)
        × (store' ≡ revoke_access email hostname store)
        × (m' ≡ end_each (list_sessions email m) m)
  unfolding post_revoke
  revoke-ok email hostname store store' m m' h = elim (Bool-cases (bad_email email)) [
    | inl bad ↦ absurd (cc (rw (bad, post_revoke) at h))
    | inr good ↦ elim (Bool-cases (hostname == [])) [
      | inl e ↦ absurd (cc (rw (good, post_revoke, e) at h))
      | inr e ↦ elim (Bool-cases (has_access email hostname store)) [
        | inr n ↦ absurd (cc (rw (good, post_revoke, e, n) at h))
        | inl y ↦
            let made = rw (good, post_revoke, e, y) at h in
            (good, e, sym (ap (λ r. r.0.0) made), sym (ap (λ r. r.0.1) made))
      ]
    ]
  ]

  -- A session of the user that is left was there and was ending.
  ended_before :
      (email hostname id : Text) (store store' : MemoryStore K) (m m' : Manager) (u : Session)
      → Keyed m
      → post_revoke (some (email, hostname)) (store, m) ≡ ((store', m'), status_ok)
      → lookup id m'.sessions ≡ some u
      → matches_user u.user_id email ≡ true
      → (lookup id m.sessions ≡ some u) × (is_ending u.state ≡ true)
  ended_before email hostname id store store' m m' u keyed h left mine =
      let (filled, named, in_store, in_manager) = revoke-ok email hostname store store' m m' h in
      let still : lookup id (end_each (list_sessions email m) m).sessions ≡ some u =
        subst (λ x. lookup id x.sessions ≡ some u) in_manager left in
      let before = end_each-Shrinks (list_sessions email m) m keyed id u still in
      (
        before,
        end_each-ending (list_sessions email m) m id u keyed
            (list_sessions-IsIn email id u m before mine) still,
      )

  module _ (resolve : Option (Text → Option Text)) (outside : Request) where
    refused :
        (email hostname client_ip : Text) (s : MemoryStore K) (m : Manager)
        → bad_email email ≡ false
        → (hostname == []) ≡ false
        → find_grant email hostname s ≡ err grant_not_found
        → post_session resolve outside (some hostname) email client_ip s m ≡ (m, (forbidden, none))
    unfolding post_session open_for bad_email
    refused email hostname client_ip s m filled named missing =
        let email_given : (email == []) ≡ false = ground arith in
        rw (named, post_session, email_given, open_for, missing) refl

    -- After a revocation that answers with success a request of that user for that host is answered with
    -- 403 and changes nothing; and under any id there is no session any more, or one of another user, or
    -- one that was there before and was ending already. Each session must stand under its id.
    pub post_revoke-ok :
        (email hostname client_ip id : Text) (store store' : MemoryStore K) (m m' : Manager)
        → Keyed m
        → post_revoke (some (email, hostname)) (store, m) ≡ ((store', m'), status_ok)
        → (post_session resolve outside (some hostname) email client_ip store' m'
            ≡ (m', (forbidden, none)))
          × ((lookup id m'.sessions ≡ none)
              ⊎ (u : Session) × (lookup id m'.sessions ≡ some u)
                × ((matches_user u.user_id email ≡ false)
                    ⊎ ((lookup id m.sessions ≡ some u) × (is_ending u.state ≡ true))))
    post_revoke-ok email hostname client_ip id store store' m m' keyed h =
        let (filled, named, in_store, in_manager) = revoke-ok email hostname store store' m m' h in
        (
          refused email hostname client_ip store' m' filled named (
              ap (find_grant email hostname) in_store
              ∙ find_grant-revoke_access email hostname store),
          elim (Option-cases (lookup id m'.sessions)) [
            | inl gone ↦ inl gone
            | inr (u, left) ↦ inr (
              u,
              left,
              elim (Bool-cases (matches_user u.user_id email)) [
                | inr other ↦ inl other
                | inl mine ↦
                    inr (ended_before email hostname id store store' m m' u keyed h left mine)
              ],
            )
          ],
        )
