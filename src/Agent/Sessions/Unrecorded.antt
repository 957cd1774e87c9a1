-- ===== src/Agent/Sessions/Unrecorded.antt =====
-- A session whose recorder does not start, in the polls of `runAgent` that follow.
use rdp_warp_portal.Prelude.{
  ℕ, ◌≡◌, refl, ◌∙◌, inl, inr, Option, none, some, List, [], ◌∷◌, nat_eq, Option-cases, All,
}
use rdp_warp_portal.Prelude.Assoc.{GoMap, lookup}
use rdp_warp_portal.Agent.Sessions.{
  SessionInfo, Agent, current_map, on_logon, log_on, log_off, poll, run,
}
use rdp_warp_portal.Agent.Sessions.Balance.{Matches, Keyed, current_from-Keyed}
use rdp_warp_portal.Agent.Sessions.Covered.{on_logon_elsewhere, log_off-lookup}
use rdp_warp_portal.Agent.Sessions.Shutdown.{Sound, poll-Sound}

module _ {R : Type 0} where
  -- Every poll that lists the sessions finds the session.
  unfoldable pub Stays : ℕ → List ((SessionInfo → Option R) × Option (List SessionInfo)) → Type 0
  Stays id [] = Unit
  Stays id ((start, none) ∷ ticks) = Stays id ticks
  Stays id ((start, some sessions) ∷ ticks) =
      ((info : SessionInfo) × (lookup id (current_map sessions) ≡ some info)) × Stays id ticks

  log_on_known :
      (start : SessionInfo → Option R) (entries before : GoMap ℕ SessionInfo) (a : Agent R) (id : ℕ)
      (old : SessionInfo)
      → All Matches entries
      → lookup id before ≡ some old
      → lookup id (log_on start entries before a).recorders ≡ lookup id a.recorders
  unfolding log_on
  log_on_known start [] before a id old matches known = refl
  log_on_known start ((key, info) ∷ entries) before a id old (own, matches) known =
      elim (Option-cases (lookup key before)) [
        | inl new ↦
            rw (log_on, new)
              (log_on_known start entries before (on_logon start info a) id old matches known
                ∙ on_logon_elsewhere start info a id
                    (λ e. let same : key ≡ id = own ∙ e in absurd (cc)))
        | inr (other, here) ↦
            rw (log_on, here) (log_on_known start entries before a id old matches known)
      ]

  log_off-none :
      (entries current : GoMap ℕ SessionInfo) (a : Agent R) (id : ℕ)
      → All Matches entries
      → lookup id a.recorders ≡ none
      → lookup id (log_off entries current a).recorders ≡ none
  log_off-none entries current a id matches free =
      elim (Option-cases (lookup id (log_off entries current a).recorders)) [
        | inl gone ↦ gone
        | inr (r, left) ↦
            let (kept, there) = log_off-lookup entries current a id r matches left in absurd (cc)
      ]

  -- A session that the last poll has found and that has no recorder gets none, as long as the polls
  -- that list the sessions find it, whatever recorders would start.
  pub run_unrecorded :
      (ticks : List ((SessionInfo → Option R) × Option (List SessionInfo))) (a : Agent R) (id : ℕ)
      (info : SessionInfo)
      → Sound a
      → lookup id a.active_sessions ≡ some info
      → lookup id a.recorders ≡ none
      → Stays id ticks
      → lookup id (run ticks a).recorders ≡ none
  unfolding run poll Stays current_map
  run_unrecorded [] a id info sound known free stays = free
  run_unrecorded ((start, none) ∷ ticks) a id info sound known free stays =
      run_unrecorded ticks a id info sound known free stays
  run_unrecorded ((start, some sessions) ∷ ticks) a id info sound known free ((now, found), stays) =
      let current = current_map sessions in
      let keyed : Keyed current = current_from-Keyed sessions [] (tt, tt) in
      let logged = log_on start current a.active_sessions a in
      let still = log_on_known start current a.active_sessions a id info keyed.0 known ∙ free in
      run_unrecorded ticks (poll start (some sessions) a) id now
        (poll-Sound start (some sessions) a sound) found
        (log_off-none a.active_sessions current logged id sound.keyed.0 still) stays
