-- ===== src/Agent/Sessions/Shutdown.antt =====
-- The polls and the shutdown of `runAgent` as a whole.
use rdp_warp_portal.Prelude.{
  ℕ, ◌+◌, ◌≡◌, refl, ◌∙◌, sym, inl, inr, Option, none, some, List, [], ◌∷◌, nat_eq, arith,
  Option-cases,
}
use rdp_warp_portal.Prelude.Assoc.{GoMap, lookup}
use rdp_warp_portal.Prelude.Weights.{total_of, weigh}
use rdp_warp_portal.Agent.Sessions.{
  SessionInfo, Agent, current_map, log_on, poll, run, stop_all_from, stop_all, new_agent,
}
use rdp_warp_portal.Agent.Sessions.Balance.{Keyed, Balanced, current_from-Keyed, log_off-Balanced}
use rdp_warp_portal.Agent.Sessions.Covered.{log_on-Balanced, log_on-lookup, log_off-lookup}

module _ {R : Type 0} where
  -- Every recorder of the map is that of a session of the last poll, and the recorders that are started
  -- are those that are stopped and those of the map.
  pub record Sound (a : Agent R) : Type 0 where
    pub keyed : Keyed a.active_sessions
    pub balanced : Balanced a
    pub covered :
        (id : ℕ) (r : R)
        → lookup id a.recorders ≡ some r
        → (info : SessionInfo) × (lookup id a.active_sessions ≡ some info)

  pub new_agent-Sound : Sound new_agent
  unfolding new_agent total_of weigh lookup
  new_agent-Sound = record {
    keyed = (tt, tt);
    balanced = record { distinct = tt; weights = λ f. refl };
    covered = λ id r h. absurd (cc);
  }

  pub poll-Sound :
      (start : SessionInfo → Option R) (sessions : Option (List SessionInfo)) (a : Agent R)
      → Sound a
      → Sound (poll start sessions a)
  unfolding poll current_map
  poll-Sound start none a s = s
  poll-Sound start (some sessions) a s =
      let current = current_map sessions in
      let keyed : Keyed current = current_from-Keyed sessions [] (tt, tt) in
      let logged = log_on start current a.active_sessions a in
      let started =
        log_on-Balanced start current a.active_sessions a keyed
          (λ id info found new. elim (Option-cases (lookup id a.recorders)) [
            | inl free ↦ free
            | inr (r, running) ↦ let (old, known) = s.covered id r running in absurd (cc)
          ])
          s.balanced in
      let ended = log_off-Balanced a.active_sessions current logged started in
      record {
        keyed = keyed;
        balanced = record { distinct = ended.distinct; weights = ended.weights };
        covered = λ id r found.
            let (kept, there) =
              log_off-lookup a.active_sessions current logged id r s.keyed.0 found in
            elim there [
              | inl now ↦ now
              | inr unknown ↦
                  elim (log_on-lookup start current a.active_sessions a id r keyed.0 kept) [
                    | inl before ↦ let (old, known) = s.covered id r before in absurd (cc)
                    | inr now ↦ now
                  ]
            ];
      }

  -- Whatever sessions the polls find and whichever recorders start, every recorder of the map belongs
  -- to a session that the last successful poll has found, and the recorders that were started are
  -- together those that were stopped and those of the map.
  pub run-Sound :
      (ticks : List ((SessionInfo → Option R) × Option (List SessionInfo))) (a : Agent R)
      → Sound a
      → Sound (run ticks a)
  unfolding run
  run-Sound [] a s = s
  run-Sound ((start, sessions) ∷ ticks) a s =
      run-Sound ticks (poll start sessions a) (poll-Sound start sessions a s)

  stop_all_from-total_of :
      (f : R → ℕ) (entries : GoMap ℕ R) (stopped : List R)
      → total_of f (stop_all_from entries stopped) ≡ total_of f stopped + weigh f entries
  unfolding stop_all_from total_of weigh
  stop_all_from-total_of f [] stopped = omega arith
  stop_all_from-total_of f ((id, r) ∷ entries) stopped =
      omega (arith, stop_all_from-total_of f entries (r ∷ stopped))

  -- From the start to the end of the agent, every recorder that is started is stopped once: whatever is
  -- counted of the one list is counted of the other.
  pub stop_all-run :
      (ticks : List ((SessionInfo → Option R) × Option (List SessionInfo))) (f : R → ℕ)
      → total_of f (stop_all (run ticks new_agent)).stopped
        ≡ total_of f (run ticks new_agent).started
  unfolding stop_all
  stop_all-run ticks f =
      let a = run ticks new_agent in
      let sound = run-Sound ticks new_agent new_agent-Sound in
      stop_all_from-total_of f a.recorders a.stopped ∙ sym (sound.balanced.weights f)
