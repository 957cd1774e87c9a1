-- ===== src/Session/ProxyProcess/Waiting.antt =====
-- `WaitReady` of proxy/internal/session/proxy.go ends, and how.
use rdp_warp_portal.Prelude.{
  ℕ, zero, suc, ◌+◌, ◌≤◌, ◌<◌, ◌≡◌, refl, ◌⊎◌, ◌-◌, true, false, some, ltb, Result, ok, err, arith,
  Bool-cases, inl, inr,
}
use rdp_warp_portal.Session.ProxyProcess.{
  WaitError, proxy_not_ready, wait_cancelled, Dialing, wait_from, wait_for_port,
}

module _ (d : Dialing) (start : ℕ) where
  -- When a round begins: each one before it took its dial and 50 milliseconds.
  unfoldable pub began : ℕ → ℕ
  began zero = start
  began (suc round) = began round + d.took round + 50

  module _ (deadline : ℕ) where
    -- The rounds before this one began in time and came to nothing: no dial was accepted, and the
    -- context was not done.
    abbrev pub Missed : ℕ → Type 0
    Missed rounds =
        (k : ℕ)
        → k < rounds
        → (began k < deadline)
          × (d.done_before k ≡ false)
          × (d.accepted k ≡ false)
          × (d.done_after k ≡ false)

    -- What a result of the wait says of the rounds.
    abbrev pub Explains : Result WaitError ℕ → Type 0
    Explains (ok round) =
        Missed round
        × (began round < deadline)
        × (d.done_before round ≡ false)
        × (d.accepted round ≡ true)
    Explains (err wait_cancelled) =
        (round : ℕ) × Missed round
        × (began round < deadline)
        × ((d.done_before round ≡ true)
            ⊎ ((d.accepted round ≡ false) × (d.done_after round ≡ true)))
    Explains (err proxy_not_ready) = (rounds : ℕ) × Missed rounds × (deadline ≤ began rounds)

    -- One more round that came to nothing.
    Missed-suc :
        (round : ℕ)
        → Missed round
        → began round < deadline
        → d.done_before round ≡ false
        → d.accepted round ≡ false
        → d.done_after round ≡ false
        → Missed (suc round)
    Missed-suc round before early on missed still k h = elim (Bool-cases (ltb k round)) [
      | inl earlier ↦ before k (ground arith)
      | inr now ↦ let same : k ≡ round = ground arith in rw same (early, on, missed, still)
    ]

    wait_from_ends :
        (fuel round : ℕ)
        → deadline - began round < fuel
        → Missed round
        → (result : Result WaitError ℕ) × (wait_from fuel round (began round) deadline d
            ≡ some result)
          × Explains result
    unfolding wait_from began
    wait_from_ends zero round h before = absurd (omega arith)
    wait_from_ends (suc fuel) round h before = elim (Bool-cases (ltb (began round) deadline)) [
      | inr late ↦ (err proxy_not_ready, rw (wait_from, late) refl, (round, before, ground arith))
      | inl early ↦
          let in_time : began round < deadline = ground arith in
          elim (Bool-cases (d.done_before round)) [
            | inl over ↦ (
              err wait_cancelled,
              rw (wait_from, early, over) refl,
              (round, before, in_time, inl over),
            )
            | inr on ↦ elim (Bool-cases (d.accepted round)) [
              | inl hit ↦
                  (ok round, rw (wait_from, early, on, hit) refl, (before, in_time, on, hit))
              | inr missed ↦ elim (Bool-cases (d.done_after round)) [
                | inl over ↦ (
                  err wait_cancelled,
                  rw (wait_from, early, on, missed, over) refl,
                  (round, before, in_time, inr (missed, over)),
                )
                | inr still ↦
                    let (result, same, why) =
                      wait_from_ends fuel (suc round) (ground arith)
                        (Missed-suc round before in_time on missed still) in
                    (result, rw (wait_from, early, on, missed, still) same, why)
              ]
            ]
          ]
    ]

-- The wait for the proxy always ends, with a result that says what happened. The rounds before the last
-- one began before the deadline, had no dial accepted and did not find the context done. Then a round
-- began before the deadline and its dial was accepted, or it found the context done before its dial or
-- after one that was not accepted; or, for a proxy that is not ready, the deadline had come when the next
-- round was to begin. Each round takes its dial and 50 milliseconds.
pub wait_for_port_ends :
    (now timeout : ℕ) (d : Dialing)
    → (result : Result WaitError ℕ) × (wait_for_port now timeout d ≡ some result)
      × Explains d now (now + timeout) result
unfolding wait_for_port began
wait_for_port_ends now timeout d =
    wait_from_ends d now (now + timeout) (suc timeout) 0 (omega arith) (λ k h. absurd (omega arith))
