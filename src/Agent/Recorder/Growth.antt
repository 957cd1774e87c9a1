-- ===== src/Agent/Recorder/Growth.antt =====
-- What a call of agent/internal/client/client.go adds to the file of the broker.
use rdp_warp_portal.Prelude.{
  ℕ, zero, suc, ◌+◌, ◌≤◌, ◌≡◌, ap, sym, ◌∙◌, true, false, some, List, Text, ok, arith, Result-cases,
  inl, inr, Bool,
}
use rdp_warp_portal.Prelude.Weights.{total_of}
use rdp_warp_portal.Agent.Client.{
  ClientError, Network, answered, buffer, do_with_retry, read_status, status_error,
}
use rdp_warp_portal.Agent.Client
use rdp_warp_portal.Agent.Client.Broker.{status_error-send_events}
use rdp_warp_portal.Agent.Events.{RecordingEvent}
use rdp_warp_portal.Agent.Recorder.Delivery.{accepted}
use rdp_warp_portal.Agent.Recorder.Stored.{
  Attempt, unreached, served, attempt_on, disk_after, network_of, retry_from-answered,
}
use rdp_warp_portal.Recording.Api
use rdp_warp_portal.Recording.Store.{Disk, whole}
use rdp_warp_portal.Recording.Appending.{stored, ending_of, append_events-grows}

-- A file that ends well after the second state ended well at the first, and has lost nothing.
abbrev Onward : (RecordingEvent → ℕ) → Text → Disk RecordingEvent → Disk RecordingEvent → Type 0
Onward f id disk disk' =
    ending_of id disk' ≡ whole
    → (ending_of id disk ≡ whole) × (stored f id disk ≤ stored f id disk')

module _ (f : RecordingEvent → ℕ) where
  attempt_on-grows :
      (id : Text) (events : List RecordingEvent) (a : Attempt) (disk : Disk RecordingEvent)
      → Onward f id disk (attempt_on id events a disk).0
  unfolding attempt_on Api.send_events
  attempt_on-grows id events unreached disk = λ h. (h, omega arith)
  attempt_on-grows id events (served copy write heard) disk = λ h.
      let (before, grows, all) = append_events-grows f copy write id events disk h in
      (before, grows)

  attempt_on-ok :
      (id : Text) (events : List RecordingEvent) (a : Attempt) (disk : Disk RecordingEvent)
      (status : ℕ) (content : Text)
      → ending_of id (attempt_on id events a disk).0 ≡ whole
      → (attempt_on id events a disk).1 ≡ answered status content
      → status_error 200 204 status ≡ ok tt
      → stored f id (attempt_on id events a disk).0 ≡ stored f id disk + total_of f events
  unfolding attempt_on Api.send_events
  attempt_on-ok id events unreached disk status content ends here good = absurd (cc)
  attempt_on-ok id events (served copy write false) disk status content ends here good = absurd (cc)
  attempt_on-ok id events (served copy write true) disk status content ends here good =
      let answer : (Api.send_events (some events) copy write id disk).1 ≡ status = cc in
      let (before, grows, all) = append_events-grows f copy write id events disk ends in
      all (
        (status_error-send_events events copy write id disk).0.0
          (ap (status_error 200 204) answer ∙ good))

  disk_after-grows :
      (id : Text) (events : List RecordingEvent) (attempts : ℕ → Attempt)
      (disk : Disk RecordingEvent) (n : ℕ)
      → Onward f id disk (disk_after id events attempts disk n)
  unfolding disk_after
  disk_after-grows id events attempts disk zero = λ h. (h, omega arith)
  disk_after-grows id events attempts disk (suc n) = λ h.
      let before = disk_after id events attempts disk n in
      let (last, more) = attempt_on-grows id events (attempts n) before h in
      let (first, grows) = disk_after-grows id events attempts disk n last in
      (first, omega (arith, more, grows))

  -- If the file ends well after a call of the client, it did before, and what the call adds to it is at
  -- least what it says is accepted.
  pub exchange_lem :
      (id : Text) (events : List RecordingEvent) (attempts : ℕ → Attempt) (cancelled : ℕ → Bool)
      (disk : Disk RecordingEvent)
      → ending_of id (
          disk_after id events attempts disk
            (do_with_retry (network_of id events attempts cancelled disk) buffer).attempts)
        ≡ whole
      → (ending_of id disk ≡ whole)
        × (stored f id disk
              + total_of f (
                  accepted events
                    (Client.send_events true (network_of id events attempts cancelled disk)))
            ≤ stored f id (
                disk_after id events attempts disk
                  (do_with_retry (network_of id events attempts cancelled disk) buffer).attempts))
  unfolding Client.send_events do_with_retry read_status accepted total_of disk_after
  exchange_lem id events attempts cancelled disk ends =
      let net = network_of id events attempts cancelled disk in
      let o = do_with_retry net buffer in
      let (before, grows) = disk_after-grows id events attempts disk o.attempts ends in
      (
        before,
        elim (Result-cases o.result) [
          | inl (e, bad) ↦ rw (Client.send_events, bad) (omega (arith, grows))
          | inr ((status, content), good) ↦ elim (Result-cases (status_error 200 204 status)) [
            | inl (e, refused) ↦ rw (Client.send_events, good, refused) (omega (arith, grows))
            | inr (_, fine) ↦
                let (k, last, reply) = retry_from-answered 3 0 0 status content net good in
                let middle = disk_after id events attempts disk k in
                let ended : ending_of id (attempt_on id events (attempts k) middle).0 ≡ whole =
                  ap (λ n. ending_of id (disk_after id events attempts disk n)) (sym last) ∙ ends in
                let (at_k, early) = attempt_on-grows id events (attempts k) middle ended in
                let (first, more) = disk_after-grows id events attempts disk k at_k in
                rw (Client.send_events, good, fine, last)
                  (omega (
                    arith,
                    more,
                    attempt_on-ok id events (attempts k) middle status content ended reply fine,
                  ))
          ]
        ],
      )
