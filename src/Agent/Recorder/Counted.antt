-- ===== src/Agent/Recorder/Counted.antt =====
-- The events of agent/internal/capture/recorder.go while `Stop` flushes beside the flush loop.
use rdp_warp_portal.Prelude.{ℕ, ◌+◌, ◌≡◌, refl, sym, ap, ◌∙◌, false, List, Text, Result, arith}
use rdp_warp_portal.Prelude.Weights.{total_of, total_of-append}
use rdp_warp_portal.Agent.Client.{ClientError}
use rdp_warp_portal.Agent.Events.{RecordingEvent}
use rdp_warp_portal.Agent.Recorder.{Recorder, mark_gone, take_events, settle_events}
use rdp_warp_portal.Agent.Recorder.Delivery.{
  Delivery, Reachable, starts, moves, handles, loop_takes, loop_settles, stop_takes, stop_settles,
  upload_says_gone, new_delivery, batch, accepted, reported, handle_lem, take_events_lem,
  settle_events_lem, stop_waits,
}

-- The weight of the events that are accepted, under way or in the buffer.
unfoldable pub weight : (RecordingEvent → ℕ) → Delivery → ℕ
unfolding total_of
weight f x =
    total_of f x.sent
    + total_of f (batch x.loop)
    + total_of f (batch x.last)
    + total_of f x.recorder.event_buffer

take_total :
    (f : RecordingEvent → ℕ) (r : Recorder)
    → total_of f (batch (take_events r).1) + total_of f (take_events r).0.event_buffer
      ≡ total_of f r.event_buffer
take_total f r =
    sym (total_of-append f (batch (take_events r).1) (take_events r).0.event_buffer)
    ∙ ap (total_of f) (take_events_lem r).0

settle_total :
    (f : RecordingEvent → ℕ) (events : List RecordingEvent) (result : Result ClientError (Unit {0}))
    (r : Recorder)
    → (settle_events events result r).gone ≡ false
    → total_of f (accepted events result) + total_of f (settle_events events result r).event_buffer
      ≡ total_of f events + total_of f r.event_buffer
settle_total f events result r here =
    sym (total_of-append f (accepted events result) (settle_events events result r).event_buffer)
    ∙ ap (total_of f) (settle_events_lem events result r here).0
    ∙ total_of-append f events r.event_buffer

-- Unless the recording is gone, the flush of `Stop` beside the loop's loses no event in the agent and
-- makes none twice there: whatever is counted of the recorded events is found in what was sent without an
-- error returned, in the batches under way and in the buffer together.
pub Reachable-counted :
    (id : Text) (x : Delivery) (f : RecordingEvent → ℕ)
    → Reachable id x
    → x.recorder.gone ≡ false
    → weight f x ≡ total_of f x.recorded
unfolding new_delivery mark_gone weight total_of
Reachable-counted id _ f starts here = refl
Reachable-counted id _ f (moves x y reach (handles _ report)) here =
    let (grows, same) = handle_lem report x.recorder in
    let before = Reachable-counted id x f reach (sym same ∙ here) in
    let more = total_of-append f x.recorder.event_buffer (reported report) in
    omega
      (arith, before, ap (total_of f) grows, more, total_of-append f x.recorded (reported report))
Reachable-counted id _ f (moves x y reach (loop_takes _ free)) here =
    let (moved, same) = take_events_lem x.recorder in
    let before = rw (weight, free) at (Reachable-counted id x f reach (sym same ∙ here)) in
    omega (arith, before, take_total f x.recorder)
Reachable-counted id _ f (moves x y reach (loop_settles _ events result busy)) here =
    let (moved, same) = settle_events_lem events result x.recorder here in
    let before = rw (weight, busy) at (Reachable-counted id x f reach same) in
    omega (
      arith,
      before,
      settle_total f events result x.recorder here,
      total_of-append f x.sent (accepted events result),
    )
Reachable-counted id _ f (moves x y reach (stop_takes _ first)) here =
    let (moved, same) = take_events_lem x.recorder in
    let waits = stop_waits id x reach first in
    let before = rw (weight, waits) at (Reachable-counted id x f reach (sym same ∙ here)) in
    omega (arith, before, take_total f x.recorder)
Reachable-counted id _ f (moves x y reach (stop_settles _ events result busy)) here =
    let (moved, same) = settle_events_lem events result x.recorder here in
    let before = rw (weight, busy) at (Reachable-counted id x f reach same) in
    omega (
      arith,
      before,
      settle_total f events result x.recorder here,
      total_of-append f x.sent (accepted events result),
    )
Reachable-counted id _ f (moves x y reach (upload_says_gone _)) here = absurd (cc)
