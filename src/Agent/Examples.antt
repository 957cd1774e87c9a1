-- ===== src/Agent/Examples.antt =====
-- The recorder, the client and the chunks at concrete inputs.
use rdp_warp_portal.Prelude.{
  ℕ, ◌≡◌, ◌↔◌, ◌⊎◌, refl, true, false, none, some, List, [], ◌∷◌, ◌++◌, text_eq, nat_eq, Text,
  codes, ok, ◌==◌, if◌then◌else◌,
}
use rdp_warp_portal.Prelude.Weights.{total_of}
use rdp_warp_portal.Agent.Client.Retry.{first_answer, do_with_retry-first_answer, upload_chunk-ok}
use rdp_warp_portal.Agent.Client.{Network, lost, answered, buffer, do_with_retry, upload_chunk}
use rdp_warp_portal.Agent.Recorder.Counted.{weight, Reachable-counted}
use rdp_warp_portal.Agent.Recorder.Delivery.{
  Delivery, Reachable, starts, moves, handles, loop_takes, loop_settles, new_delivery, batch,
  accepted, reported, Reachable-ordered,
}
use rdp_warp_portal.Agent.Recorder.Gone.{Silent, here, onward, Steps-Silent}
use rdp_warp_portal.Agent.Events.{Report, window, RecordingEvent, record_of, window_record}
use rdp_warp_portal.Agent.Recorder.{handle, take_events, settle_events, mark_gone}

-- A window that comes to the front.
abbrev opens : ℕ → Report
opens n = window (record { timestamp = n; title = codes "a"; process = []; pid = n })

abbrev handled : Report → Delivery → Delivery
handled report x = record x {
  recorder = handle report x.recorder;
  recorded = x.recorded ++ reported report;
}

abbrev taken : Delivery → Delivery
taken x = record x { recorder = (take_events x.recorder).0; loop = (take_events x.recorder).1 }

-- The first batch, of two events.
abbrev two_events : List RecordingEvent
two_events = reported (opens 1) ++ reported (opens 2)

abbrev settled : Delivery → Delivery
settled x = record x {
  recorder = settle_events two_events (ok tt) x.recorder;
  loop = none;
  sent = x.sent ++ accepted two_events (ok tt);
}

abbrev flying : Delivery
flying =
    handled (opens 3) (taken (handled (opens 2) (handled (opens 1) (new_delivery (codes "r")))))

abbrev delivered : Delivery
delivered = settled flying

flying_reach : Reachable (codes "r") flying
unfolding new_delivery
flying_reach =
    moves _ _
      (moves _ _ (moves _ _ (moves _ _ starts (handles _ (opens 1))) (handles _ (opens 2)))
        (loop_takes _ refl))
      (handles _ (opens 3))

flying_batch : flying.loop ≡ some two_events
unfolding new_delivery handle record_of window_record reported take_events
flying_batch = refl

delivered_reach : Reachable (codes "r") delivered
delivered_reach = moves _ _ flying_reach (loop_settles _ two_events (ok tt) flying_batch)

delivered_early : delivered.stopping ≡ false
unfolding new_delivery
delivered_early = refl

delivered_here : delivered.recorder.gone ≡ false
unfolding new_delivery handle record_of window_record reported take_events settle_events
delivered_here = refl

Reachable-ordered_example :
    delivered.sent ++ (batch delivered.loop ++ delivered.recorder.event_buffer) ≡ delivered.recorded
Reachable-ordered_example =
    Reachable-ordered (codes "r") delivered delivered_reach delivered_early delivered_here

-- Three events are accounted for.
Reachable-counted_example : weight (λ e. 1) delivered ≡ total_of (λ e. 1) delivered.recorded
Reachable-counted_example =
    Reachable-counted (codes "r") delivered (λ e. 1) delivered_reach delivered_here

abbrev gone_delivery : Delivery
gone_delivery = record (new_delivery (codes "r")) {
  recorder = mark_gone (new_delivery (codes "r")).recorder;
}

gone_Silent : Silent gone_delivery
unfolding new_delivery mark_gone
gone_Silent = record { is_gone = refl; no_loop = refl; no_last = refl }

Steps-Silent_example :
    Silent (handled (opens 4) gone_delivery)
    × ((handled (opens 4) gone_delivery).sent ≡ gone_delivery.sent)
Steps-Silent_example =
    Steps-Silent gone_delivery (handled (opens 4) gone_delivery) gone_Silent
      (onward (handles gone_delivery (opens 4)) here)

-- The first reply is lost, the second is a server error, the third is good.
abbrev third_time : Network
third_time = record {
  reply =
      λ n. if n == 0 then lost else if n == 1 then answered 503 [] else answered 200 (codes "ok");
  done = λ n. false;
}

do_with_retry-first_answer_example :
    (do_with_retry third_time buffer).result
    ≡ first_answer (third_time.reply 0 ∷ third_time.reply 1 ∷ third_time.reply 2 ∷ [])
do_with_retry-first_answer_example = do_with_retry-first_answer third_time refl refl

upload_chunk-ok_example : (upload_chunk true third_time ≡ ok tt) ↔ (
    (status : ℕ) × (content : Text) × (third_time.reply 0 ≡ answered status content)
    × ((status ≡ 200) ⊎ (status ≡ 201)))
upload_chunk-ok_example = upload_chunk-ok third_time
