-- ===== src/Agent/Recorder/Delivery.antt =====
-- The flushes of agent/internal/capture/recorder.go beside the handlers. The flush loop and the flush
-- of `Stop` each have at most one batch under way; between the parts of a flush any handler may run.
use rdp_warp_portal.Prelude.{
  ◌≡◌, refl, sym, ◌∙◌, Bool, true, false, Option, none, some, List, [], ◌∷◌, ◌++◌, Text, append-nil,
  append_assoc, Result, ok, err, arith, Bool-cases, Option-cases, inl, inr,
}
use rdp_warp_portal.Agent.Client.{ClientError}
use rdp_warp_portal.Agent.Events.{RecordingEvent, Report, record_of}
use rdp_warp_portal.Agent.Recorder.{
  Recorder, handle, mark_gone, take_events, says_gone, settle_events,
}

-- The recorder, the batches that are under way, whether `Stop` has begun its flush, and two lists of
-- events: `sent` has the batches whose `SendEvents` has returned without an error, and `recorded` what the
-- handlers have recorded. The broker may also hold events of a call that has returned an error, when only
-- its answer was lost.
pub record Delivery : Type 0 where
  pub recorder : Recorder
  pub loop : Option (List RecordingEvent)
  pub last : Option (List RecordingEvent)
  pub stopping : Bool
  pub sent : List RecordingEvent
  pub recorded : List RecordingEvent

unfoldable pub new_delivery : Text → Delivery
new_delivery id = record {
  recorder = record { recording_id = id; event_buffer = []; gone = false };
  loop = none;
  last = none;
  stopping = false;
  sent = [];
  recorded = [];
}

-- The events of a report, of a batch, and of a batch that the broker accepts.
unfoldable pub reported : Report → List RecordingEvent
unfolding record_of
reported report = elim (record_of report) [ none ↦ [] | some event ↦ event ∷ [] ]

abbrev pub batch : Option (List RecordingEvent) → List RecordingEvent
batch none = []
batch (some events) = events

unfoldable pub accepted : List RecordingEvent → Result ClientError (Unit {0}) → List RecordingEvent
accepted events (ok _) = events
accepted events (err e) = []

pub data Move : Delivery → Delivery → Type 0 where
  handles :
      (x : Delivery) (report : Report)
      → Move x (record x {
        recorder = handle report x.recorder;
        recorded = x.recorded ++ reported report;
      })
  loop_takes :
      (x : Delivery)
      → x.loop ≡ none
      → Move x
          (record x { recorder = (take_events x.recorder).0; loop = (take_events x.recorder).1 })
  loop_settles :
      (x : Delivery) (events : List RecordingEvent) (result : Result ClientError (Unit {0}))
      → x.loop ≡ some events
      → Move x (record x {
        recorder = settle_events events result x.recorder;
        loop = none;
        sent = x.sent ++ accepted events result;
      })
  stop_takes :
      (x : Delivery)
      → x.stopping ≡ false
      → Move x (record x {
        recorder = (take_events x.recorder).0;
        last = (take_events x.recorder).1;
        stopping = true;
      })
  stop_settles :
      (x : Delivery) (events : List RecordingEvent) (result : Result ClientError (Unit {0}))
      → x.last ≡ some events
      → Move x (record x {
        recorder = settle_events events result x.recorder;
        last = none;
        sent = x.sent ++ accepted events result;
      })
  upload_says_gone : (x : Delivery) → Move x (record x { recorder = mark_gone x.recorder })

pub data Reachable (id : Text) : Delivery → Type 0 where
  starts : Reachable id (new_delivery id)
  moves : (x y : Delivery) → Reachable id x → Move x y → Reachable id y

-- `Stop` has no batch before it begins.
pub stop_waits : (id : Text) (x : Delivery) → Reachable id x → x.stopping ≡ false → x.last ≡ none
unfolding new_delivery
stop_waits id _ starts h = refl
stop_waits id _ (moves x y reach (handles _ report)) h = stop_waits id x reach h
stop_waits id _ (moves x y reach (loop_takes _ free)) h = stop_waits id x reach h
stop_waits id _ (moves x y reach (loop_settles _ events result busy)) h = stop_waits id x reach h
stop_waits id _ (moves x y reach (stop_takes _ early)) h = absurd (cc)
stop_waits id _ (moves x y reach (stop_settles _ events result busy)) h = refl
stop_waits id _ (moves x y reach (upload_says_gone _)) h = stop_waits id x reach h

-- The parts that the steps are made of.
pub handle_lem :
    (report : Report) (r : Recorder)
    → ((handle report r).event_buffer ≡ r.event_buffer ++ reported report)
      × ((handle report r).gone ≡ r.gone)
unfolding handle reported
handle_lem report r = elim (Option-cases (record_of report)) [
  | inl filtered ↦ rw (handle, reported, filtered) (sym (append-nil r.event_buffer), refl)
  | inr (event, kept) ↦ rw (handle, reported, kept) (refl, refl)
]

pub take_events_lem :
    (r : Recorder)
    → (batch (take_events r).1 ++ (take_events r).0.event_buffer ≡ r.event_buffer)
      × ((take_events r).0.gone ≡ r.gone)
unfolding take_events
take_events_lem r = ground (arith, append-nil r.event_buffer)

pub settle_events_lem :
    (events : List RecordingEvent) (result : Result ClientError (Unit {0})) (r : Recorder)
    → (settle_events events result r).gone ≡ false
    → (accepted events result ++ (settle_events events result r).event_buffer
        ≡ events ++ r.event_buffer)
      × (r.gone ≡ false)
unfolding settle_events accepted mark_gone
settle_events_lem events (ok _) r here = (refl, here)
settle_events_lem events (err e) r here = elim (Bool-cases (says_gone e)) [
  | inl lost ↦ absurd (cc (rw (settle_events, lost) at here))
  | inr kept ↦ (rw kept refl, rw (settle_events, kept) at here)
]

append_last : (a b c d : List RecordingEvent) → a ++ (b ++ (c ++ d)) ≡ a ++ (b ++ c) ++ d
append_last a b c d = rw (append_assoc a (b ++ c) d, append_assoc b c d) refl

-- Until `Stop` begins, and unless the recording is gone, the events whose sending has returned without an
-- error, the batch under way and the buffer are together the recorded events, in their order and each
-- once.
pub Reachable-ordered :
    (id : Text) (x : Delivery)
    → Reachable id x
    → x.stopping ≡ false
    → x.recorder.gone ≡ false
    → x.sent ++ (batch x.loop ++ x.recorder.event_buffer) ≡ x.recorded
unfolding new_delivery mark_gone
Reachable-ordered id _ starts early here = refl
Reachable-ordered id _ (moves x y reach (handles _ report)) early here =
    let (grows, same) = handle_lem report x.recorder in
    let before = Reachable-ordered id x reach early (sym same ∙ here) in
    rw (grows, ← before)
      (append_last x.sent (batch x.loop) x.recorder.event_buffer (reported report))
Reachable-ordered id _ (moves x y reach (loop_takes _ free)) early here =
    let (moved, same) = take_events_lem x.recorder in
    let before = Reachable-ordered id x reach early (sym same ∙ here) in
    rw moved (rw free at before)
Reachable-ordered id _ (moves x y reach (loop_settles _ events result busy)) early here =
    let (moved, same) = settle_events_lem events result x.recorder here in
    let before = Reachable-ordered id x reach early same in
    rw (append_assoc, moved) (rw busy at before)
Reachable-ordered id _ (moves x y reach (stop_takes _ first)) early here = absurd (cc)
Reachable-ordered id _ (moves x y reach (stop_settles _ events result busy)) early here =
    let none_yet = stop_waits id x reach early in absurd (cc)
Reachable-ordered id _ (moves x y reach (upload_says_gone _)) early here = absurd (cc)
