-- ===== src/Agent/Recorder/Gone.antt =====
-- A recording of agent/internal/capture/recorder.go that the broker no longer has, and `Stop`.
use rdp_warp_portal.Prelude.{
  ℕ, ◌+◌, ◌≤◌, ◌<◌, ◌≡◌, refl, sym, ◌∙◌, ◌↔◌, ◌⊎◌, zero, suc, ◌*◌, Bool-cases, Bool, true, false,
  none, some, List, [], ◌∷◌, ◌++◌, append-nil, append_assoc, Result, ok, err, arith, inl, inr,
}
use rdp_warp_portal.Agent.Client.{ClientError, recording_gone}
use rdp_warp_portal.Agent.Events.{RecordingEvent, Report}
use rdp_warp_portal.Agent.Recorder.{
  Recorder, handle, mark_gone, take_events, settle_events, says_gone, remove_dir, flush_events,
  stop_recording,
}
use rdp_warp_portal.Agent.Recorder.Delivery.{
  Delivery, Move, handles, loop_takes, loop_settles, stop_takes, stop_settles, upload_says_gone,
  reported, handle_lem,
}

-- The recording is gone, and no batch is under way.
pub record Silent (x : Delivery) : Type 0 where
  pub is_gone : x.recorder.gone ≡ true
  pub no_loop : x.loop ≡ none
  pub no_last : x.last ≡ none

pub data Steps : Delivery → Delivery → Type 0 where
  here : {x : Delivery} → Steps x x
  onward : {x y z : Delivery} → Move x y → Steps y z → Steps x z

take_events-gone : (r : Recorder) → r.gone ≡ true → take_events r ≡ (r, none)
unfolding take_events
take_events-gone r h = ground arith

step-Silent : (x y : Delivery) → Move x y → Silent x → Silent y × (y.sent ≡ x.sent)
unfolding mark_gone
step-Silent x _ (handles _ report) s =
    let (grows, same) = handle_lem report x.recorder in
    (record { is_gone = same ∙ s.is_gone; no_loop = s.no_loop; no_last = s.no_last }, refl)
step-Silent x _ (loop_takes _ free) s =
    rw (take_events-gone x.recorder s.is_gone)
      (record { is_gone = s.is_gone; no_loop = refl; no_last = s.no_last }, refl)
step-Silent x _ (loop_settles _ events result busy) s = let free = s.no_loop in absurd (cc)
step-Silent x _ (stop_takes _ first) s =
    rw (take_events-gone x.recorder s.is_gone)
      (record { is_gone = s.is_gone; no_loop = s.no_loop; no_last = refl }, refl)
step-Silent x _ (stop_settles _ events result busy) s = let free = s.no_last in absurd (cc)
step-Silent x _ (upload_says_gone _) s =
    (record { is_gone = refl; no_loop = s.no_loop; no_last = s.no_last }, refl)

-- Once the recording is gone and no batch is under way, the broker gets no event any more, whatever
-- steps follow, and the recording stays gone.
pub Steps-Silent : (x y : Delivery) → Silent x → Steps x y → Silent y × (y.sent ≡ x.sent)
Steps-Silent x _ s here = (s, refl)
Steps-Silent x z s (onward {y = y} step steps) =
    let (s', same) = step-Silent x y step s in
    let (s'', later) = Steps-Silent y z s' steps in (s'', later ∙ same)

unfoldable pub handle_all : List Report → Recorder → Recorder
unfolding handle
handle_all [] r = r
handle_all (report ∷ reports) r = handle_all reports (handle report r)

unfoldable pub all_reported : List Report → List RecordingEvent
unfolding reported
all_reported [] = []
all_reported (report ∷ reports) = reported report ++ all_reported reports

-- When the recording is gone the handlers still record, and no flush takes what they record: after
-- any reports the buffer holds all their events, and a flush sends none of them.
pub handle_all-gone :
    (reports : List Report) (r : Recorder)
    → r.gone ≡ true
    → ((handle_all reports r).event_buffer ≡ r.event_buffer ++ all_reported reports)
      × (take_events (handle_all reports r) ≡ (handle_all reports r, none))
unfolding handle_all all_reported
handle_all-gone [] r h = (sym (append-nil r.event_buffer), take_events-gone r h)
handle_all-gone (report ∷ reports) r h =
    let (grows, same) = handle_lem report r in
    let (all, none_taken) = handle_all-gone reports (handle report r) (same ∙ h) in
    (all ∙ rw (grows, append_assoc) refl, none_taken)

-- `Stop` sends the whole buffer if the recording is not gone, and ends the recording unless it was gone
-- or the broker says so now; what it leaves in the buffer is nothing, or all of it if sending failed.
pub stop_recording_lem :
    (result : Result ClientError (Unit {0})) (r : Recorder) (event : RecordingEvent)
    (events : List RecordingEvent)
    → r.event_buffer ≡ event ∷ events
    → r.gone ≡ false
    → ((stop_recording result r).batch_sent ≡ some (event ∷ events))
      × (((stop_recording result r).ended ≡ false) ↔ (result ≡ err recording_gone))
      × (((stop_recording result r).recorder.event_buffer ≡ [])
          ↔ ((result ≡ ok tt) ⊎ (result ≡ err recording_gone)))
unfolding stop_recording flush_events take_events settle_events mark_gone says_gone
stop_recording_lem result r event events filled there = ground (arith, append-nil events)

removed_by :
    (left i slept : ℕ) (removes : ℕ → Bool)
    → (remove_dir left i slept removes).0 ≡ true
    → (j : ℕ) × (j < i + left) × (removes j ≡ true)
unfolding remove_dir
removed_by zero i slept removes h = absurd (cc)
removed_by (suc left) i slept removes h = elim (Bool-cases (removes i)) [
  | inl now ↦ (i, omega arith, now)
  | inr later ↦
      let (j, below, found) =
        removed_by left (suc i) (slept + (i + 1) * 500) removes (rw (remove_dir, later) at h) in
      (j, omega arith, found)
]

removes_by :
    (left i slept j : ℕ) (removes : ℕ → Bool)
    → i ≤ j
    → j < i + left
    → removes j ≡ true
    → (remove_dir left i slept removes).0 ≡ true
unfolding remove_dir
removes_by zero i slept j removes from below h = absurd (omega arith)
removes_by (suc left) i slept j removes from below h =
    ground (arith, removes_by left (suc i) (slept + (i + 1) * 500) j removes)

-- The removal of the directory sleeps at most seven and a half seconds, and succeeds exactly when one
-- of five tries does.
pub remove_dir_lem :
    (removes : ℕ → Bool)
    → ((remove_dir 5 0 0 removes).1 ≤ 7500)
      × (((remove_dir 5 0 0 removes).0 ≡ true) ↔ ((i : ℕ) × (i < 5) × (removes i ≡ true)))
unfolding remove_dir
remove_dir_lem removes = (
  ground arith,
  (λ h. removed_by 5 0 0 removes h, λ h. removes_by 5 0 0 h.0 removes (omega arith) h.1 h.2),
)
