-- ===== src/Agent/Recorder/Parts.antt =====
-- What the parts of a flush in agent/internal/capture/recorder.go leave as it is.
use rdp_warp_portal.Prelude.{
  ◌≡◌, refl, sym, ◌∙◌, List, [], ◌∷◌, ◌++◌, append_assoc, append-nil, Result, ok, err, arith,
  Bool-cases, Option-cases, inl, inr,
}
use rdp_warp_portal.Agent.Client.{ClientError}
use rdp_warp_portal.Agent.Events.{RecordingEvent, Report, record_of}
use rdp_warp_portal.Agent.Recorder.{
  Recorder, handle, take_events, settle_events, mark_gone, says_gone,
}
use rdp_warp_portal.Agent.Recorder.Delivery.{handle_lem}
use rdp_warp_portal.Agent.Recorder.Gone.{handle_all, all_reported}

pub handle_all_lem :
    (during : List Report) (r : Recorder)
    → ((handle_all during r).event_buffer ≡ r.event_buffer ++ all_reported during)
      × ((handle_all during r).gone ≡ r.gone)
unfolding handle_all all_reported
handle_all_lem [] r = (sym (append-nil r.event_buffer), refl)
handle_all_lem (report ∷ during) r =
    let (grows, same) = handle_lem report r in
    let (all, kept) = handle_all_lem during (handle report r) in
    (all ∙ rw (grows, append_assoc) refl, kept ∙ same)

pub handle_id : (report : Report) (r : Recorder) → (handle report r).recording_id ≡ r.recording_id
unfolding handle
handle_id report r = elim (Option-cases (record_of report)) [
  | inl filtered ↦ rw (handle, filtered) refl
  | inr (event, kept) ↦ rw (handle, kept) refl
]

pub handle_all_id :
    (during : List Report) (r : Recorder) → (handle_all during r).recording_id ≡ r.recording_id
unfolding handle_all
handle_all_id [] r = refl
handle_all_id (report ∷ during) r = handle_all_id during (handle report r) ∙ handle_id report r

pub take_events_id : (r : Recorder) → (take_events r).0.recording_id ≡ r.recording_id
unfolding take_events
take_events_id r = ground arith

pub settle_events_id :
    (events : List RecordingEvent) (result : Result ClientError (Unit {0})) (r : Recorder)
    → (settle_events events result r).recording_id ≡ r.recording_id
unfolding settle_events mark_gone
settle_events_id events (ok _) r = refl
settle_events_id events (err e) r = elim (Bool-cases (says_gone e)) [
  | inl lost ↦ rw (settle_events, lost) refl
  | inr kept ↦ rw (settle_events, kept) refl
]
