-- ===== src/Agent/Recorder/AtLeastOnce.antt =====
-- No event of agent/internal/capture/recorder.go is lost on its way to the store of the broker.
use rdp_warp_portal.Prelude.{
  ℕ, ◌+◌, ◌≤◌, ◌≡◌, sym, ap, ◌∙◌, true, false, List, [], ◌∷◌, ◌++◌, arith, Option-cases, inl, inr,
  Bool,
}
use rdp_warp_portal.Prelude.Weights.{total_of, total_of-append}
use rdp_warp_portal.Agent.Client.{
  ClientError, Network, answered, buffer, do_with_retry, read_status, status_error,
}
use rdp_warp_portal.Agent.Client
use rdp_warp_portal.Agent.Events.{RecordingEvent, Report}
use rdp_warp_portal.Agent.Recorder.{Recorder, take_events, settle_events}
use rdp_warp_portal.Agent.Recorder.Delivery.{
  accepted, reported, handle_lem, take_events_lem, settle_events_lem,
}
use rdp_warp_portal.Agent.Recorder.Gone.{handle_all, all_reported}
use rdp_warp_portal.Agent.Recorder.Stored.{
  Attempt, network_of, Passage, Turn, reports, flushes, exchange, pass, pass_all, disk_after,
}
use rdp_warp_portal.Recording.Appending.{stored, ending_of}
use rdp_warp_portal.Recording.Store.{whole}
use rdp_warp_portal.Agent.Recorder.Parts.{
  handle_all_lem, handle_id, handle_all_id, take_events_id, settle_events_id,
}
use rdp_warp_portal.Agent.Recorder.Growth.{exchange_lem}

-- No line of the recording's file of events is broken.
unfoldable pub EndsWell : Passage → Type 0
unfolding ending_of
EndsWell p = ending_of p.recorder.recording_id p.disk ≡ whole

module _ (f : RecordingEvent → ℕ) where
  -- The events of the handlers are in the file or in the buffer.
  unfoldable pub Kept : Passage → Type 0
  Kept p =
      total_of f p.recorded
      ≤ stored f p.recorder.recording_id p.disk + total_of f p.recorder.event_buffer

  -- A step that ends with the recording not gone and with its file ending well began so, and keeps the
  -- events.
  abbrev Carries : Passage → Passage → Type 0
  Carries p q = (p.recorder.gone ≡ false) × (EndsWell p) × (Kept p → Kept q)

  handle_all-Carries :
      (during : List Report) (r : Recorder) (p : Passage)
      → r.gone ≡ p.recorder.gone
      → r.recording_id ≡ p.recorder.recording_id
      → r.event_buffer ≡ p.recorder.event_buffer
      → (handle_all during r).gone ≡ false
      → EndsWell (record p {
        recorder = handle_all during r;
        recorded = p.recorded ++ all_reported during;
      })
      → Carries p (record p {
        recorder = handle_all during r;
        recorded = p.recorded ++ all_reported during;
      })
  unfolding Kept EndsWell
  handle_all-Carries during r p same id buf here ends =
      let (grows, kept) = handle_all_lem during r in
      let named = handle_all_id during r ∙ id in
      let sizes = ap (total_of f) buf in
      let larger = ap (total_of f) grows in
      (
        sym same ∙ sym kept ∙ here,
        ap (λ i. ending_of i p.disk) (sym named) ∙ ends,
        λ h. rw named (
            omega (
              arith,
              h,
              sizes,
              larger,
              total_of-append f p.recorded (all_reported during),
              total_of-append f r.event_buffer (all_reported during),
            )),
      )

  exchange-Carries :
      (attempts : ℕ → Attempt) (cancelled : ℕ → Bool) (events : List RecordingEvent)
      (during : List Report) (r : Recorder) (p : Passage)
      → r.gone ≡ p.recorder.gone
      → r.recording_id ≡ p.recorder.recording_id
      → events ++ r.event_buffer ≡ p.recorder.event_buffer
      → (exchange attempts cancelled events
          (handle_all during r)
          (record p { recorded = p.recorded ++ all_reported during })).recorder.gone
        ≡ false
      → EndsWell (
          exchange attempts cancelled events
            (handle_all during r)
            (record p { recorded = p.recorded ++ all_reported during }))
      → Carries p (
          exchange attempts cancelled events
            (handle_all during r)
            (record p { recorded = p.recorded ++ all_reported during }))
  unfolding Kept EndsWell exchange
  exchange-Carries attempts cancelled events during r p same id buf here ends =
      let rid = p.recorder.recording_id in
      let result = Client.send_events true (network_of rid events attempts cancelled p.disk) in
      let (grows, kept) = handle_all_lem during r in
      let (moved, before) = settle_events_lem events result (handle_all during r) here in
      let named =
        settle_events_id events result (handle_all during r) ∙ handle_all_id during r ∙ id in
      let after =
        disk_after rid events attempts p.disk
          (do_with_retry (network_of rid events attempts cancelled p.disk) buffer).attempts in
      let (well, more) =
        exchange_lem f rid events attempts cancelled p.disk
          (ap (λ i. ending_of i after) (sym named) ∙ ends) in
      let weights = ap (total_of f) moved in
      let sizes = ap (total_of f) buf in
      let larger = ap (total_of f) grows in
      (
        sym same ∙ sym kept ∙ before,
        well,
        λ h. rw named (
            omega (
              arith,
              h,
              weights,
              sizes,
              larger,
              more,
              total_of-append f p.recorded (all_reported during),
              total_of-append f r.event_buffer (all_reported during),
              total_of-append f events r.event_buffer,
              total_of-append f events (handle_all during r).event_buffer,
              total_of-append f (accepted events result)
                  (settle_events events result (handle_all during r)).event_buffer,
            )),
      )

  pass-Carries :
      (turn : Turn) (p : Passage)
      → (pass turn p).recorder.gone ≡ false
      → EndsWell (pass turn p)
      → Carries p (pass turn p)
  unfolding pass Kept EndsWell handle_all all_reported
  pass-Carries (reports report) p here ends =
      let (grows, kept) = handle_lem report p.recorder in
      (
        sym kept ∙ here,
        ap (λ i. ending_of i p.disk) (sym (handle_id report p.recorder)) ∙ ends,
        λ h.
            rw (handle_id report p.recorder, grows)
              (omega (
                arith,
                h,
                total_of-append f p.recorded (reported report),
                total_of-append f p.recorder.event_buffer (reported report),
              )),
      )
  pass-Carries (flushes attempts cancelled during) p here ends =
      let (moved, same) = take_events_lem p.recorder in
      let id = take_events_id p.recorder in
      let r = (take_events p.recorder).0 in
      elim (Option-cases (take_events p.recorder).1) [
        | inl empty ↦
            rw (pass, empty)
              (handle_all-Carries during r p same id (rw empty at moved) (rw (pass, empty) at here)
                (rw (pass, empty) at ends))
        | inr (events, full) ↦
            rw (pass, full)
              (exchange-Carries attempts cancelled events during r p same id (rw full at moved)
                (rw (pass, full) at here) (rw (pass, full) at ends))
      ]

  pass_all-Carries :
      (turns : List Turn) (p : Passage)
      → (pass_all turns p).recorder.gone ≡ false
      → EndsWell (pass_all turns p)
      → Carries p (pass_all turns p)
  unfolding pass_all
  pass_all-Carries [] p here ends = (here, ends, λ h. h)
  pass_all-Carries (turn ∷ turns) p here ends =
      let (early, well, later) = pass_all-Carries turns (pass turn p) here ends in
      let (first, sound, now) = pass-Carries turn p early well in (first, sound, λ h. later (now h))

-- Whatever attempts are lost, answered without being heard, refused by the disk or cut off in the middle
-- of a file, no event is lost while the recording is not gone and no line of its file of events is broken:
-- whatever is counted of the recorded events is found in the broker's file or in the buffer, if it was so
-- before.
pub pass_all-Kept :
    (turns : List Turn) (p : Passage) (f : RecordingEvent → ℕ)
    → (pass_all turns p).recorder.gone ≡ false
    → EndsWell (pass_all turns p)
    → Kept f p
    → Kept f (pass_all turns p)
pass_all-Kept turns p f here ends h = (pass_all-Carries f turns p here ends).2 h
