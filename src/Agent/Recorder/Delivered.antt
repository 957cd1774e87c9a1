-- ===== src/Agent/Recorder/Delivered.antt =====
-- The last flush of agent/internal/capture/recorder.go when nothing goes wrong.
use rdp_warp_portal.Prelude.{
  ℕ, ◌≡◌, refl, sym, ap, ◌∙◌, true, false, none, some, List, [], ◌++◌, Text, append-nil, ok, arith,
  Option-cases, inl, inr, Bool, All, text_eq,
}
use rdp_warp_portal.Agent.Events.{RecordingEvent}
use rdp_warp_portal.Agent.Recorder.{Recorder, take_events, settle_events}
use rdp_warp_portal.Agent.Recorder.Gone.{handle_all, all_reported}
use rdp_warp_portal.Agent.Recorder.Stored.{
  Attempt, served, network_of, attempt_on, Passage, Turn, flushes, exchange, pass, pass_all,
}
use rdp_warp_portal.Agent.Recorder.Faultless.{
  IsFaultless, InOrder, attempt_on-done, do_with_retry-at_once, pass-InOrder, pass_all-InOrder,
}
use rdp_warp_portal.Recording.Calls.{read_metadata-ok}
use rdp_warp_portal.Recording.Store.{
  Directory, Recording, Disk, done, whole, read_metadata, get_events,
}

take_events-none :
    (r : Recorder) → r.gone ≡ false → (take_events r).1 ≡ none → (take_events r).0.event_buffer ≡ []
unfolding take_events
take_events-none r here h = ground arith

take_events-some :
    (r : Recorder) (events : List RecordingEvent)
    → (take_events r).1 ≡ some events
    → (take_events r).0.event_buffer ≡ []
unfolding take_events
take_events-some r events h = ground arith

exchange-buffer :
    (attempts : ℕ → Attempt) (cancelled : ℕ → Bool) (events : List RecordingEvent) (r : Recorder)
    (p : Passage)
    → attempts 0 ≡ served done done true
    → InOrder p
    → (exchange attempts cancelled events r p).recorder.event_buffer ≡ r.event_buffer
unfolding exchange settle_events
exchange-buffer attempts cancelled events r p first (d, rec, here, going, well, all) =
    let rid = p.recorder.recording_id in
    let net = network_of rid events attempts cancelled p.disk in
    let (good, once) = do_with_retry-at_once net (
      ap (λ a. (attempt_on rid events a p.disk).1) first
      ∙ ap (λ x. x.1) (attempt_on-done rid events p.disk d rec here well)) in
    rw (exchange, good) refl

pass-emptied :
    (attempts : ℕ → Attempt) (cancelled : ℕ → Bool) (p : Passage)
    → attempts 0 ≡ served done done true
    → InOrder p
    → (pass (flushes attempts cancelled []) p).recorder.event_buffer ≡ []
unfolding pass handle_all all_reported
pass-emptied attempts cancelled p first order = elim (Option-cases (take_events p.recorder).1) [
  | inl empty ↦ rw (pass, empty) (take_events-none p.recorder order.3 empty)
  | inr (events, full) ↦
      let nothing = append-nil p.recorded in
      rw (pass, full)
        (exchange-buffer attempts cancelled events (take_events p.recorder).0
            (record p { recorded = p.recorded ++ [] }) first
            (order.0, order.1, order.2, order.3, order.4, order.5 ∙ sym nothing)
          ∙ take_events-some p.recorder events full)
]

read_metadata-get_events :
    (id : Text) (disk : Disk RecordingEvent) (d : Directory RecordingEvent) (rec : Recording)
    → read_metadata id disk ≡ ok (d, rec)
    → d.ending ≡ whole
    → get_events id disk ≡ ok d.events
unfolding get_events
read_metadata-get_events id disk d rec here well =
    let (found, read) = read_metadata-ok id disk d rec here in rw (get_events, found, well) refl

-- If the first attempt of every flush is served and heard, a last flush, during which nothing is
-- reported, leaves the broker with all the events of the handlers, in their order and each once. The
-- recording must be there, and its file and the buffer must be in order before; `GetEvents` is taken to
-- be able to open the file, with no line longer than its scanner takes.
pub pass_all-delivered :
    (turns : List Turn) (p : Passage) (attempts : ℕ → Attempt) (cancelled : ℕ → Bool)
    → All IsFaultless turns
    → attempts 0 ≡ served done done true
    → InOrder p
    → get_events
        (pass (flushes attempts cancelled []) (pass_all turns p)).recorder.recording_id
        (pass (flushes attempts cancelled []) (pass_all turns p)).disk
      ≡ ok (pass (flushes attempts cancelled []) (pass_all turns p)).recorded
unfolding IsFaultless
pass_all-delivered turns p attempts cancelled well first order =
    let before = pass_all-InOrder turns p well order in
    let q = pass (flushes attempts cancelled []) (pass_all turns p) in
    let (d, rec, here, going, ends, all) =
      pass-InOrder (flushes attempts cancelled []) (pass_all turns p) first before in
    let emptied = pass-emptied attempts cancelled (pass_all turns p) first before in
    read_metadata-get_events q.recorder.recording_id q.disk d rec here ends
    ∙ ap ok (sym (append-nil d.events) ∙ ap (λ b. d.events ++ b) (sym emptied) ∙ all)
