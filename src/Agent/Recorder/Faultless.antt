-- ===== src/Agent/Recorder/Faultless.antt =====
-- The events of agent/internal/capture/recorder.go when nothing goes wrong on their way to the broker.
use rdp_warp_portal.Prelude.{
  ℕ, ◌+◌, ◌≡◌, refl, sym, ap, ◌∙◌, true, false, some, List, [], ◌∷◌, ◌++◌, Text, length,
  append_assoc, ok, arith, Option-cases, inl, inr, Bool, beq_refl, text_eq, All,
}
use rdp_warp_portal.Prelude.Assoc.{lookup, insert, lookup-insert}
use rdp_warp_portal.Agent.Client.{
  ClientError, Network, answered, buffer, do_with_retry, retry_from, send, after_send,
  waited_before, read_status, status_error,
}
use rdp_warp_portal.Agent.Client
use rdp_warp_portal.Agent.Events.{RecordingEvent, Report}
use rdp_warp_portal.Agent.Recorder.{Recorder, take_events, settle_events}
use rdp_warp_portal.Agent.Recorder.Delivery.{reported, handle_lem, take_events_lem}
use rdp_warp_portal.Agent.Recorder.Gone.{handle_all, all_reported}
use rdp_warp_portal.Agent.Recorder.Stored.{
  Attempt, served, attempt_on, disk_after, network_of, Passage, Turn, reports, flushes, exchange,
  pass, pass_all,
}
use rdp_warp_portal.Agent.Recorder.Parts.{handle_all_lem, handle_id, handle_all_id, take_events_id}
use rdp_warp_portal.Recording.Api
use rdp_warp_portal.Recording.Lines.{append_lines_lem}
use rdp_warp_portal.Recording.Store.{
  Recording, Directory, Disk, readable, done, whole, read_metadata, append_events, append_events_to,
  write_metadata,
}

-- A flush whose first attempt is served and heard.
unfoldable pub IsFaultless : Turn → Type 0
IsFaultless (reports report) = Unit {0}
IsFaultless (flushes attempts cancelled during) = attempts 0 ≡ served done done true

-- The broker has the recording, the agent knows it, and the file and the buffer are together the events
-- of the handlers, in their order and each once.
abbrev pub InOrder : Passage → Type 0
InOrder p =
    (d : Directory RecordingEvent) × (rec : Recording) × (read_metadata p.recorder.recording_id
        p.disk
      ≡ ok (d, rec))
    × (p.recorder.gone ≡ false)
    × (d.ending ≡ whole)
    × (d.events ++ p.recorder.event_buffer ≡ p.recorded)

-- The metadata and the directory after the events.
abbrev counted_more : List RecordingEvent → Recording → Recording
counted_more events rec = record rec { event_count = rec.event_count + length events }

abbrev with_events :
    List RecordingEvent → Directory RecordingEvent → Recording → Directory RecordingEvent
with_events events d rec = record d {
  metadata = readable (counted_more events rec);
  events = d.events ++ events;
}

append_events-done :
    (id : Text) (events : List RecordingEvent) (disk : Disk RecordingEvent)
    (d : Directory RecordingEvent) (rec : Recording)
    → read_metadata id disk ≡ ok (d, rec)
    → d.ending ≡ whole
    → append_events done done id events disk ≡ (insert id (with_events events d rec) disk, ok tt)
unfolding append_events append_events_to write_metadata
append_events-done id events disk d rec here well =
    simp (append_events, here, append_lines_lem events d well) refl

read_metadata-insert :
    (id : Text) (events : List RecordingEvent) (disk : Disk RecordingEvent)
    (d : Directory RecordingEvent) (rec : Recording)
    → read_metadata id (insert id (with_events events d rec) disk)
      ≡ ok (with_events events d rec, counted_more events rec)
unfolding read_metadata
read_metadata-insert id events disk d rec =
    let found : lookup id (insert id (with_events events d rec) disk)
        ≡ some (with_events events d rec) =
      lookup-insert id id (with_events events d rec) disk ∙ rw (beq_refl id) refl in
    rw (read_metadata, found) refl

pub attempt_on-done :
    (id : Text) (events : List RecordingEvent) (disk : Disk RecordingEvent)
    (d : Directory RecordingEvent) (rec : Recording)
    → read_metadata id disk ≡ ok (d, rec)
    → d.ending ≡ whole
    → attempt_on id events (served done done true) disk
      ≡ (insert id (with_events events d rec) disk, answered 204 [])
unfolding attempt_on Api.send_events Api.status_of
attempt_on-done id events disk d rec here well =
    rw (append_events-done id events disk d rec here well) refl

-- A first answer that is good is the last.
pub do_with_retry-at_once :
    (net : Network)
    → net.reply 0 ≡ answered 204 []
    → (Client.send_events true net ≡ ok tt) × ((do_with_retry net buffer).attempts ≡ 1)
unfolding Client.send_events do_with_retry retry_from send after_send read_status status_error
do_with_retry-at_once net h = ground arith

exchange-InOrder :
    (attempts : ℕ → Attempt) (cancelled : ℕ → Bool) (events : List RecordingEvent) (r : Recorder)
    (p : Passage) (d : Directory RecordingEvent) (rec : Recording)
    → attempts 0 ≡ served done done true
    → r.recording_id ≡ p.recorder.recording_id
    → r.gone ≡ false
    → read_metadata p.recorder.recording_id p.disk ≡ ok (d, rec)
    → d.ending ≡ whole
    → d.events ++ (events ++ r.event_buffer) ≡ p.recorded
    → InOrder (exchange attempts cancelled events r p)
unfolding exchange disk_after settle_events
exchange-InOrder attempts cancelled events r p d rec first id going here well all =
    let rid = p.recorder.recording_id in
    let net = network_of rid events attempts cancelled p.disk in
    let served_well : attempt_on rid events (attempts 0) p.disk
        ≡ (insert rid (with_events events d rec) p.disk, answered 204 []) =
      ap (λ a. attempt_on rid events a p.disk) first
      ∙ attempt_on-done rid events p.disk d rec here well in
    let (good, once) = do_with_retry-at_once net (ap (λ x. x.1) served_well) in
    (
      with_events events d rec,
      counted_more events rec,
      rw (exchange, good, once)
          (ap (λ i. read_metadata i (attempt_on rid events (attempts 0) p.disk).0) id
            ∙ ap (λ x. read_metadata rid x.0) served_well
            ∙ read_metadata-insert rid events p.disk d rec),
      rw (exchange, good) going,
      well,
      rw (exchange, good) (append_assoc d.events events r.event_buffer ∙ all),
    )

handle_all-InOrder :
    (during : List Report) (r : Recorder) (p : Passage)
    → InOrder p
    → r.recording_id ≡ p.recorder.recording_id
    → r.gone ≡ p.recorder.gone
    → r.event_buffer ≡ p.recorder.event_buffer
    → InOrder
        (record p { recorder = handle_all during r; recorded = p.recorded ++ all_reported during })
handle_all-InOrder during r p (d, rec, here, going, well, all) id same buf =
    let (grows, kept) = handle_all_lem during r in
    (
      d,
      rec,
      ap (λ i. read_metadata i p.disk) (handle_all_id during r ∙ id) ∙ here,
      kept ∙ same ∙ going,
      well,
      ap (λ b. d.events ++ b) (grows ∙ ap (λ b. b ++ all_reported during) buf)
          ∙ sym (append_assoc d.events p.recorder.event_buffer (all_reported during))
          ∙ ap (λ b. b ++ all_reported during) all,
    )

pub pass-InOrder :
    (turn : Turn) (p : Passage) → IsFaultless turn → InOrder p → InOrder (pass turn p)
unfolding pass IsFaultless
pass-InOrder (reports report) p tt (d, rec, here, going, well, all) =
    let (grows, kept) = handle_lem report p.recorder in
    (
      d,
      rec,
      ap (λ i. read_metadata i p.disk) (handle_id report p.recorder) ∙ here,
      kept ∙ going,
      well,
      ap (λ b. d.events ++ b) grows
          ∙ sym (append_assoc d.events p.recorder.event_buffer (reported report))
          ∙ ap (λ b. b ++ reported report) all,
    )
pass-InOrder (flushes attempts cancelled during) p first (d, rec, here, going, well, all) =
    let (moved, same) = take_events_lem p.recorder in
    let r = (take_events p.recorder).0 in
    let id = take_events_id p.recorder in
    let (grows, kept) = handle_all_lem during r in
    elim (Option-cases (take_events p.recorder).1) [
      | inl empty ↦
          rw (pass, empty)
            (handle_all-InOrder during r p (d, rec, here, going, well, all) id same
              (rw empty at moved))
      | inr (events, full) ↦
          let parts : events ++ r.event_buffer ≡ p.recorder.event_buffer = rw full at moved in
          let later = record p { recorded = p.recorded ++ all_reported during } in
          let parted : d.events ++ (events ++ (handle_all during r).event_buffer)
              ≡ p.recorded ++ all_reported during =
            ap (λ b. d.events ++ (events ++ b)) grows
            ∙ ap (λ b. d.events ++ b)
                (sym (append_assoc events r.event_buffer (all_reported during)))
            ∙ ap (λ b. d.events ++ (b ++ all_reported during)) parts
            ∙ sym (append_assoc d.events p.recorder.event_buffer (all_reported during))
            ∙ ap (λ b. b ++ all_reported during) all in
          rw (pass, full)
            (exchange-InOrder attempts cancelled events (handle_all during r) later d rec first
              (handle_all_id during r ∙ id) (kept ∙ same ∙ going) here well parted)
    ]

-- If the first attempt of every flush is served and heard, the recording stays with the agent, and the
-- broker's file and the buffer are together the events of the handlers, in their order and each once, if
-- they were so before.
pub pass_all-InOrder :
    (turns : List Turn) (p : Passage)
    → All IsFaultless turns
    → InOrder p
    → InOrder (pass_all turns p)
unfolding pass_all
pass_all-InOrder [] p well h = h
pass_all-InOrder (turn ∷ turns) p (first, rest) h =
    pass_all-InOrder turns (pass turn p) rest (pass-InOrder turn p first h)
