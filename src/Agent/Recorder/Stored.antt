-- ===== src/Agent/Recorder/Stored.antt =====
-- The events from agent/internal/capture/recorder.go through agent/internal/client/client.go to the
-- handler and the store of the broker, with what can go wrong on the way. An attempt does not reach the
-- broker, or it is served there, and then its answer arrives or is lost.
use rdp_warp_portal.Prelude.{
  ℕ, zero, suc, ◌≡◌, ◌⊎◌, refl, ◌∙◌, Bool, true, none, some, List, [], ◌∷◌, ◌++◌, Text, ok,
  Bool-cases, inl, inr, if◌then◌else◌, ltb, leb, ◌&&◌, nat_eq,
}
use rdp_warp_portal.Agent.Client.{
  ClientError, Network, Reply, lost, answered, Body, buffer, do_with_retry, retry_from, send,
  after_send, waited_before, read_status, status_error,
}
use rdp_warp_portal.Agent.Client
use rdp_warp_portal.Agent.Events.{RecordingEvent, Report}
use rdp_warp_portal.Agent.Recorder.{Recorder, handle, take_events, settle_events}
use rdp_warp_portal.Agent.Recorder.Delivery.{reported}
use rdp_warp_portal.Agent.Recorder.Gone.{handle_all, all_reported}
use rdp_warp_portal.Recording.Api
use rdp_warp_portal.Recording.Store.{Disk, Lines, Write}

pub data Attempt : Type 0 where
  unreached : Attempt
  served : Write (Lines RecordingEvent) → Write (Unit {0}) → Bool → Attempt

-- What an attempt does to the broker's disk, and the reply that the agent has.
unfoldable pub attempt_on :
    Text → List RecordingEvent → Attempt → Disk RecordingEvent → Disk RecordingEvent × Reply
unfolding Api.send_events
attempt_on id events unreached disk = (disk, lost)
attempt_on id events (served copy write heard) disk =
    let (disk', status) = Api.send_events (some events) copy write id disk in
    (disk', if heard then answered status [] else lost)

-- The disk after some attempts.
unfoldable pub disk_after :
    Text → List RecordingEvent → (ℕ → Attempt) → Disk RecordingEvent → ℕ → Disk RecordingEvent
unfolding attempt_on
disk_after id events attempts disk zero = disk
disk_after id events attempts disk (suc n) =
    (attempt_on id events (attempts n) (disk_after id events attempts disk n)).0

-- The network of a call, by its attempts and by whether its context is done.
abbrev pub network_of :
    Text → List RecordingEvent → (ℕ → Attempt) → (ℕ → Bool) → Disk RecordingEvent → Network
network_of id events attempts cancelled disk = record {
  reply = λ n. (attempt_on id events (attempts n) (disk_after id events attempts disk n)).1;
  done = cancelled;
}

-- The recorder, the broker's disk, and the events that the handlers have recorded.
pub record Passage : Type 0 where
  pub recorder : Recorder
  pub disk : Disk RecordingEvent
  pub recorded : List RecordingEvent

-- A report, or a flush with its attempts and with the reports that come while it is under way.
pub data Turn : Type 0 where
  reports : Report → Turn
  flushes : (ℕ → Attempt) → (ℕ → Bool) → List Report → Turn

-- The request of a flush, and what follows it.
unfoldable pub exchange :
    (ℕ → Attempt) → (ℕ → Bool) → List RecordingEvent → Recorder → Passage → Passage
unfolding disk_after do_with_retry Client.send_events settle_events
exchange attempts cancelled events r p =
    let id = p.recorder.recording_id in
    let net = network_of id events attempts cancelled p.disk in
    record p {
      recorder = settle_events events (Client.send_events true net) r;
      disk = disk_after id events attempts p.disk (do_with_retry net buffer).attempts;
    }

unfoldable pub pass : Turn → Passage → Passage
unfolding handle handle_all all_reported reported take_events exchange
pass (reports report) p = record p {
  recorder = handle report p.recorder;
  recorded = p.recorded ++ reported report;
}
pass (flushes attempts cancelled during) p =
    let (r, events) = take_events p.recorder in
    let later = record p { recorded = p.recorded ++ all_reported during } in
    elim events [
      | none ↦ record later { recorder = handle_all during r }
      | some events ↦ exchange attempts cancelled events (handle_all during r) later
    ]

unfoldable pub pass_all : List Turn → Passage → Passage
unfolding pass
pass_all [] p = p
pass_all (turn ∷ turns) p = pass_all turns (pass turn p)

reply_cases : (r : Reply) → (r ≡ lost) ⊎ ((s : ℕ) × (c : Text) × (r ≡ answered s c))
reply_cases lost = inl refl
reply_cases (answered s c) = inr (s, c, refl)

-- A result of a call is the answer of its last attempt.
pub retry_from-answered :
    (left attempt waited status : ℕ) (content : Text) (net : Network)
    → (retry_from left attempt waited net buffer).result ≡ ok (status, content)
    → (k : ℕ) × ((retry_from left attempt waited net buffer).attempts ≡ suc k)
      × (net.reply k ≡ answered status content)
unfolding retry_from send after_send
retry_from-answered zero attempt waited status content net h = absurd (cc)
retry_from-answered (suc left) attempt waited status content net h =
    let spent = waited_before attempt waited in
    elim (Bool-cases (ltb 0 attempt && net.done attempt)) [
      | inl stop ↦ absurd (cc (rw (retry_from, stop) at h))
      | inr go ↦ elim (reply_cases (net.reply attempt)) [
        | inl gone ↦
            rw (retry_from, go, send, gone, after_send)
              (retry_from-answered left (suc attempt) spent status content net
                (rw (retry_from, go, send, gone, after_send) at h))
        | inr (s, c, e) ↦ elim (Bool-cases (leb 500 s)) [
          | inl high ↦
              rw (retry_from, go, send, e, high, after_send)
                (retry_from-answered left (suc attempt) spent status content net
                  (rw (retry_from, go, send, e, high, after_send) at h))
          | inr low ↦
              let same = rw (retry_from, go, send, e, low) at h in
              (attempt, rw (retry_from, go, send, e, low) refl, e ∙ cc)
        ]
      ]
    ]
