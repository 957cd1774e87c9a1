-- ===== src/Agent/StoredExamples.antt =====
-- The way of the events to the broker at concrete inputs: an answer that is lost, and a good way.
use rdp_warp_portal.Prelude.{
  ℕ, All, ◌≡◌, refl, true, false, List, [], ◌∷◌, ◌++◌, text_eq, nat_eq, text_beq, codes, ok, ◌==◌,
  if◌then◌else◌, arith,
}
use rdp_warp_portal.Prelude.Assoc.{lookup, insert}
use rdp_warp_portal.Prelude.Weights.{total_of}
use rdp_warp_portal.Agent.Client.{
  do_with_retry, buffer, retry_from, send, after_send, waited_before, read_status, status_error,
}
use rdp_warp_portal.Agent.Client
use rdp_warp_portal.Agent.Events.{Report, window, record_of, window_record}
use rdp_warp_portal.Agent.Recorder.{handle, take_events, settle_events}
use rdp_warp_portal.Agent.Recorder.Delivery.{reported}
use rdp_warp_portal.Agent.Recorder.Gone.{handle_all, all_reported}
use rdp_warp_portal.Agent.Recorder.Stored.{
  Attempt, unreached, served, attempt_on, disk_after, Passage, Turn, reports, flushes, exchange,
  pass, pass_all,
}
use rdp_warp_portal.Agent.Recorder.Faultless.{IsFaultless, InOrder}
use rdp_warp_portal.Agent.Recorder.Delivered.{pass_all-delivered}
use rdp_warp_portal.Agent.Recorder.AtLeastOnce.{EndsWell, Kept, pass_all-Kept}
use rdp_warp_portal.Recording.Api
use rdp_warp_portal.Recording.Store.{
  readable, done, create, get_events, append_events, append_events_to, append_lines, whole,
  read_metadata, write_metadata, made_dir,
}
use rdp_warp_portal.Recording.Appending.{ending_of}
use rdp_warp_portal.Recording.Calls.{CreateRecordingRequest, new_recording}

abbrev opens : ℕ → Report
opens n = window (record { timestamp = n; title = codes "a"; process = []; pid = n })

abbrev wanted : CreateRecordingRequest
wanted = record {
  session_id = codes "1";
  target_id = [];
  target_name = codes "DC";
  windows_user = codes "bob";
  proxy_user = codes "bob";
  agent_hostname = codes "DC";
  chunk_secs = 30;
}

-- A new recording.
abbrev fresh_passage : Passage
fresh_passage = record {
  recorder = record { recording_id = codes "r"; event_buffer = []; gone = false };
  disk = (create done (new_recording (codes "r") 100 wanted) []).0;
  recorded = [];
}

-- The answer of the first attempt is lost, the second does not reach the broker, the third is good.
abbrev attempts : ℕ → Attempt
attempts n =
    if n == 0 then served done done false else if n == 1 then unreached else served done done true

abbrev turns : List Turn
turns = reports (opens 1) ∷ flushes attempts (λ n. false) (opens 2 ∷ []) ∷ []

-- The event is in the file twice, and the event that came meanwhile is in the buffer.
stored_twice :
    (get_events (codes "r") (pass_all turns fresh_passage).disk
      ≡ ok (reported (opens 1) ++ reported (opens 1)))
    × ((pass_all turns fresh_passage).recorder.event_buffer ≡ reported (opens 2))
unfolding pass_all pass exchange disk_after attempt_on do_with_retry retry_from send after_send
    waited_before read_status status_error Client.send_events Api.send_events Api.status_of
    Api.failure_status append_events append_events_to append_lines read_metadata write_metadata
    create made_dir new_recording get_events handle handle_all all_reported reported take_events
    settle_events record_of window_record lookup insert text_beq
stored_twice = (refl, refl)

stays : (pass_all turns fresh_passage).recorder.gone ≡ false
unfolding pass_all pass exchange disk_after attempt_on do_with_retry retry_from send after_send
    waited_before read_status status_error Client.send_events Api.send_events Api.status_of
    Api.failure_status append_events append_events_to append_lines read_metadata write_metadata
    create made_dir new_recording handle handle_all all_reported reported take_events settle_events
    record_of window_record lookup insert text_beq
stays = refl

ends_well : EndsWell (pass_all turns fresh_passage)
unfolding EndsWell ending_of pass_all pass exchange disk_after attempt_on do_with_retry retry_from
    send after_send waited_before read_status status_error Client.send_events Api.send_events
    Api.status_of Api.failure_status append_events append_events_to append_lines read_metadata
    write_metadata create made_dir new_recording handle handle_all all_reported reported take_events
    settle_events record_of window_record lookup insert text_beq
ends_well = refl

starts-Kept : Kept (λ e. 1) fresh_passage
unfolding Kept total_of
starts-Kept = omega arith

pass_all-Kept_example : Kept (λ e. 1) (pass_all turns fresh_passage)
pass_all-Kept_example = pass_all-Kept turns fresh_passage (λ e. 1) stays ends_well starts-Kept

-- A call whose first attempt is served and heard.
abbrev well : ℕ → Attempt
well n = served done done true

abbrev good_turns : List Turn
good_turns = reports (opens 1) ∷ flushes well (λ n. false) (opens 2 ∷ []) ∷ []

fresh_passage-InOrder : InOrder fresh_passage
unfolding create made_dir write_metadata new_recording read_metadata lookup insert text_beq
fresh_passage-InOrder = (
  record {
    metadata = readable (new_recording (codes "r") 100 wanted);
    chunks = [];
    events = [];
    ending = whole;
    video = false;
  },
  new_recording (codes "r") 100 wanted,
  refl,
  refl,
  refl,
  refl,
)

good_turns-IsFaultless : All IsFaultless good_turns
unfolding IsFaultless
good_turns-IsFaultless = (tt, (refl, tt))

pass_all-delivered_example :
    get_events
      (pass
        (flushes well (λ n. false) [])
        (pass_all good_turns fresh_passage)).recorder.recording_id
      (pass (flushes well (λ n. false) []) (pass_all good_turns fresh_passage)).disk
    ≡ ok (pass (flushes well (λ n. false) []) (pass_all good_turns fresh_passage)).recorded
pass_all-delivered_example =
    pass_all-delivered good_turns fresh_passage well (λ n. false) good_turns-IsFaultless refl
      fresh_passage-InOrder
