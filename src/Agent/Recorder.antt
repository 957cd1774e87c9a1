-- ===== src/Agent/Recorder.antt =====
-- agent/internal/capture/recorder.go: the events of a session on their way to the broker. A handler,
-- and each of the two critical sections of `flushEvents`, is one step under the mutex. The capture
-- processes, ffmpeg and the directories of `Start` and `Stop` belong to the system.
pub mod Delivery
pub mod Counted
pub mod Gone
pub mod Stored
pub mod Parts
pub mod Growth
pub mod AtLeastOnce
pub mod Faultless
pub mod Delivered
use rdp_warp_portal.Prelude.{
  ℕ, zero, suc, ◌+◌, ◌*◌, Bool, true, false, not, ◌&&◌, ◌||◌, Option, none, some, List, [], ◌∷◌,
  ◌++◌, text_eq, nat_eq, Text, codes, Result, ok, err, if◌then◌else◌, ◌==◌, ℤ, int_is,
}
use rdp_warp_portal.Prelude.Assoc.{GoMap, insert}
use rdp_warp_portal.Agent.Client.{ClientError, recording_gone}
use rdp_warp_portal.Agent.Filters.{
  is_agent_process, is_agent_win_log_event, is_noisy_win_log_process, is_system_account_logon,
  is_noisy_script_block, is_agent_parent_process,
}
use rdp_warp_portal.Agent.Events.{
  ProcessEvent, WindowEvent, InputEvent, ClipboardEvent, WinLogEvent, Value, number, integer, text,
  RecordingEvent, process_record, window_record, input_record, clipboard_record, is_filtered,
  with_text, winlog_record, Report, process, window, input, clipboard, winlog, record_of,
}

pub record Recorder : Type 0 where
  pub recording_id : Text
  pub event_buffer : List RecordingEvent
  pub gone : Bool

-- The handlers: an event that is not filtered goes to the end of the buffer.
unfoldable pub handle : Report → Recorder → Recorder
unfolding record_of
handle report r = elim (record_of report) [
  | none ↦ r
  | some event ↦ record r { event_buffer = r.event_buffer ++ (event ∷ []) }
]

unfoldable pub mark_gone : Recorder → Recorder
mark_gone r = record r { gone = true; event_buffer = [] }

-- The first critical section of `flushEvents`: the events to send, if there are any.
unfoldable pub take_events : Recorder → Recorder × Option (List RecordingEvent)
take_events r = elim r.event_buffer [
  | [] ↦ (r, none)
  | event ∷ events ↦
      if r.gone then (r, none) else (record r { event_buffer = [] }, some (event ∷ events))
]

unfoldable pub says_gone : ClientError → Bool
says_gone recording_gone = true
says_gone _ = false

-- What follows `SendEvents`: a failure puts the events back in front.
unfoldable pub settle_events :
    List RecordingEvent → Result ClientError (Unit {0}) → Recorder → Recorder
unfolding mark_gone says_gone
settle_events events (ok _) r = r
settle_events events (err e) r =
    if says_gone e then mark_gone r else record r { event_buffer = events ++ r.event_buffer }

-- `handleChunk`: whether the chunk is uploaded, given that its file can be opened, and what follows.
unfoldable pub uploads_chunk : Bool → Recorder → Bool
uploads_chunk opened r = not r.gone && opened

unfoldable pub settle_chunk : Result ClientError (Unit {0}) → Recorder → Recorder
unfolding mark_gone says_gone
settle_chunk (ok _) r = r
settle_chunk (err e) r = if says_gone e then mark_gone r else r

-- The tries of `Stop` to remove the directory: the tries left, the try, and the milliseconds slept.
unfoldable pub remove_dir : ℕ → ℕ → ℕ → (ℕ → Bool) → Bool × ℕ
remove_dir zero i slept removes = (false, slept)
remove_dir (suc left) i slept removes =
    let rest = remove_dir left (suc i) (slept + (i + 1) * 500) removes in
    if removes i then (true, slept) else rest

-- What `Stop` does to the broker: the batch that it sends, and whether it ends the recording.
pub record Stopped : Type 0 where
  pub recorder : Recorder
  pub batch_sent : Option (List RecordingEvent)
  pub ended : Bool

-- `flushEvents` as `Stop` runs it, with nothing beside it.
unfoldable pub flush_events : Result ClientError (Unit {0}) → Recorder → Recorder
unfolding take_events settle_events
flush_events result r = elim (take_events r).1 [
  | none ↦ r
  | some events ↦ settle_events events result (take_events r).0
]

unfoldable pub stop_recording : Result ClientError (Unit {0}) → Recorder → Stopped
unfolding flush_events take_events
stop_recording result r = record {
  recorder = flush_events result r;
  batch_sent = (take_events r).1;
  ended = not (flush_events result r).gone;
}
