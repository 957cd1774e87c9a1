-- ===== src/Agent/Events.antt =====
-- The events of agent/internal/capture, and what the handlers of agent/internal/capture/recorder.go make
-- of them.
use rdp_warp_portal.Prelude.{
  ℕ, Bool, ◌&&◌, ◌||◌, Option, none, some, [], ◌∷◌, text_eq, nat_eq, Text, codes, if◌then◌else◌,
  ◌==◌, ℤ, int_is,
}
use rdp_warp_portal.Prelude.Assoc.{GoMap, insert}
use rdp_warp_portal.Agent.Filters.{
  is_agent_process, is_agent_win_log_event, is_noisy_win_log_process, is_system_account_logon,
  is_noisy_script_block, is_agent_parent_process,
}

pub record ProcessEvent : Type 0 where
  pub timestamp : ℕ
  pub type : Text
  pub pid : ℕ
  pub name : Text
  pub command_line : Text
  pub user : Text
  pub parent_pid : ℕ
  pub exit_code : ℤ

pub record WindowEvent : Type 0 where
  pub timestamp : ℕ
  pub title : Text
  pub process : Text
  pub pid : ℕ

pub record InputEvent : Type 0 where
  pub timestamp : ℕ
  pub type : Text
  pub button : Text
  pub x : ℤ
  pub y : ℤ
  pub window : Text
  pub pid : ℕ

pub record ClipboardEvent : Type 0 where
  pub timestamp : ℕ
  pub content : Text
  pub window : Text
  pub pid : ℕ

pub record WinLogEvent : Type 0 where
  pub timestamp : ℕ
  pub event_id : ℤ
  pub log : Text
  pub source : Text
  pub message : Text
  pub user : Text
  pub level : Text
  pub script_block : Text
  pub parent_process : Text

-- `any`, as far as the handlers put it into an event.
pub data Value : Type 0 where
  number : ℕ → Value
  integer : ℤ → Value
  text : Text → Value

pub record RecordingEvent : Type 0 where
  pub timestamp : ℕ
  pub type : Text
  pub data_of : GoMap Text Value

-- What a handler makes of an event: `none` if it is filtered.
unfoldable pub process_record : ProcessEvent → Option RecordingEvent
unfolding is_agent_process insert
process_record pe =
    let fields : GoMap Text Value =
      (codes "pid", number pe.pid)
      ∷ (codes "name", text pe.name)
      ∷ (codes "command_line", text pe.command_line)
      ∷ (codes "user", text pe.user)
      ∷ (codes "parent_pid", number pe.parent_pid)
      ∷ [] in
    let all =
      if pe.type == codes "process_end"
      then insert (codes "exit_code") (integer pe.exit_code) fields
      else fields in
    if is_agent_process pe.name pe.command_line
    then none
    else some (record { timestamp = pe.timestamp; type = pe.type; data_of = all })

unfoldable pub window_record : WindowEvent → RecordingEvent
window_record we = record {
  timestamp = we.timestamp;
  type = codes "window_focus";
  data_of =
      (codes "title", text we.title)
      ∷ (codes "process", text we.process)
      ∷ (codes "pid", number we.pid)
      ∷ [];
}

unfoldable pub input_record : InputEvent → RecordingEvent
input_record ie = record {
  timestamp = ie.timestamp;
  type = ie.type;
  data_of =
      (codes "button", text ie.button)
      ∷ (codes "x", integer ie.x)
      ∷ (codes "y", integer ie.y)
      ∷ (codes "window", text ie.window)
      ∷ (codes "pid", number ie.pid)
      ∷ [];
}

unfoldable pub clipboard_record : ClipboardEvent → RecordingEvent
clipboard_record ce = record {
  timestamp = ce.timestamp;
  type = codes "clipboard";
  data_of =
      (codes "content", text ce.content)
      ∷ (codes "window", text ce.window)
      ∷ (codes "pid", number ce.pid)
      ∷ [];
}

-- The early returns of `handleWinLogEvent`.
unfoldable pub is_filtered : WinLogEvent → Bool
unfolding is_agent_win_log_event is_system_account_logon is_noisy_win_log_process
    is_agent_parent_process is_noisy_script_block
is_filtered we =
    is_agent_win_log_event we.message
    || is_system_account_logon we.event_id we.user
    || ((int_is we.event_id 4688 || int_is we.event_id 4689) && is_noisy_win_log_process we.message)
    || (int_is we.event_id 4688 && is_agent_parent_process we.parent_process)
    || (int_is we.event_id 4104 && is_noisy_script_block we.script_block)

-- A field that is set if its text is not empty.
unfoldable pub with_text : Text → Text → GoMap Text Value → GoMap Text Value
unfolding insert
with_text key value fields = if value == [] then fields else insert key (text value) fields

unfoldable pub winlog_record : WinLogEvent → Option RecordingEvent
unfolding is_filtered with_text
winlog_record we =
    let fields : GoMap Text Value =
      (codes "event_id", integer we.event_id)
      ∷ (codes "log", text we.log)
      ∷ (codes "source", text we.source)
      ∷ (codes "message", text we.message)
      ∷ (codes "level", text we.level)
      ∷ [] in
    let all = with_text (codes "script_block") we.script_block (
      with_text (codes "parent_process") we.parent_process
        (with_text (codes "user") we.user fields)) in
    if is_filtered we
    then none
    else some (record { timestamp = we.timestamp; type = codes "winlog"; data_of = all })

-- What the trackers and the captures report.
pub data Report : Type 0 where
  process : ProcessEvent → Report
  window : WindowEvent → Report
  input : InputEvent → Report
  clipboard : ClipboardEvent → Report
  winlog : WinLogEvent → Report

unfoldable pub record_of : Report → Option RecordingEvent
unfolding process_record window_record input_record clipboard_record winlog_record
record_of (process pe) = process_record pe
record_of (window we) = some (window_record we)
record_of (input ie) = some (input_record ie)
record_of (clipboard ce) = some (clipboard_record ce)
record_of (winlog we) = winlog_record we
