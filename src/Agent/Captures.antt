-- ===== src/Agent/Captures.antt =====
-- The lines of the PowerShell scripts of agent/internal/capture: events.go and winlog.go. How a line of
-- JSON and a time are read is given; a time that cannot be read is that of the line's arrival.
use rdp_warp_portal.Prelude.{
  ℕ, Option, none, some, List, [], ◌∷◌, text_eq, Text, if◌then◌else◌, ◌==◌, ℤ,
}
use rdp_warp_portal.Agent.Events.{ProcessEvent, WinLogEvent, Report, process, winlog}

pub record PsEvent : Type 0 where
  pub ts : Text
  pub type : Text
  pub pid : ℕ
  pub name : Text
  pub command_line : Text
  pub parent_pid : ℕ
  pub exit_code : ℤ

pub record WinlogLine : Type 0 where
  pub ts : Text
  pub event_id : ℤ
  pub log : Text
  pub source : Text
  pub message : Text
  pub user : Text
  pub level : Text
  pub script_block : Text
  pub parent_process : Text

unfoldable pub timestamp_or : (Text → Option ℕ) → ℕ → Text → ℕ
timestamp_or parse now ts = elim (parse ts) [ none ↦ now | some time ↦ time ]

-- The user is not in the line.
unfoldable pub process_event : (Text → Option ℕ) → ℕ → PsEvent → ProcessEvent
unfolding timestamp_or
process_event parse now e = record {
  timestamp = timestamp_or parse now e.ts;
  type = e.type;
  pid = e.pid;
  name = e.name;
  command_line = e.command_line;
  user = [];
  parent_pid = e.parent_pid;
  exit_code = e.exit_code;
}

unfoldable pub winlog_event : (Text → Option ℕ) → ℕ → WinlogLine → WinLogEvent
unfolding timestamp_or
winlog_event parse now e = record {
  timestamp = timestamp_or parse now e.ts;
  event_id = e.event_id;
  log = e.log;
  source = e.source;
  message = e.message;
  user = e.user;
  level = e.level;
  script_block = e.script_block;
  parent_process = e.parent_process;
}

-- The events of the lines, each with the time of its arrival: empty lines and those that are no JSON are
-- passed over.
unfoldable pub process_reports :
    (Text → Option PsEvent) → (Text → Option ℕ) → List (Text × ℕ) → List Report
unfolding process_event
process_reports decode parse [] = []
process_reports decode parse ((line, now) ∷ lines) =
    let rest = process_reports decode parse lines in
    if line == []
    then rest
    else elim (decode line) [ none ↦ rest | some e ↦ process (process_event parse now e) ∷ rest ]

unfoldable pub winlog_reports :
    (Text → Option WinlogLine) → (Text → Option ℕ) → List (Text × ℕ) → List Report
unfolding winlog_event
winlog_reports decode parse [] = []
winlog_reports decode parse ((line, now) ∷ lines) =
    let rest = winlog_reports decode parse lines in
    if line == []
    then rest
    else elim (decode line) [ none ↦ rest | some e ↦ winlog (winlog_event parse now e) ∷ rest ]
