-- ===== src/Recording/Files.antt =====
-- The files of a recording, of proxy/internal/recording/models.go and store.go: its metadata, its chunk
-- files by number, its lines of events, and perhaps the video; what a write of events leaves, and what a
-- removal leaves.
use rdp_warp_portal.Prelude.{
  ℕ, ◌-◌, Bool, false, Option, List, [], ◌∷◌, ◌++◌, if◌then◌else◌, ◌==◌, nat_eq, text_eq, Text,
  length, take,
}
use rdp_warp_portal.Prelude.Assoc.{GoMap}

pub data RecordingStatus : Type 0 where
  recording completed failed : RecordingStatus

pub record Recording : Type 0 where
  pub id : Text
  pub session_id : Text
  pub target_id : Text
  pub target_name : Text
  pub windows_user : Text
  pub proxy_user : Text
  pub agent_hostname : Text
  pub status : RecordingStatus
  pub started_at : ℕ
  pub ended_at : Option ℕ
  pub duration : ℕ
  pub chunk_secs : ℕ
  pub chunk_count : ℕ
  pub chunk_durations : List ℕ
  pub total_bytes : ℕ
  pub event_count : ℕ

-- What `metadata.json` is: not there, torn by a write that failed, or a recording.
pub data Metadata : Type 0 where
  missing torn : Metadata
  readable : Recording → Metadata

-- How `events.jsonl` ends: after a line; without the newline of its last event; or a line that cannot be
-- decoded follows the events that are listed, and whatever comes after it is never read.
pub data Ending : Type 0 where
  whole unended spoiled : Ending

pub record Directory (E : Type 0) : Type 0 where
  pub metadata : Metadata
  pub chunks : GoMap ℕ Text
  pub events : List E
  pub ending : Ending
  pub video : Bool

pub data StoreError : Type 0 where
  recording_not_found unreadable_metadata unreadable_events file_failed ffmpeg_failed : StoreError

-- A write of a file: it is done, it does not start, or it leaves what is given.
pub data Write (P : Type 0) : Type 0 where
  done refused : Write P
  cut : P → Write P

-- Where the writing of events is cut: between two lines, in the middle of one, or before a newline.
pub data LineCut : Type 0 where
  at_line in_line before_newline : LineCut

-- The events whose text is written in full, and where the cut is.
abbrev pub Lines : Type 0 → Type 0
Lines E = List E × LineCut

-- What `RemoveAll` comes to: all is removed, or some files are kept and an error is returned.
pub record Remains : Type 0 where
  pub keeps_metadata : Bool
  pub keeps_chunk : ℕ → Bool
  pub keeps_events : Bool
  pub keeps_video : Bool

pub data RemoveAll : Type 0 where
  removed : RemoveAll
  left : Remains → RemoveAll

-- The base directory, for events of type `E`.
abbrev pub Disk : Type 0 → Type 0
Disk E = GoMap Text (Directory E)

-- The chunk files that are kept.
unfoldable pub keep_chunks : (ℕ → Bool) → GoMap ℕ Text → GoMap ℕ Text
keep_chunks kept [] = []
keep_chunks kept ((n, content) ∷ chunks) =
    let rest = keep_chunks kept chunks in if kept n then (n, content) ∷ rest else rest

module _ {E : Type 0} where
  -- Something is written that cannot be decoded, or half a line: a last event without its newline is
  -- lost in the same line.
  unfoldable pub spoil : Directory E → Directory E
  spoil d = elim d.ending [
    | whole ↦ record d { ending = spoiled }
    | unended ↦ record d { events = take (length d.events - 1) d.events; ending = spoiled }
    | spoiled ↦ d
  ]

  -- Whole lines are written at the end.
  unfoldable pub append_lines : List E → Directory E → Directory E
  unfolding spoil
  append_lines events d = elim d.ending [
    | whole ↦ record d { events = d.events ++ events }
    | unended ↦ if length events == 0 then d else spoil d
    | spoiled ↦ d
  ]

  -- The writing of lines is cut.
  unfoldable pub cut_lines : Lines E → Directory E → Directory E
  unfolding append_lines spoil
  cut_lines (events, at_line) d = append_lines events d
  cut_lines (events, in_line) d = spoil (append_lines events d)
  cut_lines (events, before_newline) d =
      if length events == 0
      then d
      else let d' = append_lines events d in
        elim d'.ending [ whole ↦ record d' { ending = unended } | unended ↦ d' | spoiled ↦ d' ]

  -- The directory that a removal leaves.
  unfoldable pub leave_files : Remains → Directory E → Directory E
  unfolding keep_chunks
  leave_files r d = record {
    metadata = if r.keeps_metadata then d.metadata else missing;
    chunks = keep_chunks r.keeps_chunk d.chunks;
    events = if r.keeps_events then d.events else [];
    ending = if r.keeps_events then d.ending else whole;
    video = if r.keeps_video then d.video else false;
  }
