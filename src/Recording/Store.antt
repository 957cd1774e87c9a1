-- ===== src/Recording/Store.antt =====
-- proxy/internal/recording/store.go: the methods on the recordings of Recording/Files. Each holds the
-- store's lock throughout. Every call of the file system, of ffprobe and of ffmpeg succeeds or fails as
-- the environment says, and leaves what it says. Times and durations are natural numbers of one unit;
-- JSON is taken to be read back as it was written.
use rdp_warp_portal.Prelude.{
  ℕ, suc, ◌+◌, ◌-◌, Bool, true, false, none, some, List, [], ◌∷◌, ◌++◌, if◌then◌else◌, ◌==◌, nat_eq,
  text_eq, Text, length, Result, ok, err,
}
use rdp_warp_portal.Prelude.Assoc.{lookup, insert, delete}
pub use rdp_warp_portal.Recording.Files.{
  at_line, before_newline, completed, cut, Directory, Disk, done, Ending, failed, ffmpeg_failed,
  file_failed, in_line, left, LineCut, Lines, Metadata, missing, readable, Recording, recording,
  recording_not_found, RecordingStatus, refused, Remains, RemoveAll, removed, spoiled, StoreError,
  torn, unended, unreadable_events, unreadable_metadata, whole, Write,
}
unfoldable pub use rdp_warp_portal.Recording.Files.{
  append_lines, cut_lines, keep_chunks, leave_files, spoil,
}

-- `err` from a write, or what the call returns.
abbrev pub finish : {A : Type 0} → Bool → A → Result StoreError A
finish true a = ok a
finish false a = err file_failed

-- The metadata with one more chunk.
unfoldable pub with_chunk : Text → ℕ → Recording → Recording
with_chunk content duration rec = record rec {
  chunk_count = suc rec.chunk_count;
  total_bytes = rec.total_bytes + length content;
  chunk_durations = rec.chunk_durations ++ (duration ∷ []);
}

-- The metadata of a recording that ends at `now`.
unfoldable pub completed_at : ℕ → Recording → Recording
completed_at now rec = record rec {
  status = completed;
  ended_at = some now;
  duration = now - rec.started_at;
}

module _ {E : Type 0} where
  unfoldable pub read_metadata : Text → Disk E → Result StoreError (Directory E × Recording)
  read_metadata id disk = elim (lookup id disk) [
    | none ↦ err recording_not_found
    | some d ↦ elim d.metadata [
      | missing ↦ err recording_not_found
      | torn ↦ err unreadable_metadata
      | readable rec ↦ ok (d, rec)
    ]
  ]

  unfoldable pub write_metadata : Write (Unit {0}) → Recording → Directory E → Directory E × Bool
  write_metadata done rec d = (record d { metadata = readable rec }, true)
  write_metadata refused rec d = (d, false)
  write_metadata (cut part) rec d = (record d { metadata = torn }, false)

  -- The directory that `MkdirAll` makes, or finds.
  unfoldable pub made_dir : Text → Disk E → Directory E
  made_dir id disk = elim (lookup id disk) [
    | none ↦ record { metadata = missing; chunks = []; events = []; ending = whole; video = false }
    | some d ↦ d
  ]

  unfoldable pub create :
      Write (Unit {0}) → Recording → Disk E → Disk E × Result StoreError (Unit {0})
  unfolding made_dir write_metadata
  create write rec disk =
      let (d, complete) = write_metadata write rec (made_dir rec.id disk) in
      (insert rec.id d disk, finish complete tt)

  unfoldable pub get : Text → Disk E → Result StoreError Recording
  unfolding read_metadata
  get id disk = elim (read_metadata id disk) [ err e ↦ err e | ok (d, rec) ↦ ok rec ]

  unfoldable pub update :
      Write (Unit {0}) → Recording → Disk E → Disk E × Result StoreError (Unit {0})
  unfolding write_metadata
  update write rec disk = elim (lookup rec.id disk) [
    | none ↦ (disk, err recording_not_found)
    | some d ↦
        let (d', complete) = write_metadata write rec d in
        (insert rec.id d' disk, finish complete tt)
  ]

  -- `AppendChunk` on a directory whose metadata is read.
  unfoldable pub append_chunk_to :
      Write Text
      → Write (Unit {0})
      → Text
      → ℕ
      → Directory E
      → Recording
      → Directory E × Result StoreError ℕ
  unfolding with_chunk write_metadata
  append_chunk_to refused write content duration d rec = (d, err file_failed)
  append_chunk_to (cut part) write content duration d rec =
      (record d { chunks = insert rec.chunk_count part d.chunks }, err file_failed)
  append_chunk_to done write content duration d rec =
      let stored = record d { chunks = insert rec.chunk_count content d.chunks } in
      let (d', complete) = write_metadata write (with_chunk content duration rec) stored in
      (d', finish complete rec.chunk_count)

  unfoldable pub append_chunk :
      Write Text → Write (Unit {0}) → Text → Text → ℕ → Disk E → Disk E × Result StoreError ℕ
  unfolding read_metadata append_chunk_to
  append_chunk copy write id content duration disk = elim (read_metadata id disk) [
    | err e ↦ (disk, err e)
    | ok (d, rec) ↦
        let (d', result) = append_chunk_to copy write content duration d rec in
        (insert id d' disk, result)
  ]

  -- `AppendEvents` on a directory whose metadata is read.
  unfoldable pub append_events_to :
      Write (Lines E)
      → Write (Unit {0})
      → List E
      → Directory E
      → Recording
      → Directory E × Result StoreError (Unit {0})
  unfolding write_metadata append_lines cut_lines
  append_events_to refused write events d rec = (d, err file_failed)
  append_events_to (cut part) write events d rec = (cut_lines part d, err file_failed)
  append_events_to done write events d rec =
      let (d', complete) =
        write_metadata write (record rec { event_count = rec.event_count + length events })
          (append_lines events d) in
      (d', finish complete tt)

  unfoldable pub append_events :
      Write (Lines E)
      → Write (Unit {0})
      → Text
      → List E
      → Disk E
      → Disk E × Result StoreError (Unit {0})
  unfolding read_metadata append_events_to
  append_events copy write id events disk = elim (read_metadata id disk) [
    | err e ↦ (disk, err e)
    | ok (d, rec) ↦
        let (d', result) = append_events_to copy write events d rec in (insert id d' disk, result)
  ]

  -- `Finalize` on a directory whose metadata is read: whether the list of chunks can be written, and
  -- whether ffmpeg joins them. A video that ffmpeg leaves broken is none.
  unfoldable pub finalize_dir :
      Bool
      → Bool
      → Write (Unit {0})
      → ℕ
      → Directory E
      → Recording
      → Directory E × Result StoreError (Unit {0})
  unfolding write_metadata completed_at
  finalize_dir listed joined write now d rec =
      let (bare, bare_done) = write_metadata write (completed_at now rec) d in
      let (full, full_done) =
        write_metadata write (completed_at now rec) (record d { video = true }) in
      if rec.chunk_count == 0
      then (bare, finish bare_done tt)
      else if listed
      then if joined then (full, finish full_done tt) else (d, err ffmpeg_failed)
      else (d, err file_failed)

  unfoldable pub finalize :
      Bool → Bool → Write (Unit {0}) → ℕ → Text → Disk E → Disk E × Result StoreError (Unit {0})
  unfolding read_metadata finalize_dir
  finalize listed joined write now id disk = elim (read_metadata id disk) [
    | err e ↦ (disk, err e)
    | ok (d, rec) ↦
        let (d', result) = finalize_dir listed joined write now d rec in (insert id d' disk, result)
  ]

  -- The file can be opened, and no line is longer than the scanner's buffer.
  unfoldable pub get_events : Text → Disk E → Result StoreError (List E)
  get_events id disk = elim (lookup id disk) [
    | none ↦ err recording_not_found
    | some d ↦ elim d.ending [
      | whole ↦ ok d.events
      | unended ↦ ok d.events
      | spoiled ↦ err unreadable_events
    ]
  ]

  unfoldable pub delete_recording :
      RemoveAll → Text → Disk E → Disk E × Result StoreError (Unit {0})
  unfolding leave_files
  delete_recording removal id disk = elim (lookup id disk) [
    | none ↦ (disk, err recording_not_found)
    | some d ↦ elim removal [
      | removed ↦ (delete id disk, ok tt)
      | left r ↦ (insert id (leave_files r d) disk, err file_failed)
    ]
  ]
