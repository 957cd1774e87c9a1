-- ===== src/Recording/Calls.antt =====
-- The requests of proxy/internal/api/recordings.go that change a recording, in any sequence.
use rdp_warp_portal.Prelude.{
  ℕ, ◌≡◌, ◌≢◌, refl, inl, inr, ◌⊎◌, true, false, All, ap, ◌∙◌, Bool, Option, none, some, List, [],
  ◌∷◌, nat_eq, text_eq, Text, ok, arith, Bool-cases, Option-cases, Result-cases,
}
use rdp_warp_portal.Prelude.Assoc.{GoMap, lookup, lookup-delete}
use rdp_warp_portal.Recording.Agreement.{
  Agrees, Sound, DiskSound, insert-DiskSound, append_chunk_to-Sound, append_events_to-Sound,
  finalize_dir-Sound, write_metadata-Sound, bytes_below,
}
use rdp_warp_portal.Recording.Store.{
  Recording, readable, recording, Directory, Disk, Write, read_metadata, made_dir, create,
  append_chunk_to, append_chunk, append_events_to, append_events, finalize_dir, finalize,
  delete_recording, write_metadata, Lines, RemoveAll, removed, left, Remains, leave_files,
  keep_chunks,
}

pub record CreateRecordingRequest : Type 0 where
  pub session_id : Text
  pub target_id : Text
  pub target_name : Text
  pub windows_user : Text
  pub proxy_user : Text
  pub agent_hostname : Text
  pub chunk_secs : ℕ

unfoldable pub new_recording : Text → ℕ → CreateRecordingRequest → Recording
new_recording id now req = record {
  id = id;
  session_id = req.session_id;
  target_id = req.target_id;
  target_name = req.target_name;
  windows_user = req.windows_user;
  proxy_user = req.proxy_user;
  agent_hostname = req.agent_hostname;
  status = recording;
  started_at = now;
  ended_at = none;
  duration = 0;
  chunk_secs = req.chunk_secs;
  chunk_count = 0;
  chunk_durations = [];
  total_bytes = 0;
  event_count = 0;
}

-- A request, with what the system answers to the calls that it makes.
pub data RecordingCall (E : Type 0) : Type 0 where
  starts : Write (Unit {0}) → Text → ℕ → CreateRecordingRequest → RecordingCall E
  uploads : Write Text → Write (Unit {0}) → Text → Text → ℕ → RecordingCall E
  sends : Write (Lines E) → Write (Unit {0}) → Text → List E → RecordingCall E
  ends : Bool → Bool → Write (Unit {0}) → ℕ → Text → RecordingCall E
  deletes : RemoveAll → Text → RecordingCall E

-- A removal that fails takes the metadata away, or leaves the chunk files and the events.
unfoldable pub IsTidy : {E : Type 0} → RecordingCall E → Type 0
IsTidy (starts write id now req) = Unit {0}
IsTidy (uploads copy write id content duration) = Unit {0}
IsTidy (sends copy write id events) = Unit {0}
IsTidy (ends listed joined write now id) = Unit {0}
IsTidy (deletes removed id) = Unit {0}
IsTidy (deletes (left r) id) =
    (r.keeps_metadata ≡ false) ⊎ ((r.keeps_events ≡ true) × ((n : ℕ) → r.keeps_chunk n ≡ true))

keep_chunks_all :
    (kept : ℕ → Bool) (chunks : GoMap ℕ Text)
    → ((n : ℕ) → kept n ≡ true)
    → keep_chunks kept chunks ≡ chunks
unfolding keep_chunks
keep_chunks_all kept [] all = refl
keep_chunks_all kept ((n, content) ∷ chunks) all =
    rw (keep_chunks, all n) (ap (λ rest. (n, content) ∷ rest) (keep_chunks_all kept chunks all))

module _ {E : Type 0} where
  unfoldable pub serve : Disk E → RecordingCall E → Disk E
  unfolding create append_chunk append_events finalize delete_recording new_recording
  serve disk (starts write id now req) = (create write (new_recording id now req) disk).0
  serve disk (uploads copy write id content duration) =
      (append_chunk copy write id content duration disk).0
  serve disk (sends copy write id events) = (append_events copy write id events disk).0
  serve disk (ends listed joined write now id) = (finalize listed joined write now id disk).0
  serve disk (deletes removal id) = (delete_recording removal id disk).0

  unfoldable pub serve_all : Disk E → List (RecordingCall E) → Disk E
  unfolding serve
  serve_all disk [] = disk
  serve_all disk (c ∷ cs) = serve_all (serve disk c) cs

  pub read_metadata-ok :
      (id : Text) (disk : Disk E) (d : Directory E) (rec : Recording)
      → read_metadata id disk ≡ ok (d, rec)
      → (lookup id disk ≡ some d) × (d.metadata ≡ readable rec)
  unfolding read_metadata
  read_metadata-ok id disk d rec h = (ground arith, ground arith)

  made_dir-Sound : (id : Text) (disk : Disk E) → DiskSound disk → Sound (made_dir id disk)
  unfolding made_dir
  made_dir-Sound id disk sound = elim (Option-cases (lookup id disk)) [
    | inl new ↦ rw (made_dir, new) (λ rec e. absurd (cc))
    | inr (d, found) ↦ rw (made_dir, found) (sound id d found)
  ]

  create-Sound :
      (write : Write (Unit {0})) (id : Text) (now : ℕ) (req : CreateRecordingRequest)
      (disk : Disk E)
      → DiskSound disk
      → DiskSound (create write (new_recording id now req) disk).0
  unfolding create new_recording bytes_below
  create-Sound write id now req disk sound =
      let d = made_dir id disk in
      insert-DiskSound id (write_metadata write (new_recording id now req) d).0 disk sound (
        write_metadata-Sound write (new_recording id now req) d (made_dir-Sound id disk sound)
          (record {
            there = λ i below. absurd (omega arith);
            durations = refl;
            bytes = refl;
            counted = omega arith;
          }))

  append_chunk-Sound :
      (copy : Write Text) (write : Write (Unit {0})) (id content : Text) (duration : ℕ)
      (disk : Disk E)
      → DiskSound disk
      → DiskSound (append_chunk copy write id content duration disk).0
  unfolding append_chunk
  append_chunk-Sound copy write id content duration disk sound =
      elim (Result-cases (read_metadata id disk)) [
        | inl (e, bad) ↦ rw (append_chunk, bad) sound
        | inr ((d, rec), good) ↦
            let (found, read) = read_metadata-ok id disk d rec good in
            rw (append_chunk, good)
              (insert-DiskSound id (append_chunk_to copy write content duration d rec).0 disk sound
                (append_chunk_to-Sound d rec read (sound id d found) copy write content duration))
      ]

  append_events-Sound :
      (copy : Write (Lines E)) (write : Write (Unit {0})) (id : Text) (events : List E)
      (disk : Disk E)
      → DiskSound disk
      → DiskSound (append_events copy write id events disk).0
  unfolding append_events
  append_events-Sound copy write id events disk sound =
      elim (Result-cases (read_metadata id disk)) [
        | inl (e, bad) ↦ rw (append_events, bad) sound
        | inr ((d, rec), good) ↦
            let (found, read) = read_metadata-ok id disk d rec good in
            rw (append_events, good)
              (insert-DiskSound id (append_events_to copy write events d rec).0 disk sound
                (append_events_to-Sound d rec read (sound id d found) copy write events))
      ]

  finalize-Sound :
      (listed joined : Bool) (write : Write (Unit {0})) (now : ℕ) (id : Text) (disk : Disk E)
      → DiskSound disk
      → DiskSound (finalize listed joined write now id disk).0
  unfolding finalize
  finalize-Sound listed joined write now id disk sound =
      elim (Result-cases (read_metadata id disk)) [
        | inl (e, bad) ↦ rw (finalize, bad) sound
        | inr ((d, rec), good) ↦
            let (found, read) = read_metadata-ok id disk d rec good in
            rw (finalize, good)
              (insert-DiskSound id (finalize_dir listed joined write now d rec).0 disk sound
                (finalize_dir-Sound d rec read (sound id d found) listed joined write now))
      ]

  leave_files-Sound :
      (r : Remains) (id : Text) (d : Directory E)
      → IsTidy {E = E} (deletes (left r) id)
      → Sound d
      → Sound (leave_files r d)
  unfolding leave_files IsTidy
  leave_files-Sound r id d (inl gone) sound = λ rec e. absurd (cc (rw (leave_files, gone) at e))
  leave_files-Sound r id d (inr (events, chunks)) sound = λ rec e.
      elim (Bool-cases r.keeps_metadata) [
        | inr gone ↦ absurd (cc (rw (leave_files, gone) at e))
        | inl metadata ↦
            let agrees = sound rec (rw (leave_files, metadata) at e) in
            let same = keep_chunks_all r.keeps_chunk d.chunks chunks in
            record {
              there = λ i below.
                  let (c, found) = agrees.there i below in (c, ap (lookup i) same ∙ found);
              durations = agrees.durations;
              bytes = ap (bytes_below rec.chunk_count) same ∙ agrees.bytes;
              counted = rw events agrees.counted;
            }
      ]

  delete-Sound :
      (removal : RemoveAll) (id : Text) (disk : Disk E)
      → IsTidy {E = E} (deletes removal id)
      → DiskSound disk
      → DiskSound (delete_recording removal id disk).0
  unfolding delete_recording
  delete-Sound removed id disk tidy sound = elim (Option-cases (lookup id disk)) [
    | inl none_there ↦ rw (delete_recording, none_there) sound
    | inr (d, found) ↦
        rw (delete_recording, found)
          (λ k f at_k. sound k f (ground (arith, lookup-delete id k disk)))
  ]
  delete-Sound (left r) id disk tidy sound = elim (Option-cases (lookup id disk)) [
    | inl none_there ↦ rw (delete_recording, none_there) sound
    | inr (d, found) ↦
        rw (delete_recording, found)
          (insert-DiskSound id (leave_files r d) disk sound
            (leave_files-Sound r id d tidy (sound id d found)))
  ]

  serve-Sound :
      (disk : Disk E) (c : RecordingCall E) → IsTidy c → DiskSound disk → DiskSound (serve disk c)
  unfolding serve IsTidy
  serve-Sound disk (starts write id now req) tidy sound = create-Sound write id now req disk sound
  serve-Sound disk (uploads copy write id content duration) tidy sound =
      append_chunk-Sound copy write id content duration disk sound
  serve-Sound disk (sends copy write id events) tidy sound =
      append_events-Sound copy write id events disk sound
  serve-Sound disk (ends listed joined write now id) tidy sound =
      finalize-Sound listed joined write now id disk sound
  serve-Sound disk (deletes removal id) tidy sound = delete-Sound removal id disk tidy sound

  nothing : (k : Text) (f : Directory E) → ◌≢◌ {A = Option (Directory E)} (lookup k []) (some f)
  unfolding lookup
  nothing k f = λ h. cc

  serve_all-Sound_from :
      (disk : Disk E) (calls : List (RecordingCall E))
      → All IsTidy calls
      → DiskSound disk
      → DiskSound (serve_all disk calls)
  unfolding serve_all
  serve_all-Sound_from disk [] tidy sound = sound
  serve_all-Sound_from disk (c ∷ cs) (first, rest) sound =
      serve_all-Sound_from (serve disk c) cs rest (serve-Sound disk c first sound)

-- After any sequence of requests to start, upload, send, end and delete, with writes that fail or are
-- cut, the metadata of each recording that can be read agrees with its files: every chunk that is counted
-- has its file, the durations and the bytes are those of the counted chunks, and no more events are
-- counted than the file holds, where no line of it is broken. A removal that fails must have taken the
-- metadata away, or have left the chunk files and the events.
pub serve_all-Sound :
    (E : Type 0) (calls : List (RecordingCall E)) (id : Text) (d : Directory E) (rec : Recording)
    → All IsTidy calls
    → lookup id (serve_all [] calls) ≡ some d
    → d.metadata ≡ readable rec
    → Agrees d rec
serve_all-Sound E calls id d rec tidy found read =
    serve_all-Sound_from [] calls tidy (λ k f at_k. absurd (nothing k f at_k)) id d found rec read
