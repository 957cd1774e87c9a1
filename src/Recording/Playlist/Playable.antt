-- ===== src/Recording/Playlist/Playable.antt =====
-- The segments of a playlist and the files of the recording.
use rdp_warp_portal.Prelude.{
  ℕ, zero, suc, ◌+◌, ◌*◌, ◌<◌, ◌≡◌, refl, sym, ap, ◌∙◌, Bool, Option, none, some, List, [], ◌∷◌,
  ◌++◌, Text, codes, ltb, length, All, arith, Bool-cases, Result-cases, ok, inl, inr, keep, ◌&&◌,
  text_eq, nat_eq, append-nil,
}
use rdp_warp_portal.Prelude.Assoc.{lookup}
use rdp_warp_portal.Strings.{has_prefix}
use rdp_warp_portal.Recording.Store.{
  Recording, RecordingStatus, recording, completed, failed, Directory, Disk, get, read_metadata,
}
use rdp_warp_portal.Recording.Calls.{
  IsTidy, RecordingCall, serve_all, serve_all-Sound, read_metadata-ok,
}
use rdp_warp_portal.Recording.Playlist.{
  default_duration, durations, segment_name, segment_lines, end_list, playlist_lines,
  generate_playlist,
}
use rdp_warp_portal.Recording.Playlist.Segments.{durations_lem}

-- The numbers `i` to `i + n - 1`.
unfoldable pub numbers : ℕ → ℕ → List ℕ
numbers i zero = []
numbers i (suc n) = i ∷ numbers (suc i) n

unfoldable pub segment_paths : List ℕ → List Text
segment_paths [] = []
segment_paths (i ∷ is) = (codes "segments/" ++ segment_name i) ∷ segment_paths is

abbrev pub is_segment : Text → Bool
is_segment line = has_prefix line (codes "segments/")

segments_of_lines :
    (default i : ℕ) (before : Option ℕ) (ds : List ℕ) (tail : List Text)
    → keep is_segment (segment_lines default i before ds ++ tail)
      ≡ segment_paths (numbers i (length ds)) ++ keep is_segment tail
unfolding segment_lines segment_paths numbers has_prefix
segments_of_lines default i before [] tail = refl
segments_of_lines default i none (d ∷ ds) tail =
    ap (λ lines. (codes "segments/" ++ segment_name i) ∷ lines)
      (segments_of_lines default (suc i) (some d) ds tail)
segments_of_lines default i (some last) (d ∷ ds) tail =
    let rest =
      ap (λ lines. (codes "segments/" ++ segment_name i) ∷ lines)
        (segments_of_lines default (suc i) (some d) ds tail) in
    elim (Bool-cases (ltb 0 last && ltb (2 * last) default)) [
      | inl short ↦ rw short rest
      | inr long ↦ rw long rest
    ]

keep-end_list : (status : RecordingStatus) → keep is_segment (end_list status) ≡ []
unfolding end_list has_prefix
keep-end_list completed = refl
keep-end_list recording = refl
keep-end_list failed = refl

segments_of_playlist :
    (rec : Recording)
    → keep is_segment (playlist_lines rec) ≡ segment_paths (numbers 0 rec.chunk_count)
unfolding playlist_lines has_prefix
segments_of_playlist rec =
    segments_of_lines (default_duration rec) 0 none (durations rec) (end_list rec.status)
    ∙ ap (λ lines. segment_paths (numbers 0 (length (durations rec))) ++ lines)
        (keep-end_list rec.status)
    ∙ append-nil (segment_paths (numbers 0 (length (durations rec))))
    ∙ ap (λ n. segment_paths (numbers 0 n)) (durations_lem rec).0

All-numbers : (P : ℕ → Type 0) (i n : ℕ) → ((k : ℕ) → k < i + n → P k) → All P (numbers i n)
unfolding numbers
All-numbers P i zero h = tt
All-numbers P i (suc n) h =
    (h i (omega arith), All-numbers P (suc i) n (λ k below. h k (omega arith)))

some_playlist :
    {E : Type 0} (id : Text) (disk : Disk E) (lines : List Text)
    → generate_playlist id disk ≡ ok lines
    → (d : Directory E) × (rec : Recording) × (read_metadata id disk ≡ ok (d, rec))
      × (playlist_lines rec ≡ lines)
unfolding generate_playlist get
some_playlist id disk lines h = elim (Result-cases (read_metadata id disk)) [
  | inl (e, bad) ↦ absurd (cc (rw (generate_playlist, get, bad) at h))
  | inr ((d, rec), good) ↦ let same = rw (generate_playlist, get, good) at h in (d, rec, good, cc)
]

-- The segments are those of the chunks below some number, and each of these chunks has its file.
abbrev pub IsPlayable : {E : Type 0} → Text → Disk E → List Text → Type 0
IsPlayable {E} id disk lines =
    (d : Directory E) × (n : ℕ) × (lookup id disk ≡ some d)
    × (keep is_segment lines ≡ segment_paths (numbers 0 n))
    × All (λ i. (c : Text) × (lookup i d.chunks ≡ some c)) (numbers 0 n)

-- After any sequence of requests, with writes that fail or are cut, the segments of a playlist are those
-- of the chunks 0, 1 and so on, in this order and without a gap, and each of these chunks has its file. A
-- removal that fails must have taken the metadata away, or have left the chunk files and the events.
pub generate_playlist-IsPlayable :
    (E : Type 0) (calls : List (RecordingCall E)) (id : Text) (lines : List Text)
    → All IsTidy calls
    → generate_playlist id (serve_all [] calls) ≡ ok lines
    → IsPlayable id (serve_all [] calls) lines
generate_playlist-IsPlayable E calls id lines tidy h =
    let (d, rec, read, same) = some_playlist id (serve_all [] calls) lines h in
    let (found, metadata) = read_metadata-ok id (serve_all [] calls) d rec read in
    let agrees = serve_all-Sound E calls id d rec tidy found metadata in
    (
      d,
      rec.chunk_count,
      found,
      ap (keep is_segment) (sym same) ∙ segments_of_playlist rec,
      All-numbers (λ i. (c : Text) × (lookup i d.chunks ≡ some c)) 0 rec.chunk_count
          (λ k below. agrees.there k (omega arith)),
    )
