-- ===== src/Recording/Playlist.antt =====
-- `GeneratePlaylist` of proxy/internal/recording/store.go, and the segment of `hlsSegment` in
-- proxy/internal/api/recordings.go. Durations are in milliseconds here.
pub mod Segments
pub mod Playable
use rdp_warp_portal.Prelude.{
  ℕ, zero, suc, ◌+◌, ◌*◌, ◌/◌, ◌%◌, Bool, true, false, ◌&&◌, Option, none, some, List, [], ◌∷◌,
  ◌++◌, nat_eq, text_eq, Text, codes, ltb, get_or, if◌then◌else◌, ◌==◌, ℤ, Result, ok, err,
}
use rdp_warp_portal.Strings.{itoa, three_digits, trim_suffix, atoi}
use rdp_warp_portal.Recording.Store.{
  Recording, RecordingStatus, recording, completed, failed, StoreError, Disk, Directory, get,
}

-- The agent's chunk duration, or 30 seconds.
unfoldable pub default_duration : Recording → ℕ
default_duration rec = if rec.chunk_secs == 0 then 30000 else rec.chunk_secs * 1000

-- The durations of the chunks `i` to `i + n - 1`: the default for one that is not known.
unfoldable pub durations_from : ℕ → ℕ → ℕ → List ℕ → List ℕ
durations_from zero i default known = []
durations_from (suc n) i default known =
    let duration = get_or known i 0 in
    (if ltb 0 duration then duration else default) ∷ durations_from n (suc i) default known

unfoldable pub durations : Recording → List ℕ
unfolding durations_from default_duration
durations rec = durations_from rec.chunk_count 0 (default_duration rec) rec.chunk_durations

unfoldable pub max_duration : ℕ → List ℕ → ℕ
max_duration best [] = best
max_duration best (d ∷ ds) = max_duration (if ltb best d then d else best) ds

-- The seconds of `EXT-X-TARGETDURATION`, rounded up.
unfoldable pub target_duration : Recording → ℕ
unfolding max_duration durations default_duration
target_duration rec = (max_duration (default_duration rec) (durations rec) + 999) / 1000

-- Seconds with three decimals.
unfoldable pub seconds : ℕ → Text
unfolding itoa three_digits
seconds ms = itoa (ms / 1000) ++ codes "." ++ three_digits (ms % 1000)

unfoldable pub segment_name : ℕ → Text
unfolding three_digits
segment_name i = three_digits i ++ codes ".ts"

-- The lines of the segments from `i` on, behind a segment of the duration `before`, if there is one.
-- A chunk shorter than half the default ends a run of ffmpeg.
unfoldable pub segment_lines : ℕ → ℕ → Option ℕ → List ℕ → List Text
unfolding seconds segment_name
segment_lines default i before [] = []
segment_lines default i before (d ∷ ds) =
    let lines =
      (codes "#EXTINF:" ++ seconds d ++ codes ",")
      ∷ (codes "segments/" ++ segment_name i)
      ∷ segment_lines default (suc i) (some d) ds in
    elim before [
      | none ↦ lines
      | some last ↦
          if ltb 0 last && ltb (2 * last) default
          then codes "#EXT-X-DISCONTINUITY" ∷ lines
          else lines
    ]

unfoldable pub end_list : RecordingStatus → List Text
end_list completed = codes "#EXT-X-ENDLIST" ∷ []
end_list recording = []
end_list failed = []

unfoldable pub playlist_lines : Recording → List Text
unfolding target_duration durations default_duration segment_lines end_list itoa
playlist_lines rec =
    codes "#EXTM3U"
    ∷ codes "#EXT-X-VERSION:3"
    ∷ (codes "#EXT-X-TARGETDURATION:" ++ itoa (target_duration rec))
    ∷ codes "#EXT-X-MEDIA-SEQUENCE:0"
    ∷ (segment_lines (default_duration rec) 0 none (durations rec) ++ end_list rec.status)

unfoldable pub generate_playlist : {E : Type 0} → Text → Disk E → Result StoreError (List Text)
unfolding playlist_lines get
generate_playlist id disk = elim (get id disk) [ err e ↦ err e | ok rec ↦ ok (playlist_lines rec) ]

-- The number of the chunk that a segment's name asks for: `none` is a bad request.
unfoldable pub segment_index : Text → Option ℤ
unfolding trim_suffix atoi
segment_index segment = atoi (trim_suffix segment (codes ".ts"))
