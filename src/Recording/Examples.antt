-- ===== src/Recording/Examples.antt =====
-- A recording with two chunks. An event is a number here.
use rdp_warp_portal.Prelude.{
  ℕ, Text, ◌≡◌, refl, All, inr, true, some, List, [], ◌∷◌, codes, text_beq, text_eq, nat_eq, ok,
  if◌then◌else◌, ◌==◌,
}
use rdp_warp_portal.Prelude.Assoc.{lookup, insert}
use rdp_warp_portal.Recording.Agreement.{Agrees}
use rdp_warp_portal.Recording.Calls.{
  CreateRecordingRequest, RecordingCall, starts, uploads, sends, ends, deletes, IsTidy, serve_all,
  serve_all-Sound,
}
use rdp_warp_portal.Recording.Store.{
  Recording, Directory, Disk, readable, completed, whole, at_line, Remains, left, done, refused,
  cut, read_metadata, append_chunk, with_chunk,
}
use rdp_warp_portal.Recording.Playlist.{playlist_lines, generate_playlist}
use rdp_warp_portal.Recording.Playlist.Playable.{IsPlayable, generate_playlist-IsPlayable}
use rdp_warp_portal.Recording.Upload.{uploaded, append_chunk-ok}

abbrev asked : CreateRecordingRequest
asked = record {
  session_id = codes "s";
  target_id = codes "dc-01";
  target_name = codes "DC";
  windows_user = codes "bob";
  proxy_user = codes "bob";
  agent_hostname = codes "dc-01";
  chunk_secs = 30;
}

-- A removal in which nothing can be removed.
abbrev spared : Remains
spared = record {
  keeps_metadata = true;
  keeps_chunk = λ n. true;
  keeps_events = true;
  keeps_video = true;
}

-- The second upload is cut at first, and sent again; the metadata of the second batch of events
-- cannot be written, and of the third one line is; then the recording cannot be removed.
abbrev calls : List (RecordingCall ℕ)
calls =
    starts done (codes "r") 100 asked
    ∷ uploads done done (codes "r") (codes "abc") 30
    ∷ uploads (cut (codes "d")) done (codes "r") (codes "defg") 30
    ∷ uploads done done (codes "r") (codes "defg") 29
    ∷ sends done done (codes "r") (1 ∷ 2 ∷ [])
    ∷ sends done refused (codes "r") (3 ∷ [])
    ∷ sends (cut (4 ∷ [], at_line)) done (codes "r") (4 ∷ 5 ∷ [])
    ∷ deletes (left spared) (codes "r")
    ∷ ends true true done 160 (codes "r")
    ∷ []

abbrev kept : Recording
kept = record {
  id = codes "r";
  session_id = codes "s";
  target_id = codes "dc-01";
  target_name = codes "DC";
  windows_user = codes "bob";
  proxy_user = codes "bob";
  agent_hostname = codes "dc-01";
  status = completed;
  started_at = 100;
  ended_at = some 160;
  duration = 60;
  chunk_secs = 30;
  chunk_count = 2;
  chunk_durations = 30 ∷ 29 ∷ [];
  total_bytes = 7;
  event_count = 2;
}

-- The third event and the fourth are in the file and are not counted.
abbrev directory : Directory ℕ
directory = record {
  metadata = readable kept;
  chunks = (0, codes "abc") ∷ (1, codes "defg") ∷ [];
  events = 1 ∷ 2 ∷ 3 ∷ 4 ∷ [];
  ending = whole;
  video = true;
}

served : lookup (codes "r") (serve_all [] calls) ≡ some directory
unfolding serve_all lookup insert text_beq
served = refl

calls-IsTidy : All IsTidy calls
unfolding IsTidy
calls-IsTidy = (tt, (tt, (tt, (tt, (tt, (tt, (tt, (inr (refl, λ n. refl), (tt, tt)))))))))

serve_all-Sound_example : Agrees directory kept
serve_all-Sound_example =
    serve_all-Sound ℕ calls (codes "r") directory kept calls-IsTidy served refl

-- The playlist of two chunks.
abbrev two_segments : List Text
two_segments = playlist_lines kept

playlist_made : generate_playlist (codes "r") (serve_all [] calls) ≡ ok two_segments
unfolding serve_all lookup insert text_beq generate_playlist
playlist_made = refl

generate_playlist-IsPlayable_example : IsPlayable (codes "r") (serve_all [] calls) two_segments
generate_playlist-IsPlayable_example =
    generate_playlist-IsPlayable ℕ calls (codes "r") two_segments calls-IsTidy playlist_made

abbrev before : Disk ℕ
before = (codes "r", directory) ∷ []

abbrev after : Disk ℕ
after = (codes "r", uploaded (codes "hi") 5 directory kept) ∷ []

append_chunk-ok_example :
    (d : Directory ℕ) × (rec : Recording) × (read_metadata (codes "r") before ≡ ok (d, rec))
    × (2 ≡ rec.chunk_count)
    × (lookup (codes "r") after ≡ (
        if codes "r" == codes "r"
        then some (uploaded (codes "hi") 5 d rec)
        else lookup (codes "r") before))
unfolding append_chunk lookup insert text_beq with_chunk
append_chunk-ok_example =
    append_chunk-ok done done (codes "r") (codes "hi") (codes "r") 5 2 before after refl
