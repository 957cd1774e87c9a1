-- ===== src/Recording/ListingExamples.antt =====
-- The list and the segments of recordings at concrete inputs. An event is a number here.
use rdp_warp_portal.Prelude.{
  ℕ, ◌≡◌, refl, text_beq, false, none, some, [], ◌∷◌, text_eq, Text, codes, arith, pos,
}
use rdp_warp_portal.Recording.Listing.{
  ListQuery, list, list_recordings, readable_recordings, sort_recordings, insert_recording,
  filter_text, filter_time, matches_target, matches_windows_user, local_user, starts_from,
}
use rdp_warp_portal.Strings.{has_prefix, to_lower, equal_fold, index}
use rdp_warp_portal.Recording.Playlist.Segments.{segment_index-segment_name}
use rdp_warp_portal.Recording.Playlist.{segment_index, segment_name}
use rdp_warp_portal.Recording.Store.{Recording, Disk, readable, torn, whole, recording}

abbrev recorded : Text → ℕ → Recording
recorded user start = record {
  id = user;
  session_id = codes "s";
  target_id = codes "dc-01";
  target_name = codes "DC";
  windows_user = user;
  proxy_user = user;
  agent_hostname = codes "dc-01";
  status = recording;
  started_at = start;
  ended_at = none;
  duration = 0;
  chunk_secs = 30;
  chunk_count = 0;
  chunk_durations = [];
  total_bytes = 0;
  event_count = 0;
}

-- Two recordings, and one whose metadata is torn.
abbrev three_dirs : Disk ℕ
three_dirs =
    (
      codes "bob",
      record {
        metadata = readable (recorded (codes "bob") 5);
        chunks = [];
        events = [];
        ending = whole;
        video = false;
      },
    )
    ∷ (
      codes "x",
      record { metadata = torn; chunks = []; events = []; ending = whole; video = false },
    )
    ∷ (
      codes "amy",
      record {
        metadata = readable (recorded (codes "amy") 9);
        chunks = [];
        events = [];
        ending = whole;
        video = false;
      },
    )
    ∷ []

abbrev of_bob : ListQuery
of_bob = record {
  target = codes "dc";
  user = codes "Bob@corp.example";
  start = some 5;
  end = none;
  status = [];
}

-- Bob's recording, under his address.
bob_listed : list_recordings of_bob three_dirs ≡ recorded (codes "bob") 5 ∷ []
unfolding list_recordings list readable_recordings sort_recordings insert_recording filter_text
    filter_time matches_target matches_windows_user local_user starts_from has_prefix to_lower
    equal_fold index text_beq
bob_listed = refl

segment_index-segment_name_example : segment_index (segment_name 1234) ≡ some (pos 1234)
segment_index-segment_name_example = segment_index-segment_name 1234 (omega arith)
