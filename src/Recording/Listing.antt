-- ===== src/Recording/Listing.antt =====
-- `List` of proxy/internal/recording/store.go, and the filters of `listRecordings` in
-- proxy/internal/api/recordings.go. Recordings that started at the same time may stand in any order
-- there; here they keep that of the directory. A time that cannot be parsed is no filter.
pub mod Order
pub mod Filters
use rdp_warp_portal.Prelude.{
  ℕ, suc, ◌+◌, Bool, true, false, not, ◌&&◌, ◌||◌, Option, none, some, List, [], ◌∷◌, text_eq, Text,
  codes, leb, ltb, if◌then◌else◌, ◌==◌, take, keep, Result, ok, err,
}
use rdp_warp_portal.Strings.{index, has_prefix, to_lower, equal_fold}
use rdp_warp_portal.Recording.Store.{
  Recording, RecordingStatus, recording, completed, failed, Directory, Disk, Metadata, missing,
  torn, readable,
}

-- The readable metadata of the directories.
unfoldable pub readable_recordings : {E : Type 0} → Disk E → List Recording
readable_recordings [] = []
readable_recordings ((id, d) ∷ entries) = elim d.metadata [
  | readable rec ↦ rec ∷ readable_recordings entries
  | missing ↦ readable_recordings entries
  | torn ↦ readable_recordings entries
]

-- The latest start first.
unfoldable pub insert_recording : Recording → List Recording → List Recording
insert_recording rec [] = rec ∷ []
insert_recording rec (r ∷ recs) =
    let later = r ∷ insert_recording rec recs in
    if ltb rec.started_at r.started_at then later else rec ∷ r ∷ recs

unfoldable pub sort_recordings : List Recording → List Recording
unfolding insert_recording
sort_recordings [] = []
sort_recordings (rec ∷ recs) = insert_recording rec (sort_recordings recs)

unfoldable pub list : {E : Type 0} → Disk E → List Recording
unfolding readable_recordings sort_recordings
list disk = sort_recordings (readable_recordings disk)

unfoldable pub status_text : RecordingStatus → Text
status_text recording = codes "recording"
status_text completed = codes "completed"
status_text failed = codes "failed"

-- The query, with an empty text for a parameter that is not given.
pub record ListQuery : Type 0 where
  pub target : Text
  pub user : Text
  pub start : Option ℕ
  pub end : Option ℕ
  pub status : Text

unfoldable pub matches_target : Text → Recording → Bool
unfolding has_prefix to_lower
matches_target target rec =
    has_prefix (to_lower rec.target_name) (to_lower target)
    || has_prefix (to_lower rec.agent_hostname) (to_lower target)

-- The part before "@", if there is one.
unfoldable pub local_user : Text → Text
unfolding index
local_user user = elim (index user (codes "@")) [
  | none ↦ user
  | some i ↦ if ltb 0 i then take i user else user
]

unfoldable pub matches_windows_user : Text → Recording → Bool
unfolding equal_fold local_user
matches_windows_user user rec =
    equal_fold rec.windows_user user || equal_fold rec.windows_user (local_user user)

unfoldable pub end_of : Recording → ℕ
end_of rec = elim rec.ended_at [ none ↦ rec.started_at + rec.duration | some time ↦ time ]

unfoldable pub matches_status : Text → Recording → Bool
unfolding equal_fold status_text
matches_status status rec = equal_fold (status_text rec.status) status

-- The filters, one after the other.
unfoldable pub filter_text : (Text → Recording → Bool) → Text → List Recording → List Recording
filter_text matches value recs = if value == [] then recs else keep (matches value) recs

unfoldable pub filter_time : (ℕ → Recording → Bool) → Option ℕ → List Recording → List Recording
filter_time matches none recs = recs
filter_time matches (some time) recs = keep (matches time) recs

unfoldable pub starts_from : ℕ → Recording → Bool
starts_from start rec = not (ltb rec.started_at start)

unfoldable pub ends_by : ℕ → Recording → Bool
unfolding end_of
ends_by end_time rec = not (ltb end_time (end_of rec))

unfoldable pub list_recordings : {E : Type 0} → ListQuery → Disk E → List Recording
unfolding list filter_text filter_time matches_target matches_windows_user starts_from ends_by
    matches_status
list_recordings q disk = filter_text matches_status q.status (
    filter_time ends_by q.end (
      filter_time starts_from q.start (
        filter_text matches_windows_user q.user (filter_text matches_target q.target (list disk)))))
