-- ===== src/Recording/Api.antt =====
-- The handlers of proxy/internal/api/recordings.go: what each does to the store and the status that it
-- answers with. A body that cannot be decoded is `none`.
use rdp_warp_portal.Prelude.{
  ℕ, ◌++◌, Bool, Option, none, some, List, [], Text, codes, Result, ok, err,
}
use rdp_warp_portal.Strings.{itoa}
use rdp_warp_portal.Recording.Calls.{CreateRecordingRequest, new_recording}
use rdp_warp_portal.Recording.Store.{
  Recording, StoreError, recording_not_found, unreadable_metadata, unreadable_events, file_failed,
  ffmpeg_failed, Disk, Write, Lines, RemoveAll, create, get, append_chunk, append_events, finalize,
  get_events, delete_recording,
}
use rdp_warp_portal.Recording.Playlist.{generate_playlist}

unfoldable pub failure_status : StoreError → ℕ
failure_status recording_not_found = 404
failure_status unreadable_metadata = 500
failure_status unreadable_events = 500
failure_status file_failed = 500
failure_status ffmpeg_failed = 500

-- The status of a call of the store that gives `good` when it succeeds.
unfoldable pub status_of : {A : Type 0} → ℕ → Result StoreError A → ℕ
unfolding failure_status
status_of good (ok a) = good
status_of good (err e) = failure_status e

-- The id of a new recording, with four random bytes in hexadecimal digits.
unfoldable pub new_recording_id : ℕ → Text → Text
unfolding itoa
new_recording_id millis random = codes "rec-" ++ itoa millis ++ codes "-" ++ random

-- The recording is read again for the answer.
unfoldable pub end_status : Result StoreError (Unit {0}) → Result StoreError Recording → ℕ
unfolding failure_status
end_status (err e) again = failure_status e
end_status (ok _) (err e) = 500
end_status (ok _) (ok rec) = 200

module _ {E : Type 0} where
  unfoldable pub create_recording :
      Option CreateRecordingRequest → Write (Unit {0}) → Text → ℕ → Disk E → Disk E × ℕ
  unfolding create new_recording
  create_recording none write id now disk = (disk, 400)
  create_recording (some req) write id now disk =
      let (disk', result) = create write (new_recording id now req) disk in
      (disk', elim result [ ok _ ↦ 201 | err e ↦ 500 ])

  unfoldable pub upload_chunk :
      Write Text → Write (Unit {0}) → Text → Text → ℕ → Disk E → Disk E × ℕ
  unfolding append_chunk status_of
  upload_chunk copy write id content duration disk =
      let (disk', result) = append_chunk copy write id content duration disk in
      (disk', status_of 200 result)

  unfoldable pub send_events :
      Option (List E) → Write (Lines E) → Write (Unit {0}) → Text → Disk E → Disk E × ℕ
  unfolding append_events status_of
  send_events none copy write id disk = (disk, 400)
  send_events (some events) copy write id disk =
      let (disk', result) = append_events copy write id events disk in (disk', status_of 204 result)

  unfoldable pub end_recording : Bool → Bool → Write (Unit {0}) → ℕ → Text → Disk E → Disk E × ℕ
  unfolding finalize end_status get
  end_recording listed joined write now id disk =
      let (disk', result) = finalize listed joined write now id disk in
      (disk', end_status result (get id disk'))

  unfoldable pub remove_recording : RemoveAll → Text → Disk E → Disk E × ℕ
  unfolding delete_recording status_of
  remove_recording removal id disk =
      let (disk', result) = delete_recording removal id disk in (disk', status_of 204 result)

  unfoldable pub get_recording : Text → Disk E → ℕ × Option Recording
  unfolding get failure_status
  get_recording id disk = elim (get id disk) [
    | err e ↦ (failure_status e, none)
    | ok rec ↦ (200, some rec)
  ]

  -- Whether the video is served, once the recording is found.
  unfoldable pub stream_video : Text → Disk E → Result ℕ Text
  unfolding get failure_status
  stream_video id disk = elim (get id disk) [
    | err e ↦ err (failure_status e)
    | ok rec ↦ ok (id ++ codes "/video.mp4")
  ]

  unfoldable pub read_events : Text → Disk E → ℕ × List E
  unfolding get_events failure_status
  read_events id disk = elim (get_events id disk) [
    | err e ↦ (failure_status e, [])
    | ok events ↦ (200, events)
  ]

  unfoldable pub hls_playlist : Text → Disk E → ℕ × List Text
  unfolding generate_playlist failure_status
  hls_playlist id disk = elim (generate_playlist id disk) [
    | err e ↦ (failure_status e, [])
    | ok lines ↦ (200, lines)
  ]
