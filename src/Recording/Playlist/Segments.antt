-- ===== src/Recording/Playlist/Segments.antt =====
-- The segments of a playlist, and the requests for them.
use rdp_warp_portal.Prelude.{
  ℕ, zero, suc, ◌*◌, ◌^◌, ◌≤◌, ◌<◌, ◌≡◌, refl, ap, ◌∙◌, List, [], ◌∷◌, codes, some, ltb, length,
  All, All-imp, arith, pos, if◌then◌else◌, nat_eq,
}
use rdp_warp_portal.Strings.Atoi.{trim_suffix-append, atoi-three_digits}
use rdp_warp_portal.Strings.{three_digits, atoi}
use rdp_warp_portal.Recording.Store.{Recording}
use rdp_warp_portal.Recording.Playlist.{
  default_duration, durations_from, durations, max_duration, target_duration, segment_name,
  segment_index,
}

-- The name that the playlist gives a chunk asks for that chunk, for every number of 63 bits.
pub segment_index-segment_name :
    (n : ℕ) → n < 2 ^ 63 → segment_index (segment_name n) ≡ some (pos n)
unfolding segment_index segment_name
segment_index-segment_name n h =
    ap atoi (trim_suffix-append (three_digits n) (codes ".ts")) ∙ atoi-three_digits n h

max_duration_lem :
    (best : ℕ) (ds : List ℕ)
    → (best ≤ max_duration best ds) × All (λ d. d ≤ max_duration best ds) ds
unfolding max_duration
max_duration_lem best [] = (omega arith, tt)
max_duration_lem best (d ∷ ds) =
    let (top, all) = max_duration_lem (if ltb best d then d else best) ds in
    (ground arith, (ground arith, all))

durations_from_lem :
    (n i default : ℕ) (known : List ℕ)
    → 0 < default
    → (length (durations_from n i default known) ≡ n)
      × All (λ d. 0 < d) (durations_from n i default known)
unfolding durations_from
durations_from_lem zero i default known h = (refl, tt)
durations_from_lem (suc n) i default known h =
    let (count, all) = durations_from_lem n (suc i) default known h in
    (ap suc count, (ground arith, all))

-- A playlist has one duration for each chunk that is counted, and each is longer than nothing and no
-- longer than the target duration.
pub durations_lem :
    (rec : Recording)
    → (length (durations rec) ≡ rec.chunk_count)
      × All (λ d. 0 < d) (durations rec)
      × All (λ d. d ≤ 1000 * target_duration rec) (durations rec)
unfolding durations target_duration default_duration
durations_lem rec =
    let default = default_duration rec in
    let (count, filled) =
      durations_from_lem rec.chunk_count 0 default rec.chunk_durations (ground arith) in
    let (top, all) = max_duration_lem default (durations rec) in
    (count, filled, All-imp (durations rec) (λ d h. omega (arith, h)) all)
