-- ===== src/Recording/Listing/Order.antt =====
-- The order of `List`.
use rdp_warp_portal.Prelude.{
  refl, ◌≤◌, List, [], ◌∷◌, arith, ltb, Bool-cases, inl, inr, All, All-imp,
}
use mathlib.Core.List.{Perm}
use mathlib.Core.List.Perm
use rdp_warp_portal.Recording.Store.{Recording, Disk}
use rdp_warp_portal.Recording.Listing.{readable_recordings, insert_recording, sort_recordings, list}

-- The latest start first.
abbrev pub IsLatestFirst : List Recording → Type 0
IsLatestFirst [] = Unit
IsLatestFirst (rec ∷ recs) = All (λ r. r.started_at ≤ rec.started_at) recs × IsLatestFirst recs

insert_recording-All :
    (P : Recording → Type 0) (rec : Recording) (recs : List Recording)
    → P rec
    → All P recs
    → All P (insert_recording rec recs)
unfolding insert_recording
insert_recording-All P rec [] h hs = (h, tt)
insert_recording-All P rec (r ∷ recs) h hs = elim (Bool-cases (ltb rec.started_at r.started_at)) [
  | inl later ↦ rw later (hs.0, insert_recording-All P rec recs h hs.1)
  | inr first ↦ rw first (h, hs)
]

insert_recording-IsLatestFirst :
    (rec : Recording) (recs : List Recording)
    → IsLatestFirst recs
    → IsLatestFirst (insert_recording rec recs)
unfolding insert_recording
insert_recording-IsLatestFirst rec [] h = (tt, tt)
insert_recording-IsLatestFirst rec (r ∷ recs) (below, h) =
    elim (Bool-cases (ltb rec.started_at r.started_at)) [
      | inl later ↦ rw later (
        insert_recording-All (λ x. x.started_at ≤ r.started_at) rec recs (ground arith) below,
        insert_recording-IsLatestFirst rec recs h,
      )
      | inr first ↦
          let top : r.started_at ≤ rec.started_at = ground arith in
          rw first ((top, All-imp recs (λ x b. omega arith) below), (below, h))
    ]

insert_recording-Perm :
    (rec : Recording) (recs : List Recording) → Perm (insert_recording rec recs) (rec ∷ recs)
unfolding insert_recording
insert_recording-Perm rec [] = Perm.rfl
insert_recording-Perm rec (r ∷ recs) = elim (Bool-cases (ltb rec.started_at r.started_at)) [
  | inl later ↦
      rw later
        (Perm.trans (Perm.cons' refl (insert_recording-Perm rec recs)) (Perm.swap rec r recs))
  | inr first ↦ rw first Perm.rfl
]

sort_recordings-Perm : (recs : List Recording) → Perm (sort_recordings recs) recs
unfolding sort_recordings
sort_recordings-Perm [] = Perm.rfl
sort_recordings-Perm (rec ∷ recs) =
    Perm.trans (insert_recording-Perm rec (sort_recordings recs))
      (Perm.cons' refl (sort_recordings-Perm recs))

sort_recordings-IsLatestFirst : (recs : List Recording) → IsLatestFirst (sort_recordings recs)
unfolding sort_recordings
sort_recordings-IsLatestFirst [] = tt
sort_recordings-IsLatestFirst (rec ∷ recs) =
    insert_recording-IsLatestFirst rec (sort_recordings recs) (sort_recordings-IsLatestFirst recs)

-- `List` has every recording whose metadata can be read, as often as the directories do, and the
-- latest start first.
pub list_lem :
    {E : Type 0} (disk : Disk E)
    → IsLatestFirst (list disk) × Perm (list disk) (readable_recordings disk)
unfolding list
list_lem disk = (
  sort_recordings-IsLatestFirst (readable_recordings disk),
  sort_recordings-Perm (readable_recordings disk),
)
