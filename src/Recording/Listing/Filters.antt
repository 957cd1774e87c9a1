-- ===== src/Recording/Listing/Filters.antt =====
-- What the filters of `listRecordings` leave.
use rdp_warp_portal.Prelude.{
  ℕ, ◌≡◌, refl, ◌∙◌, ap, Bool, true, false, ◌&&◌, ◌||◌, Option, none, some, List, [], ◌∷◌, text_eq,
  Text, ◌==◌, keep, keep-keep, if◌then◌else◌, sym,
}
use rdp_warp_portal.Recording.Store.{Recording, Disk}
use rdp_warp_portal.Recording.Listing.{
  ListQuery, list, list_recordings, filter_text, filter_time, matches_target, matches_windows_user,
  matches_status, starts_from, ends_by,
}

abbrev by_text : (Text → Recording → Bool) → Text → Recording → Bool
by_text matches value rec = value == [] || matches value rec

abbrev by_time : (ℕ → Recording → Bool) → Option ℕ → Recording → Bool
by_time matches none rec = true
by_time matches (some time) rec = matches time rec

-- Whether a recording passes every filter of a query that is given.
unfoldable pub passes : ListQuery → Recording → Bool
unfolding matches_target matches_windows_user starts_from ends_by matches_status
passes q rec =
    (((by_text matches_target q.target rec && by_text matches_windows_user q.user rec)
        && by_time starts_from q.start rec)
      && by_time ends_by q.end rec)
    && by_text matches_status q.status rec

keep_all : {A : Type 0} (xs : List A) → keep (λ x. true) xs ≡ xs
keep_all [] = refl
keep_all (x ∷ xs) = ap (◌∷◌ x) (keep_all xs)

keep_unless :
    (unset : Bool) (p : Recording → Bool) (recs : List Recording)
    → (if unset then recs else keep p recs) ≡ keep (λ x. unset || p x) recs
keep_unless true p recs = sym (keep_all recs)
keep_unless false p recs = refl

filter_text-keep :
    (matches : Text → Recording → Bool) (value : Text) (recs : List Recording)
    → filter_text matches value recs ≡ keep (by_text matches value) recs
unfolding filter_text
filter_text-keep matches value recs = keep_unless (value == []) (matches value) recs

filter_time-keep :
    (matches : ℕ → Recording → Bool) (time : Option ℕ) (recs : List Recording)
    → filter_time matches time recs ≡ keep (by_time matches time) recs
unfolding filter_time
filter_time-keep matches none recs = sym (keep_all recs)
filter_time-keep matches (some time) recs = refl

keep_more :
    (p r : Recording → Bool) (xs all : List Recording)
    → xs ≡ keep p all
    → keep r xs ≡ keep (λ x. p x && r x) all
keep_more p r xs all h = ap (keep r) h ∙ keep-keep p r all

-- The answer to a query has the recordings of `List` that pass every filter that is given, in the
-- order of `List`.
pub list_recordings-keep :
    {E : Type 0} (q : ListQuery) (disk : Disk E)
    → list_recordings q disk ≡ keep (passes q) (list disk)
unfolding list_recordings passes
list_recordings-keep q disk =
    let target = by_text matches_target q.target in
    let user = by_text matches_windows_user q.user in
    let start = by_time starts_from q.start in
    let end = by_time ends_by q.end in
    let status = by_text matches_status q.status in
    let all = list disk in
    let one = filter_text-keep matches_target q.target all in
    let two = filter_text-keep matches_windows_user q.user _ ∙ keep_more target user _ all one in
    let three =
      filter_time-keep starts_from q.start _
      ∙ keep_more (λ x. target x && user x) start _ all two in
    let four =
      filter_time-keep ends_by q.end _
      ∙ keep_more (λ x. (target x && user x) && start x) end _ all three in
    filter_text-keep matches_status q.status _
    ∙ keep_more (λ x. ((target x && user x) && start x) && end x) status _ all four
