-- ===== src/Agent/Screen.antt =====
-- agent/internal/capture/screen.go: the chunk files that ffmpeg leaves in a directory, how they are
-- found and reported, and when ffmpeg is started again. The processes belong to the system.
pub mod Names
pub mod Watch
pub mod Late
use rdp_warp_portal.Prelude.{
  ℕ, zero, suc, ◌+◌, ◌-◌, ◌/◌, ◌%◌, Bool, true, false, not, ◌&&◌, ◌||◌, List, [], ◌∷◌, ◌++◌, ltb,
  nat_eq, text_eq, Text, codes, length, if◌then◌else◌, ◌==◌, ℤ, pos, negsuc,
}
use rdp_warp_portal.Strings.{has_suffix, itoa, text_lt, three_digits}

-- A directory entry of `os.ReadDir`.
pub record Entry : Type 0 where
  pub name : Text
  pub is_dir : Bool

-- `chunk_%03d.ts`.
unfoldable pub chunk_name : ℕ → Text
unfolding three_digits
chunk_name n = codes "chunk_" ++ three_digits n ++ codes ".ts"

-- The names of the files that end in `.ts`, in the order of the entries.
unfoldable pub chunk_files : List Entry → List Text
unfolding has_suffix
chunk_files [] = []
chunk_files (e ∷ es) =
    let rest = chunk_files es in
    if not e.is_dir && has_suffix e.name (codes ".ts") then e.name ∷ rest else rest

-- `sort.Strings`.
unfoldable pub insert_sorted : Text → List Text → List Text
unfolding text_lt
insert_sorted name [] = name ∷ []
insert_sorted name (n ∷ names) =
    let later = n ∷ insert_sorted name names in if text_lt n name then later else name ∷ n ∷ names

unfoldable pub sort_names : List Text → List Text
unfolding insert_sorted
sort_names [] = []
sort_names (name ∷ names) = insert_sorted name (sort_names names)

unfoldable pub list_chunks : List Entry → List Text
unfolding chunk_files sort_names
list_chunks entries = sort_names (chunk_files entries)

-- The loop over chunks: what is reported, and the last that is.
unfoldable pub report_after : List Text → Text → List Text × Text
unfolding text_lt
report_after [] last_reported = ([], last_reported)
report_after (chunk ∷ chunks) last_reported =
    let (more, latest) = report_after chunks chunk in
    let skipped = report_after chunks last_reported in
    if text_lt last_reported chunk then (chunk ∷ more, latest) else skipped

-- `chunks[:len(chunks)-1]`.
unfoldable pub all_but_last : List Text → List Text
all_but_last [] = []
all_but_last (c ∷ []) = []
all_but_last (c ∷ d ∷ chunks) = c ∷ all_but_last (d ∷ chunks)

-- A tick of `watchChunks`.
unfoldable pub tick : List Entry → Text → List Text × Text
unfolding list_chunks report_after all_but_last
tick entries last_reported =
    let chunks = list_chunks entries in
    if ltb (length chunks) 2
    then ([], last_reported)
    else report_after (all_but_last chunks) last_reported

-- Those of some names that stand after the last that is reported.
unfoldable pub after : Text → List Text → List Text
unfolding text_lt
after last_reported [] = []
after last_reported (chunk ∷ chunks) =
    let rest = after last_reported chunks in
    if text_lt last_reported chunk then chunk ∷ rest else rest

unfoldable pub report_remaining_chunks : List Entry → Text → List Text
unfolding list_chunks after
report_remaining_chunks entries last_reported = after last_reported (list_chunks entries)

-- `watchChunks`: the directory at each tick, and when the context is done.
unfoldable pub watch_chunks : List (List Entry) → List Entry → Text → List Text
unfolding tick report_remaining_chunks
watch_chunks [] final last_reported = report_remaining_chunks final last_reported
watch_chunks (entries ∷ ticks) final last_reported =
    let (reported, latest) = tick entries last_reported in
    reported ++ watch_chunks ticks final latest

-- `stopFFmpeg`: the number of the next chunk.
unfoldable pub next_chunk : List Entry → ℕ
unfolding list_chunks
next_chunk entries = length (list_chunks entries)

-- The interval of the polls: a second, unless it is set.
unfoldable pub resize_poll : ℤ → ℕ
resize_poll (pos zero) = 1000
resize_poll (pos (suc ms)) = suc ms
resize_poll (negsuc ms) = 1000

-- `monitorResolution`: the resolution that is known, and whether a probe restarts ffmpeg.
unfoldable pub probe : ℕ × ℕ → ℕ × ℕ → (ℕ × ℕ) × Bool
probe (w, h) (nw, nh) =
    if nw == 0 || nh == 0
    then ((w, h), false)
    else if not (nw == w) || not (nh == h)
    then ((nw, nh), true)
    else ((w, h), false)
