-- ===== src/Agent/Trackers/Changes.antt =====
-- The trackers report changes, and texts of bounded length.
use rdp_warp_portal.Prelude.{
  ℕ, suc, ◌+◌, ◌≤◌, ◌≢◌, Option, none, some, List, [], ◌∷◌, ◌++◌, nat_eq, text_eq, text_beq, Text,
  codes, length, arith, Bool-cases, inl, inr, length-append, length-take_le, take, All, ◌==◌, ltb,
  beq_refl, if◌then◌else◌,
}
use rdp_warp_portal.Agent.Events.{WindowEvent, ClipboardEvent}
use rdp_warp_portal.Agent.Trackers.{
  Window, window_tick, window_run, truncated, clipboard_tick, clipboard_run,
}

-- Each title differs from the one before, the first from `last`.
abbrev pub Changes : Text → List WindowEvent → Type 0
Changes last [] = Unit
Changes last (e ∷ events) = (e.title ≢ last) × Changes e.title events

-- Whatever windows come to the front, no two events in a row have the same title, and the first differs
-- from the last title that was known.
pub window_run-Changes :
    (ticks : List (ℕ × Option Window)) (last : Text) → Changes last (window_run ticks last)
unfolding window_run window_tick
window_run-Changes [] last = tt
window_run-Changes ((now, none) ∷ ticks) last = window_run-Changes ticks last
window_run-Changes ((now, some w) ∷ ticks) last = elim (Bool-cases (w.title == last)) [
  | inl same ↦ rw (window_run, window_tick, same) (window_run-Changes ticks last)
  | inr other ↦
      rw (window_run, window_tick, other)
        ((λ e. absurd (ground (arith, beq_refl last))), window_run-Changes ticks w.title)
]

cut_bound :
    (n : ℕ) (content : Text)
    → length (if ltb n (length content) then take n content ++ codes "..." else content) ≤ n + 3
cut_bound n content = elim (Bool-cases (ltb n (length content))) [
  | inl long ↦ rw long (
      omega (
        arith,
        length-append (take n content) (codes "..."),
        length-take_le n content (ground arith),
      ))
  | inr short ↦ rw short (ground arith)
]

cut_filled :
    (n : ℕ) (c : ℕ) (content : Text)
    → (if ltb (suc n) (length (c ∷ content))
        then take (suc n) (c ∷ content) ++ codes "..."
        else c ∷ content)
      ≢ []
cut_filled n c content = elim (Bool-cases (ltb (suc n) (length (c ∷ content)))) [
  | inl long ↦ rw long (λ e. absurd (cc))
  | inr short ↦ rw short (λ e. absurd (cc))
]

abbrev pub Bounded : ClipboardEvent → Type 0
Bounded e = (e.content ≢ []) × (length e.content ≤ 515)

-- Whatever the clipboard holds, an event's text has between 1 and 515 bytes.
pub clipboard_run_bounds :
    (ticks : List (ℕ × ℕ × Text × Option Window)) (last : ℕ)
    → All Bounded (clipboard_run ticks last)
unfolding clipboard_run clipboard_tick truncated text_beq
clipboard_run_bounds [] last = tt
clipboard_run_bounds ((now, seq, content, w) ∷ ticks) last = elim (Bool-cases (seq == last)) [
  | inl same ↦ rw (clipboard_run, clipboard_tick, same) (clipboard_run_bounds ticks last)
  | inr other ↦
      elim content
        as (λ content. All Bounded (clipboard_run ((now, seq, content, w) ∷ ticks) last)) [
          | [] ↦ rw (clipboard_run, clipboard_tick, other) (clipboard_run_bounds ticks seq)
          | c ∷ content ↦
              rw (clipboard_run, clipboard_tick, other, truncated)
                (
                  (cut_filled 511 c content, cut_bound 512 (c ∷ content)),
                  clipboard_run_bounds ticks seq,
                )
        ]
]
