-- ===== src/Agent/Trackers.antt =====
-- The trackers of agent/internal/capture: window.go, clipboard.go and input.go. A tick is given what
-- the calls of user32 and kernel32 return; UTF-16 units and window handles are numbers.
pub mod Changes
use rdp_warp_portal.Prelude.{
  ℕ, zero, suc, Bool, true, false, Option, none, some, List, [], ◌∷◌, ◌++◌, nat_eq, text_eq, Text,
  codes, ltb, length, take, if◌then◌else◌, ◌==◌, ℤ,
}
use rdp_warp_portal.Agent.Events.{WindowEvent, InputEvent, ClipboardEvent}

-- The foreground window: its title and its process.
pub record Window : Type 0 where
  pub title : Text
  pub pid : ℕ

-- A tick of the window tracker: the last title, and an event if it changes.
unfoldable pub window_tick : ℕ → Option Window → Text → Text × Option WindowEvent
window_tick now none last_title = (last_title, none)
window_tick now (some w) last_title =
    if w.title == last_title
    then (last_title, none)
    else (w.title, some (record { timestamp = now; title = w.title; process = []; pid = w.pid }))

-- The events of an optional one.
abbrev pub events_of : {A : Type 0} → Option A → List A
events_of none = []
events_of (some event) = event ∷ []

unfoldable pub window_run : List (ℕ × Option Window) → Text → List WindowEvent
unfolding window_tick
window_run [] last_title = []
window_run ((now, w) ∷ ticks) last_title =
    let (title, event) = window_tick now w last_title in events_of event ++ window_run ticks title

-- `activeWindowInfo`.
unfoldable pub active_window_info : Option Window → Text × ℕ
active_window_info none = ([], 0)
active_window_info (some w) = (w.title, w.pid)

abbrev pub max_text_len : ℕ
max_text_len = 512

unfoldable pub truncated : Text → Text
truncated content =
    if ltb max_text_len (length content) then take max_text_len content ++ codes "..." else content

-- A tick of the clipboard tracker: the sequence number and the text of the clipboard.
unfoldable pub clipboard_tick : ℕ → ℕ → Text → Option Window → ℕ → ℕ × Option ClipboardEvent
unfolding truncated active_window_info
clipboard_tick now seq content w last_seq =
    let (title, pid) = active_window_info w in
    if seq == last_seq then (last_seq, none) else if content == [] then (seq, none) else (
      seq,
      some (record { timestamp = now; content = truncated content; window = title; pid = pid }),
    )

unfoldable pub clipboard_run : List (ℕ × ℕ × Text × Option Window) → ℕ → List ClipboardEvent
unfolding clipboard_tick
clipboard_run [] last_seq = []
clipboard_run ((now, seq, content, w) ∷ ticks) last_seq =
    let (latest, event) = clipboard_tick now seq content w last_seq in
    events_of event ++ clipboard_run ticks latest

-- The units of a text in memory up to its end, of which at most 2050 are read: the rounds that are
-- left.
unfoldable pub read_units : ℕ → List ℕ → List ℕ
read_units zero units = []
read_units (suc left) [] = []
read_units (suc left) (u ∷ units) = if u == 0 then [] else u ∷ read_units left units

unfoldable pub clipboard_units : List ℕ → List ℕ
unfolding read_units
clipboard_units units = read_units 2050 units

-- The button of a mouse message.
unfoldable pub button_of : ℕ → Option Text
button_of message =
    if message == 513
    then some (codes "left")
    else if message == 516
    then some (codes "right")
    else if message == 519
    then some (codes "middle")
    else none

-- `mouseHookProc`, for a hook code that is not negative or is.
unfoldable pub mouse_hook : Bool → ℕ → ℕ → ℤ → ℤ → Option Window → Option InputEvent
unfolding button_of active_window_info
mouse_hook false now message x y w = none
mouse_hook true now message x y w = elim (button_of message) [
  | none ↦ none
  | some button ↦
      let (title, pid) = active_window_info w in
      some (record {
        timestamp = now;
        type = codes "mouse_click";
        button = button;
        x = x;
        y = y;
        window = title;
        pid = pid;
      })
]
