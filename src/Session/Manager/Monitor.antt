-- ===== src/Session/Manager/Monitor.antt =====
-- `monitor` of proxy/internal/session/manager.go: what ends a session by itself.
use rdp_warp_portal.Prelude.{◌≡◌, ◌⊎◌, inl, inr, refl, false, none, some, text_eq}
use rdp_warp_portal.Prelude.Assoc.{lookup}
use rdp_warp_portal.Session.Manager.Ending.{Keyed}
use rdp_warp_portal.Session.Manager.Shrinking.{terminate-gone}
use rdp_warp_portal.Session.Manager.Terminate.{terminate_session}
use rdp_warp_portal.Session.Manager.{Manager, Session, is_ending}

-- What wakes the monitor of a session: its `stopMonitor`, the end of its proxy, or its timer.
pub data Wake : Type 0 where
  stop_signal process_done max_duration : Wake

unfoldable pub monitor : Wake → Session → Manager → Manager
unfolding terminate_session
monitor stop_signal s m = m
monitor process_done s m = (terminate_session s.id m).0
monitor max_duration s m = (terminate_session s.id m).0

-- A session whose proxy has ended, or whose time is over, is not registered any more, whatever its state
-- was when it was made, unless it is ending already.
pub monitor-gone :
    (made s : Session) (m : Manager) (wake : Wake)
    → Keyed m
    → lookup made.id m.sessions ≡ some s
    → is_ending s.state ≡ false
    → (wake ≡ stop_signal) ⊎ (lookup made.id (monitor wake made m).sessions ≡ none)
unfolding monitor
monitor-gone made s m stop_signal keyed found live = inl refl
monitor-gone made s m process_done keyed found live =
    inr (terminate-gone made.id s m keyed found live)
monitor-gone made s m max_duration keyed found live =
    inr (terminate-gone made.id s m keyed found live)
