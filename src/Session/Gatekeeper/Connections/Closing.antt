-- ===== src/Session/Gatekeeper/Connections/Closing.antt =====
-- Which connections `Stop` closes, and which it leaves.
use rdp_warp_portal.Prelude.{
  ℕ, ◌+◌, ◌≡◌, Bool, true, false, ◌&&◌, not, List, [], ◌∷◌, if◌then◌else◌, ltb, ◌==◌, nat_eq,
  length,
}
use rdp_warp_portal.Session.Gatekeeper.Connections.Counting.{count, has}
use rdp_warp_portal.Session.Gatekeeper.Connections.{
  Listener, Turn, waiting, accepted, recorded, new_gatekeeper, start, accept, advance, leave,
  close_conn, finish,
}

-- A connection that the loop has accepted and not recorded, and one that has no handler yet.
pub unrecorded : ℕ → Turn → ℕ
unrecorded c waiting = 0
unrecorded c (accepted x) = if x == c then 1 else 0
unrecorded c (recorded x) = 0

pub unlaunched : Turn → ℕ
unlaunched waiting = 0
unlaunched (accepted x) = 0
unlaunched (recorded x) = 1

-- While the gatekeeper is open: an open connection is one that is not recorded yet, one that is
-- tracked, or one that its handler is about to close; and there is a handler to wait for to each tracked
-- connection, but for the one whose handler is not launched yet, and to each handler that is ending.
record Tracks (g : Listener) : Type 0 where
  tracked :
      (c : ℕ)
      → count c g.sockets ≡ unrecorded c g.turn + (count c g.client_conns + count c g.leaving)
  counted : g.active + unlaunched g.turn ≡ length g.client_conns + (length g.leaving + g.left)
  launching : (c : ℕ) → g.turn ≡ recorded c → has c g.client_conns ≡ true

-- The steps of the loop and of the handlers.
pub data Life : Type 0 where
  accepts : ℕ → Life
  advances : Life
  leaves closes : ℕ → Life
  ends : Life

is_new : ℕ → Turn → Bool
is_new c waiting = false
is_new c (accepted x) = false
is_new c (recorded x) = x == c

-- The handler of a tracked connection leaves once it is launched, then it closes its connection, then it
-- is done; another call is no step.
live : Listener → Life → Listener
live g (accepts c) = accept c g
live g advances = advance g
live g (leaves c) = if has c g.client_conns && not (is_new c g.turn) then leave c g else g
live g (closes c) = if has c g.leaving then close_conn c g else g
live g ends = if ltb 0 g.left then finish g else g

pub run : Listener → List Life → Listener
unfolding live has is_new
run g [] = g
run g (e ∷ es) = run (live g e) es

-- A gatekeeper that has started.
abbrev pub opened : Listener
opened = (start new_gatekeeper).0
