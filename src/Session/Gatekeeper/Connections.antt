-- ===== src/Session/Gatekeeper/Connections.antt =====
-- The connections that a gatekeeper tracks, in proxy/internal/session/gatekeeper.go: `Start`, its
-- accept loop, `removeConn`, the deferred calls of a handler, and `Stop`. Connections are numbered.
pub mod Counting
pub mod Closing
use rdp_warp_portal.Prelude.{
  ℕ, ◌+◌, ◌-◌, Bool, true, false, Option, none, some, List, [], ◌∷◌, ◌++◌, if◌then◌else◌, ◌==◌,
  nat_eq,
}
use rdp_warp_portal.Session.Gatekeeper.{GateError, gatekeeper_closed}

-- Where the accept loop stands: it waits in `Accept`, has a connection that it has not recorded, or has
-- recorded one whose handler it has not launched.
pub data Turn : Type 0 where
  waiting : Turn
  accepted recorded : ℕ → Turn

-- `active` counts the handlers that are waited for, `sockets` are the connections that are open. A
-- handler that ends is in `leaving` once it has taken its connection from the list, and is counted in
-- `left` once it has closed it.
pub record Listener : Type 0 where
  pub listening : Bool
  pub closed : Bool
  pub client_conns : List ℕ
  pub active : ℕ
  pub sockets : List ℕ
  pub turn : Turn
  pub leaving : List ℕ
  pub left : ℕ

pub new_gatekeeper : Listener
new_gatekeeper = record {
  listening = false;
  closed = false;
  client_conns = [];
  active = 0;
  sockets = [];
  turn = waiting;
  leaving = [];
  left = 0;
}

-- `Start` up to its loop, once the port is open.
pub start : Listener → Listener × Option GateError
start g = if g.closed then (g, some gatekeeper_closed) else (record g { listening = true }, none)

-- `Accept` returns a connection to the loop that waits.
pub accept : ℕ → Listener → Listener
accept conn g = elim g.turn [
  | waiting ↦ record g { sockets = g.sockets ++ conn ∷ []; turn = accepted conn }
  | accepted c ↦ g
  | recorded c ↦ g
]

-- The loop goes on: it records the connection under the lock, then it counts and launches the handler.
pub advance : Listener → Listener
advance g = elim g.turn [
  | waiting ↦ g
  | accepted conn ↦ record g { client_conns = g.client_conns ++ conn ∷ []; turn = recorded conn }
  | recorded conn ↦ record g { active = g.active + 1; turn = waiting }
]

-- The first entry that is the connection is taken out.
unfoldable pub remove_conn : ℕ → List ℕ → List ℕ
remove_conn conn [] = []
remove_conn conn (c ∷ cs) = if c == conn then cs else c ∷ remove_conn conn cs

-- The deferred calls of a handler that returns: `removeConn`, `Close` and `Done`.
pub leave : ℕ → Listener → Listener
unfolding remove_conn
leave conn g = record g {
  client_conns = remove_conn conn g.client_conns;
  leaving = g.leaving ++ conn ∷ [];
}

pub close_conn : ℕ → Listener → Listener
unfolding remove_conn
close_conn conn g = record g {
  sockets = remove_conn conn g.sockets;
  leaving = remove_conn conn g.leaving;
  left = g.left + 1;
}

pub finish : Listener → Listener
finish g = record g { active = g.active - 1; left = g.left - 1 }

unfoldable pub close_all : List ℕ → List ℕ → List ℕ
close_all [] sockets = sockets
close_all (c ∷ cs) sockets = close_all cs (remove_conn c sockets)

-- `Stop` up to its wait: the tracked connections are closed, and tracked no more.
pub stop : Listener → Listener
unfolding close_all
stop g = record g {
  listening = false;
  closed = true;
  client_conns = [];
  sockets = close_all g.client_conns g.sockets;
}
