-- ===== src/Session/ProxyProcess.antt =====
-- proxy/internal/session/proxy.go: waiting for the proxy's port, stopping its process, and the prefix of
-- its output. What the network and the process do is given; times are milliseconds.
pub mod Waiting
pub mod Examples
use rdp_warp_portal.Prelude.{
  ℕ, zero, suc, ◌+◌, Bool, true, false, ◌||◌, not, Option, none, some, List, [], ◌∷◌, ◌++◌, ltb,
  Text, codes, length, if◌then◌else◌, Result, ok, err,
}

pub data WaitError : Type 0 where
  proxy_not_ready wait_cancelled : WaitError

-- By the round: whether the dial is accepted and how long it takes, and whether the context is done
-- before it and in the wait after it.
pub record Dialing : Type 0 where
  pub accepted : ℕ → Bool
  pub took : ℕ → ℕ
  pub done_before : ℕ → Bool
  pub done_after : ℕ → Bool

-- The loop of `WaitReady`, with fuel for the rounds: `none` where it does not suffice.
unfoldable pub wait_from : ℕ → ℕ → ℕ → ℕ → Dialing → Option (Result WaitError ℕ)
wait_from zero round now deadline d = none
wait_from (suc fuel) round now deadline d =
    let rest = wait_from fuel (suc round) (now + d.took round + 50) deadline d in
    if ltb now deadline
    then if d.done_before round
      then some (err wait_cancelled)
      else if d.accepted round
      then some (ok round)
      else if d.done_after round
      then some (err wait_cancelled)
      else rest
    else some (err proxy_not_ready)

-- A round takes 50 milliseconds or more.
unfoldable pub wait_for_port : ℕ → ℕ → Dialing → Option (Result WaitError ℕ)
unfolding wait_from
wait_for_port now timeout d = wait_from (suc timeout) 0 now (now + timeout) d

-- What is known of a process: none was started, it has ended, or it may run.
pub data ProxyProcess : Type 0 where
  not_started exited running : ProxyProcess

pub data KillOutcome : Type 0 where
  killed no_such_process kill_failed : KillOutcome

-- Whether the stop succeeds, given what a kill would do.
unfoldable pub stop_proxy : KillOutcome → ProxyProcess → Bool
stop_proxy outcome not_started = true
stop_proxy outcome exited = true
stop_proxy killed running = true
stop_proxy no_such_process running = true
stop_proxy kill_failed running = false

-- Whether the process answers to signal 0.
unfoldable pub is_running : Bool → ProxyProcess → Bool
is_running answers not_started = false
is_running answers exited = false
is_running answers running = answers

pub record ProxyOutput : Type 0 where
  pub session_id : Text
  pub prefix : Text
  pub has_writer : Bool

-- What is written to the writer, and the count that is returned.
unfoldable pub write_output : ProxyOutput → Text → Text × ℕ
write_output p bytes =
    if p.has_writer
    then (codes "[" ++ p.session_id ++ codes "] " ++ p.prefix ++ bytes, length bytes)
    else ([], length bytes)
