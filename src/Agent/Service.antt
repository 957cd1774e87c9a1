-- ===== src/Agent/Service.antt =====
-- `Execute` of agent/cmd/p0rtal-agent/service_windows.go: the Windows service around the agent.
pub mod Reports
use rdp_warp_portal.Prelude.{ℕ, Bool, true, false, Option, none, some, List, [], ◌∷◌, ◌++◌}

-- The states that the service reports; an interrogation is answered with the state that it names.
pub data ServiceStatus : Type 0 where
  start_pending running stop_pending : ServiceStatus
  interrogated : ServiceStatus → ServiceStatus

-- What the loop receives: the end of the agent, with or without an error, or a request.
pub data Signal : Type 0 where
  agent_ended : Bool → Signal
  stop_requested shutdown_requested other_request : Signal
  interrogate : ServiceStatus → Signal

-- The reports, the exit code if the loop ends, and whether the agent was told to stop.
pub record Execution : Type 0 where
  pub reports : List ServiceStatus
  pub exit_code : Option ℕ
  pub told_to_stop : Bool

-- The loop: a stop waits for the agent, however it ends.
unfoldable pub serve_signals : List Signal → Execution
serve_signals [] = record { reports = []; exit_code = none; told_to_stop = false }
serve_signals (agent_ended true ∷ signals) = record {
  reports = [];
  exit_code = some 0;
  told_to_stop = false;
}
serve_signals (agent_ended false ∷ signals) = record {
  reports = [];
  exit_code = some 1;
  told_to_stop = false;
}
serve_signals (stop_requested ∷ signals) = record {
  reports = stop_pending ∷ [];
  exit_code = some 0;
  told_to_stop = true;
}
serve_signals (shutdown_requested ∷ signals) = record {
  reports = stop_pending ∷ [];
  exit_code = some 0;
  told_to_stop = true;
}
serve_signals (other_request ∷ signals) = serve_signals signals
serve_signals (interrogate status ∷ signals) =
    let rest = serve_signals signals in record rest { reports = interrogated status ∷ rest.reports }

-- `Execute`, if the path of the executable is known.
unfoldable pub execute : Bool → List Signal → Execution
unfolding serve_signals
execute false signals = record {
  reports = start_pending ∷ [];
  exit_code = some 1;
  told_to_stop = false;
}
execute true signals =
    let rest = serve_signals signals in
    record rest { reports = start_pending ∷ running ∷ rest.reports }
