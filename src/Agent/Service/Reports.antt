-- ===== src/Agent/Service/Reports.antt =====
-- What the service reports until it ends.
use rdp_warp_portal.Prelude.{◌≡◌, refl, Bool, true, false, some, List, [], ◌∷◌, ◌++◌, ap}
use rdp_warp_portal.Agent.Service.{
  ServiceStatus, start_pending, running, stop_pending, interrogated, Signal, agent_ended,
  stop_requested, shutdown_requested, other_request, interrogate, serve_signals, execute,
}

-- The answers to interrogations only.
unfoldable pub answers : List Signal → List ServiceStatus
answers [] = []
answers (interrogate status ∷ signals) = interrogated status ∷ answers signals
answers (other_request ∷ signals) = answers signals
answers (agent_ended good ∷ signals) = []
answers (stop_requested ∷ signals) = []
answers (shutdown_requested ∷ signals) = []

-- What is reported at the end: that a stop is under way, if it was asked for.
abbrev pub farewell : Bool → List ServiceStatus
farewell true = stop_pending ∷ []
farewell false = []

serve_signals_lem :
    (signals : List Signal)
    → (serve_signals signals).reports
      ≡ answers signals ++ farewell (serve_signals signals).told_to_stop
unfolding serve_signals answers
serve_signals_lem [] = refl
serve_signals_lem (agent_ended true ∷ signals) = refl
serve_signals_lem (agent_ended false ∷ signals) = refl
serve_signals_lem (stop_requested ∷ signals) = refl
serve_signals_lem (shutdown_requested ∷ signals) = refl
serve_signals_lem (other_request ∷ signals) = serve_signals_lem signals
serve_signals_lem (interrogate status ∷ signals) =
    ap (◌∷◌ (interrogated status)) (serve_signals_lem signals)

-- A loop that was told to stop ends with the code 0.
stopped_code :
    (signals : List Signal)
    → (serve_signals signals).told_to_stop ≡ true
    → (serve_signals signals).exit_code ≡ some 0
unfolding serve_signals
stopped_code [] h = absurd (cc)
stopped_code (agent_ended true ∷ signals) h = absurd (cc)
stopped_code (agent_ended false ∷ signals) h = absurd (cc)
stopped_code (stop_requested ∷ signals) h = refl
stopped_code (shutdown_requested ∷ signals) h = refl
stopped_code (other_request ∷ signals) h = stopped_code signals h
stopped_code (interrogate status ∷ signals) h = stopped_code signals h

-- A service that is told to stop ends, whatever it received before, with the code 0: it reports that it
-- starts, that it runs, its answers, and that it stops.
pub execute-reports :
    (signals : List Signal)
    → (execute true signals).told_to_stop ≡ true
    → ((execute true signals).exit_code ≡ some 0)
      × ((execute true signals).reports
          ≡ start_pending ∷ running ∷ (answers signals ++ (stop_pending ∷ [])))
unfolding execute
execute-reports signals h = (
  stopped_code signals h,
  ap (λ rest. start_pending ∷ running ∷ rest) (rw (rw h at (serve_signals_lem signals)) refl),
)
