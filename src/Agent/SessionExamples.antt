-- ===== src/Agent/SessionExamples.antt =====
-- The chunks, the sessions and the start of the agent at concrete inputs.
use rdp_warp_portal.Prelude.{
  ℕ, ◌≤◌, ◌<◌, ◌≡◌, ◌≢◌, ◌↔◌, refl, true, false, Option, none, some, List, [], ◌∷◌, text_eq,
  text_beq, nat_eq, Text, codes, ok, ◌==◌, arith, All,
}
use rdp_warp_portal.Prelude.Assoc.{lookup, insert}
use rdp_warp_portal.Prelude.Weights.{total_of}
use rdp_warp_portal.Agent.Screen.Late.{watch_chunks-late}
use rdp_warp_portal.Agent.Screen.Names.{chunk_names}
use rdp_warp_portal.Agent.Screen.Watch.{Holds, Grows, watch_chunks-all}
use rdp_warp_portal.Agent.Screen.{
  Entry, chunk_name, list_chunks, chunk_files, sort_names, insert_sorted, watch_chunks,
}
use rdp_warp_portal.Agent.Sessions.Shutdown.{new_agent-Sound, run-Sound, stop_all-run}
use rdp_warp_portal.Agent.Sessions.Unrecorded.{Stays, run_unrecorded}
use rdp_warp_portal.Agent.Sessions.{
  SessionInfo, current_map, current_from, log_on, on_logon, log_off, poll, run, stop_all, new_agent,
}
use rdp_warp_portal.Agent.Startup.Bounds.{connect_lem}
use rdp_warp_portal.Agent.Startup.{connect}
use rdp_warp_portal.Strings.{has_suffix, three_digits, text_lt}

abbrev file_of : Text → Entry
file_of name = record { name = name; is_dir = false }

-- One chunk and a log, and two chunks a little later.
abbrev one_chunk : List Entry
one_chunk = file_of (codes "chunk_000.ts") ∷ file_of (codes "ffmpeg.log") ∷ []

abbrev two_chunks : List Entry
two_chunks =
    file_of (codes "chunk_001.ts")
    ∷ file_of (codes "chunk_000.ts")
    ∷ file_of (codes "ffmpeg.log")
    ∷ []

one_Holds : Holds 1 one_chunk
unfolding list_chunks chunk_files sort_names insert_sorted has_suffix chunk_names chunk_name
    three_digits text_beq
one_Holds = refl

two_Holds : Holds 2 two_chunks
unfolding list_chunks chunk_files sort_names insert_sorted has_suffix chunk_names chunk_name
    three_digits text_beq text_lt
two_Holds = refl

chunks_Grows : Grows 0 (one_chunk ∷ two_chunks ∷ []) two_chunks 2
unfolding Grows
chunks_Grows = (1, omega arith, one_Holds, (2, omega arith, two_Holds, (omega arith, two_Holds)))

watch_chunks-all_example :
    watch_chunks (one_chunk ∷ two_chunks ∷ []) two_chunks [] ≡ chunk_names 0 2
watch_chunks-all_example =
    watch_chunks-all 2 (one_chunk ∷ two_chunks ∷ []) two_chunks (omega arith) chunks_Grows

watch_chunks-late_example :
    All
      (λ c. c ≢ chunk_name 1000)
      (watch_chunks []
        (file_of (codes "chunk_1000.ts") ∷ file_of (codes "chunk_999.ts") ∷ [])
        (chunk_name 998))
watch_chunks-late_example =
    watch_chunks-late 1000 []
      (file_of (codes "chunk_1000.ts") ∷ file_of (codes "chunk_999.ts") ∷ []) (omega arith)
      (omega arith)

abbrev alice : SessionInfo
alice = record { id = 2; user = codes "alice"; state = 0; client_ip = [] }

abbrev ticks : List ((SessionInfo → Option ℕ) × Option (List SessionInfo))
ticks = (λ s. some s.id, some (alice ∷ [])) ∷ (λ s. none, none) ∷ (λ s. none, some []) ∷ []

stop_all-run_example :
    total_of (λ r. r) (stop_all (run ticks new_agent)).stopped
    ≡ total_of (λ r. r) (run ticks new_agent).started
stop_all-run_example = stop_all-run ticks (λ r. r)

-- The recorder of the first poll does not start.
abbrev failing : List ((SessionInfo → Option ℕ) × Option (List SessionInfo))
failing = (λ s. none, some (alice ∷ [])) ∷ []

abbrev later : List ((SessionInfo → Option ℕ) × Option (List SessionInfo))
later = (λ s. some s.id, none) ∷ (λ s. some s.id, some (alice ∷ [])) ∷ []

alice_known : lookup 2 (run failing new_agent).active_sessions ≡ some alice
unfolding run poll current_map current_from new_agent insert lookup log_on log_off on_logon text_beq
alice_known = refl

alice_alone : lookup 2 (run failing new_agent).recorders ≡ none
unfolding run poll current_map current_from new_agent insert lookup log_on log_off on_logon text_beq
alice_alone = refl

alice_Stays : Stays 2 later
unfolding Stays current_map current_from insert lookup text_beq
alice_Stays = ((alice, refl), tt)

run_unrecorded_example : lookup 2 (run later (run failing new_agent)).recorders ≡ none
run_unrecorded_example =
    run_unrecorded later (run failing new_agent) 2 alice
      (run-Sound failing new_agent new_agent-Sound) alice_known alice_alone alice_Stays

connect_lem_example :
    (((connect (λ n. n == 3) (λ n. false)).result ≡ ok tt)
      ↔ ((i : ℕ) × (i < 7) × ((i == 3) ≡ true)))
    × ((connect (λ n. n == 3) (λ n. false)).checks ≤ 7)
    × ((connect (λ n. n == 3) (λ n. false)).waited ≤ 60)
connect_lem_example = connect_lem (λ n. n == 3) (λ n. false) (λ i. refl)
