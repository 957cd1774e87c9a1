-- ===== src/Session/ProxyProcess/Examples.antt =====
-- A proxy that accepts in the third round.
use rdp_warp_portal.Prelude.{ℕ, ◌≡◌, false, some, nat_eq, Result, ◌==◌}
use rdp_warp_portal.Session.ProxyProcess.Waiting.{Explains, wait_for_port_ends}
use rdp_warp_portal.Session.ProxyProcess.{WaitError, Dialing, wait_for_port}

abbrev third_round : Dialing
third_round = record {
  accepted = λ n. n == 2;
  took = λ n. 10;
  done_before = λ n. false;
  done_after = λ n. false;
}

wait_for_port_ends_example :
    (result : Result WaitError ℕ) × (wait_for_port 0 10000 third_round ≡ some result)
    × Explains third_round 0 10000 result
wait_for_port_ends_example = wait_for_port_ends 0 10000 third_round
