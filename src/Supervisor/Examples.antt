-- ===== src/Supervisor/Examples.antt =====
-- Runs of `crates/quip-coordinator/src/supervisor.rs` and the theorems at an input: the policy of
-- the unit tests, with a budget of three crashes in ten seconds.
use quip_miner.Prelude.{◌+◌, [], ◌∷◌, List, ◌≡◌, refl, arith}
use quip_miner.Prelude.Int.{pos}
use quip_miner.Prelude.Bytes.{Bytes}
use quip_miner.Prelude.Assoc.{get}
use quip_miner.Router.Fixtures.{tags, fleet, job, any}
use quip_miner.Router.Held.{held}
use quip_miner.Session.{CoordinatorState, new}
use quip_miner.Supervisor.{
  BackoffPolicy, RestartAction, back_off, respawn, unhealthy, Exit, supervise, child_exited,
}
use quip_miner.Supervisor
use quip_miner.Supervisor.History.{decisions, supervise-decisions}
use quip_miner.Supervisor.Reclaim.{in_flight, Leaves, held-child_exited}

abbrev test_policy : BackoffPolicy
test_policy = record { base_ms = 500; max_ms = 4000; budget = 3; window_ms = 10000 }

abbrev exits : List Exit
exits =
    record { code = pos 70; at_ms = 0 }
    ∷ record { code = pos 70; at_ms = 100 }
    ∷ record { code = pos 0; at_ms = 200 }
    ∷ record { code = pos 70; at_ms = 300 }
    ∷ record { code = pos 70; at_ms = 400 }
    ∷ record { code = pos 70; at_ms = 500 }
    ∷ []

crash_loop_ends :
    supervise (Supervisor.new test_policy) exits
    ≡ back_off 500 ∷ back_off 1000 ∷ respawn ∷ back_off 500 ∷ unhealthy ∷ []
unfolding supervise Supervisor.new
crash_loop_ends = refl

supervise-decisions_example :
    supervise (Supervisor.new test_policy) exits ≡ decisions test_policy [] exits
supervise-decisions_example = supervise-decisions test_policy exits (omega arith)

-- Miner 5 has three staged jobs and one in flight, and another miner has one in flight.
abbrev busy : CoordinatorState
busy = record new {
  router = fleet;
  inflight = (7 ∷ [], job 7 1 7) ∷ (8 ∷ [], job 8 1 7) ∷ [];
  inflight_owner = (7 ∷ [], 5 ∷ []) ∷ (8 ∷ [], 6 ∷ []) ∷ [];
}

held-child_exited_example :
    (held any (child_exited tags (5 ∷ []) busy).router
        + in_flight tags any (child_exited tags (5 ∷ []) busy)
      ≡ held any busy.router + in_flight tags any busy)
    × ((id : Bytes) → Leaves tags any (5 ∷ []) busy (child_exited tags (5 ∷ []) busy) id)
unfolding get quip_miner.Prelude.Bytes.bytes_eq
held-child_exited_example = held-child_exited tags any (5 ∷ []) busy (refl, (refl, tt))
