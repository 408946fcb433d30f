-- ===== src/Router/Examples.antt =====
-- Runs of the router (`crates/quip-coordinator/src/router.rs`), and its theorems at an input: three
-- miners, the second without leases, and three jobs, the first a lease.
use quip_miner.Prelude.{◌+◌, false, [], ◌∷◌, some, ◌≡◌, refl}
use quip_miner.Prelude.Bytes.{bytes_eq, bytes_le}
use quip_miner.Prelude.Assoc.{get}
use quip_miner.Router.State.{contains, accepts_leases}
use quip_miner.Router.Fixtures.{tags, lease_caps, job, stale_queue, fleet, any}
use quip_miner.Router.Capable.{capable, is_lease, native_compatible}
use quip_miner.Router.{
  route, route_excluding, candidates, is_capable, sort, admitted, next_job, update_capabilities,
  on_reject,
}
use quip_miner.Router.Held.{held}
use quip_miner.Router.Conservation.{held-update_capabilities}
use quip_miner.Router.Departures.{count_option, held-next_job, held-on_reject}
use quip_miner.Router.Rejects.{on_reject-is_capable}

route_least : (route tags fleet (job 9 1 7)).1 ≡ some (3 ∷ [])
unfolding route route_excluding candidates sort admitted is_capable capable contains accepts_leases
    native_compatible is_lease get bytes_eq bytes_le
route_least = refl

held-update_capabilities_example :
    held any (update_capabilities tags (5 ∷ []) lease_caps fleet).0 ≡ held any fleet
held-update_capabilities_example = held-update_capabilities tags any (5 ∷ []) lease_caps fleet

held-next_job_example :
    held any (next_job tags (5 ∷ []) fleet).0
      + count_option tags any (next_job tags (5 ∷ []) fleet).1
    ≡ held any fleet
held-next_job_example = held-next_job tags any (5 ∷ []) fleet

held-on_reject_example :
    held any (on_reject tags 0 (5 ∷ []) (job 9 1 7) 3 fleet) ≡ held any fleet + 1
held-on_reject_example = held-on_reject tags any 0 (5 ∷ []) (job 9 1 7) 3 fleet

on_reject-is_capable_example :
    is_capable tags (on_reject tags 0 (5 ∷ []) (job 9 1 7) 3 fleet) (5 ∷ []) (job 4 1 8) ≡ false
unfolding get bytes_eq
on_reject-is_capable_example =
    on_reject-is_capable tags 0 (5 ∷ []) (job 9 1 7) 3 fleet stale_queue (job 4 1 8) refl refl refl
