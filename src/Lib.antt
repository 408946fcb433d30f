-- ===== src/Lib.antt =====
-- The mining coordinator of quip-miner.
--
-- The program follows the head of a Substrate chain, derives Ising problems for proofs of work,
-- routes them to miner processes, validates the solutions and submits proofs. The crate
-- `crates/quip-coordinator` holds its logic; paths below are from `crates/quip-coordinator/src`.
--
-- - `Prelude`: the libraries' names passed on, tests, lists, signed integers with the saturating
--   operations of an `i64`, byte strings with their lexicographic order, keyed maps, and the
--   stable insertion sort that stands for `sort_by_key`.
-- - `Wire`: the messages of the miner protocol, as far as the code reads them (`quip_proto`). The
--   protocol crate is not part of the repository, so its enum tags are a parameter.
-- - `Round` (round.rs): the states and events of a mining round; `transition` is
--   `RoundState::transition`.
-- - `Decay` (decay.rs): the decay of the difficulty. `Rules` has `ease_step`, `ease_stepwise`,
--   `ease_room`, `ease_continuous` and `ease_gated`; the parent has `DecayModel`, `threshold_at`
--   and the binary search of `first_clearing_elapsed`. The `f64` operations are a parameter; the
--   theorems hold for all of them. The fuel of the search is the horizon: every round shortens the
--   interval, and the theorem about the search shows that it ends by its own test.
-- - `Router` (router.rs): `State` has the records, `Capable` the capability tests, `Router` the
--   operations that move jobs, `Router/Counters` those that touch one queue. Hash maps are
--   association lists, ids and hashes byte strings, an `Instant` a number of nanoseconds. The fuel
--   of the loop of `next_job` is one more than the length of the queue.
-- - `Stash` (stash.rs): the win-time stash. The stable `sort_by_key` is an insertion sort that puts
--   the earlier of two equal energies first. `Stash/Ranking` runs sequences of calls.
-- - `Funding` (funding.rs): `ensure_funded`. `pass` is the match on the balance, `budgeted` the
--   check of the budget and the sleep, `funding_loop` the loop. The chain and the faucet are remote:
--   their answers by pass are parameters. Every pass that sleeps takes at least the first gap off the
--   budget, so the fuel is one more than the timeout holds of it.
-- - `Ledger` (chain/outcome.rs): `SubmitLedger`.
-- - `Liveness` (liveness.rs): `evaluate_status`, with the parsing of a `u64` written out.
--   `Liveness/Transitions` runs sequences of reports.
-- - `Problem` (producer/problem.rs): `milli_problem` and `problem_milli`. The codec is a parameter.
-- - `Validate` (validate.rs): the gates, the energy of a row and the rows held for later. A row
--   carries its energy, in place of the two arrays of the source. The sums of energies are taken
--   without the bound of an `i64`. `select_diverse` and `calculate_diversity` are parameters.
-- - `Session` (session.rs, and `verify_and_select` of lease.rs): the parent has `CoordinatorState`
--   and its operations, `Session/Handlers` what a message does under the lock, `Session/Messages` the
--   results of plain jobs, orders and leases, `Session/Settle` the settling of a result in the parts
--   that the source does under the lock, with the submit between. The chain's answers are
--   parameters. `Session/Outcomes` says what results are to become, and `Session/Settled` settles them
--   in turn. `Session/Reachable` interleaves the parts of all sessions. The fuel of the loop that
--   sends jobs is one more than the credits: every job takes one.
-- - `Hex` (chain/extrinsic.rs): `hex_encode` and `hex_decode`. The structural recursion over the
--   pairs of digits is the source's loop over the chunks.
-- - `Supervisor` (supervisor.rs): the restart tracker, the decisions of the loop of `supervise_miner`
--   and what an exit does to the shared state. `Supervisor/History` has the decisions from the history
--   of the exits alone. Times are numbers of milliseconds.
-- - `Snapshot` (chain/snapshot.rs, chain/pool.rs): what a round is mined against, and a pending proof.
-- - `PoolWatch` (pool_watch.rs): the judgement of pending proofs, with its cache, and the wait for the
--   block of one. `PoolWatch/Lowest` says by the verdicts alone what a scan is to find. The functions of
--   the consensus crates are a parameter.
-- - `Sync` (chain/sync.rs): `wait_until_synced`, over the node's answers by poll. `Sync/History` has
--   the outcome from the history of the answers.
-- - `Mempool` (chain/mempool.rs, producer/mempool.rs): an order, who may answer it, and its job.
-- - `Feeder` (runtime.rs): `enter_generation` is `stop_mining`; `drive_to_mining` walks the machine of
--   `Round` over the answers of the outside, one round of answers to a pass; `stage_mempool_orders`
--   with `order_gates`. The list of answers takes the place of fuel, and the theorem about the walk
--   says how many are enough.
--
-- - `Text`: a `str` as its characters, with the operations of Rust's standard library that are used.
--   `Text/Slices` has the cut at a byte index.
-- - `Survey` (survey.rs): the parent has the records, `scrub` and `clamp_utf8`, `Survey/Credential` the
--   scan for credentials, `Survey/Sanitize` `sanitize` and the tests of the pallet's bounds.
--   `to_lowercase` and the version of the build are a parameter.
-- - `Submit` (chain/submit.rs): the classification of the pallets' errors.
-- - `Readiness` (readiness.rs): the descriptor, the registrations and the participation;
--   `Readiness/Startup` is `prepare_round`. The answers of the chain are parameters, by attempt; a latch
--   is a Boolean that is passed on.
-- - `Drive` (topology.rs, drive/topology_spec.rs, drive/lease_source.rs, `build_lease_job` of lease.rs):
--   the checks of a topology document, and the source of leases. The hashes are parameters. The fuel of
--   the calls of the source is the number of salts: every lease takes one.
-- - `MockMiner` (`crates/quip-mock-miner/src/main.rs`): `handle_job` and `handle_lease`.
--
-- `Session` calls `Router` for staged jobs, `Validate` for results, `Stash` for candidates and
-- `Liveness` for reports; `Validate` reads a problem by `Problem`. `Supervisor` and `Feeder`
-- change the state of `Session`, and `Feeder` runs `Round`. `Readiness` runs `Sync`, `Funding` and
-- `Round`, and files what `Survey` returns.
--
-- Not modelled: the asynchronous runtime, the network clients, the encodings of external crates,
-- files, logs and the web pages, which are input and output; of the sessions the handshake, the
-- metrics and the attempt records; of the supervisor the processes; of the feeder the poll loop around
-- its parts; the size of a lease, which is a floating-point formula; the parsing of the configuration;
-- the probes of the host; the run of the drive mode.
pub mod Prelude
pub mod Round
pub mod Decay
pub mod Wire
pub mod Problem
pub mod Validate
pub mod Router
pub mod Stash
pub mod Funding
pub mod Ledger
pub mod Session
pub mod Supervisor
pub mod Snapshot
pub mod PoolWatch
pub mod Sync
pub mod Mempool
pub mod Feeder
pub mod Liveness
pub mod Hex
pub mod Text
pub mod Survey
pub mod Submit
pub mod Readiness
pub mod Drive
pub mod MockMiner
