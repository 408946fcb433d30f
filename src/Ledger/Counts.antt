-- ===== src/Ledger/Counts.antt =====
-- What the operations of the ledger do to the counts (`SubmitLedger` of
-- `crates/quip-coordinator/src/chain/outcome.rs`).
use quip_miner.Prelude.{
  zero, suc, min, max, ◌≤◌, ==_iff, ℕ, ◌&&◌, List, [], ◌∷◌, none, some, inl, inr, Option-cases, ◌≡◌,
  refl, leb, ◌==◌, if◌then◌else◌, arith,
}
use quip_miner.Prelude.Bytes.{Bytes, bytes_eq, bytes_eq_iff}
use quip_miner.Prelude.Assoc.{get, insert, remove, get-insert, get-remove}
use quip_miner.Router.State.{u32_max, add_u32}
use quip_miner.Ledger.{
  empty_ledger, retry, stop_fatal, Blocks, SubmitLedger, get_block, put_block, retain_from, remove,
  count_of, or_default, cutoff_of, prune, attempts, counted, record_failure, record_success,
}

get_block-put_block :
    (q p : ℕ) (jobs : List (Bytes × ℕ)) (m : Blocks)
    → get_block p (put_block q jobs m) ≡ (if q == p then some jobs else get_block p m)
unfolding get_block put_block
get_block-put_block q p jobs [] = refl
get_block-put_block q p jobs ((b, old) ∷ m) = ground (arith, get_block-put_block q p jobs m)

get_block-retain_from :
    (cutoff p : ℕ) (m : Blocks)
    → get_block p (retain_from cutoff m) ≡ (if leb cutoff p then get_block p m else none)
unfolding get_block retain_from
get_block-retain_from cutoff p [] = ground arith
get_block-retain_from cutoff p ((b, jobs) ∷ m) = ground (arith, get_block-retain_from cutoff p m)

count_of-insert :
    (k j : Bytes) (n : ℕ) (m : List (Bytes × ℕ))
    → count_of j (insert k n m) ≡ (if bytes_eq k j then n else count_of j m)
count_of-insert k j n m = ground (arith, get-insert k j n m)

count_of-remove :
    (k j : Bytes) (m : List (Bytes × ℕ))
    → count_of j (remove k m) ≡ (if bytes_eq k j then 0 else count_of j m)
count_of-remove k j m = ground (arith, get-remove k j m)

attempts-default :
    (l : SubmitLedger) (q : ℕ) (j : Bytes)
    → attempts l q j ≡ count_of j (or_default (get_block q l.counts))
unfolding attempts get
attempts-default l q j = ground arith

attempts-prune :
    (newest : ℕ) (l : SubmitLedger) (q : ℕ) (j : Bytes)
    → attempts (prune newest l) q j ≡ (if leb (cutoff_of newest) q then attempts l q j else 0)
unfolding attempts prune
attempts-prune newest l q j = ground (arith, get_block-retain_from (cutoff_of newest) q l.counts)

attempts-counted :
    (q : ℕ) (k : Bytes) (l : SubmitLedger) (p : ℕ) (j : Bytes)
    → attempts (counted q k l) p j
      ≡ (if (q == p) && bytes_eq k j then add_u32 (attempts l q k) 1 else attempts l p j)
unfolding attempts get
attempts-counted q k l p j = ground (
  arith,
  get_block-put_block q p
      (insert k (add_u32 (count_of k (or_default (get_block q l.counts))) 1)
        (or_default (get_block q l.counts)))
      l.counts,
  count_of-insert k j (add_u32 (count_of k (or_default (get_block q l.counts))) 1)
      (or_default (get_block q l.counts)),
)

-- A failure adds one to the count of its job in its block, up to the bound of a `u32`; blocks more
-- than seven before it lose their counts, and all other counts stay.
pub attempts-record_failure :
    (q : ℕ) (k : Bytes) (l : SubmitLedger) (p : ℕ) (j : Bytes)
    → attempts (record_failure q k l).0 p j ≡ (
        if leb (cutoff_of q) p
        then (if (q == p) && bytes_eq k j then add_u32 (attempts l q k) 1 else attempts l p j)
        else 0)
unfolding record_failure
attempts-record_failure q k l p j =
    ground (arith, attempts-prune q (counted q k l) p j, attempts-counted q k l p j)

-- A success clears the count of its job in its block and no other.
pub attempts-record_success :
    (q : ℕ) (k : Bytes) (l : SubmitLedger) (p : ℕ) (j : Bytes)
    → attempts (record_success q k l) p j ≡ (if (q == p) && bytes_eq k j then 0 else attempts l p j)
unfolding record_success attempts
attempts-record_success q k l p j = elim (Option-cases (get_block q l.counts)) [
  | inl e ↦ rw (e, record_success) (ground (arith, e))
  | inr (jobs, e) ↦
      rw (e, record_success)
        (ground
          (arith, e, get_block-put_block q p (remove k jobs) l.counts, count_of-remove k j jobs))
]

-- As many failures of one job in one block, one after the other.
pub fail_times : ℕ → ℕ → Bytes → SubmitLedger → SubmitLedger
fail_times zero q k l = l
fail_times (suc n) q k l = (record_failure q k (fail_times n q k l)).0

attempts-fail_times :
    (n q : ℕ) (k : Bytes) (m : ℕ) → attempts (fail_times n q k (empty_ledger m)) q k ≡ min n u32_max
unfolding fail_times
attempts-fail_times zero q k m = unfold attempts get_block in refl
attempts-fail_times (suc n) q k m = ground (
  arith,
  attempts-record_failure q k (fail_times n q k (empty_ledger m)) q k,
  attempts-fail_times n q k m,
  bytes_eq_iff k k,
  ==_iff q q,
)

max_attempts-fail_times :
    (n q : ℕ) (k : Bytes) (l : SubmitLedger) → (fail_times n q k l).max_attempts ≡ l.max_attempts
unfolding fail_times record_failure prune
max_attempts-fail_times zero q k l = refl
max_attempts-fail_times (suc n) q k l = max_attempts-fail_times n q k l

-- With a bound of a `u32`, the failure after n consecutive ones of a job in a block stops exactly
-- if the bound, at least one, is at most n + 1; else the caller retries.
pub record_failure-fail_times :
    (n q : ℕ) (k : Bytes) (m : ℕ)
    → m ≤ u32_max
    → (record_failure q k (fail_times n q k (empty_ledger m))).1
      ≡ (if leb (max m 1) (suc n) then stop_fatal else retry)
unfolding record_failure
record_failure-fail_times n q k m h = ground (
  arith,
  h,
  attempts-fail_times n q k m,
  max_attempts-fail_times n q k (empty_ledger m),
  attempts-default (fail_times n q k (empty_ledger m)) q k,
)
