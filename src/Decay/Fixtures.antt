-- ===== src/Decay/Fixtures.antt =====
-- Floating-point numbers counted in thousandths, for the runs and the witnesses that project a decay
-- (`crates/quip-coordinator/src/decay.rs`).
use quip_miner.Prelude.{ℕ, ◌+◌, ◌*◌, ◌/◌, ◌-◌, min, leb}
use quip_miner.Prelude.Int.{pos, pos_part}
use quip_miner.Decay.Rules.{FloatOps}

abbrev pub thousandths : FloatOps
thousandths = record {
  Float = ℕ;
  of_i64 = λ n. pos_part n * 1000;
  of_u64 = λ n. n * 1000;
  add = λ a b. a + b;
  sub = λ a b. a - b;
  mul = λ a b. a * b / 1000;
  div = λ a b. a * 1000 / b;
  min_float = λ a b. min a b;
  le = λ a b. leb a b;
  log = λ a. a;
  round = λ a. (a + 500) / 1000 * 1000;
  pow = λ a b. 1000;
  to_i64 = λ a. pos (a / 1000);
}
