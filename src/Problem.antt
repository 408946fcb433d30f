-- ===== src/Problem.antt =====
-- The coefficients of a problem (`crates/quip-coordinator/src/producer/problem.rs`). The sampling
-- overrides of the message stay unset and are not modelled.
use quip_miner.Prelude.{
  ℕ, true, false, List, Option, none, some, ◌&&◌, ◌==◌, ◌⊎◌, inl, inr, ◌≡◌, arith,
}
use quip_miner.Prelude.Int.{ℤ}
use quip_miner.Wire.{WireTags, Graph, IsingProblem, Codec}
use quip_miner.Router.Capable.{milli_scale}

-- Which of the three messages the error has.
pub data ProblemError : Type 0 where
  wrong_encoding : ℕ → ℕ → ProblemError
  bad_h : ProblemError
  bad_j : ProblemError

module _ (tags : WireTags) (codec : Codec) where
  unfoldable pub milli_problem : Option Graph → List ℤ → List ℤ → IsingProblem
  milli_problem graph h_milli j_milli = record {
    graph = graph;
    encoding = tags.i32_encoding;
    scale = milli_scale;
    h = codec.encode_i32_le h_milli;
    j = codec.encode_i32_le j_milli;
  }

  unfoldable pub problem_milli : IsingProblem → (List ℤ × List ℤ) ⊎ ProblemError
  problem_milli problem =
      elim (problem.encoding == tags.i32_encoding && problem.scale == milli_scale) [
        | false ↦ inr (wrong_encoding problem.encoding problem.scale)
        | true ↦ elim (codec.decode_i32_le problem.h) [
          | none ↦ inr bad_h
          | some h ↦ elim (codec.decode_i32_le problem.j) [ none ↦ inr bad_j | some j ↦ inl (h, j) ]
        ]
      ]

  -- If the decoder reads what the encoder writes, the coefficients of a problem that the coordinator
  -- writes are read back.
  pub problem_milli-milli_problem :
      ((xs : List ℤ) → codec.decode_i32_le (codec.encode_i32_le xs) ≡ some xs)
      → (graph : Option Graph) (h j : List ℤ) → problem_milli (milli_problem graph h j) ≡ inl (h, j)
  unfolding problem_milli milli_problem
  problem_milli-milli_problem reads graph h j = ground (arith, reads h, reads j)
