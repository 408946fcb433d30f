-- ===== src/Validate.antt =====
-- The validation of a miner's result: `crates/quip-coordinator/src/validate.rs`. The parallel
-- vectors `rows` and `energies`, equally long from every caller, are one list of rows with their
-- energies. An energy sums at most 2^32 products of an `i32` and spins of 1 or -1, so it stays in
-- the range of an `i64` and is an integer here. The debug-only comparison with the consensus scorer
-- is not modelled.
pub mod Energy
pub mod Unique
pub mod Scored
pub mod Prefix
pub mod Held
mod Examples
use quip_miner.Prelude.{
  ℕ, zero, suc, ◌+◌, ◌%◌, min, max, Bool, true, false, ◌&&◌, ◌||◌, List, [], ◌∷◌, ◌++◌, map, Option,
  none, some, inl, inr, ltb, leb, ◌==◌, if◌then◌else◌, length, take, get_elem?,
}
use quip_miner.Prelude.Int.{
  ℤ, pos, negsuc, pos_part, neg_part, ◌+ℤ◌, ◌-ℤ◌, ◌*ℤ◌, ltb_ℤ, min_ℤ, i64_max,
}
use quip_miner.Prelude.Sort.{sort_by_key}
use quip_miner.Wire.{
  WireTags, Graph, topology_hash, edges, IsingProblem, SetTarget, Solution, Codec,
}
use quip_miner.Problem.{problem_milli}
use quip_miner.Router.Capable.{zip}
use quip_miner.Stash.{SpinRow}

abbrev pub max_proof_solutions : ℕ
max_proof_solutions = 32

abbrev pub stash_scan_limit : ℕ
stash_scan_limit = 128

abbrev pub u32_modulus : ℕ
u32_modulus = 4_294_967_296

-- `select_diverse` and `calculate_diversity` of the crate `quantum_validation`; none is an error.
pub record Diversity : Type 0 where
  pub select_diverse : List (List ℤ) → ℕ → Option (List ℕ)
  pub calculate_diversity : List (List ℤ) → Option ℕ

pub record QualityGates : Type 0 where
  pub min_energy_milli : ℤ
  pub min_diversity_milli : ℕ
  pub min_solutions : ℕ

pub record Validated : Type 0 where
  pub best_energy_milli : ℤ
  pub diversity_milli : ℕ
  pub n_valid : ℕ
  pub accepted : Bool
  pub selected_solutions : List SpinRow
  pub raw_best_energy_milli : ℤ
  pub stash_solutions : List SpinRow

pub record ProofGates : Type 0 where
  pub best_energy_milli : ℤ
  pub diversity_milli : ℕ
  pub n_valid : ℕ
  pub accepted : Bool

abbrev pub energy : SpinRow → ℤ
energy r = r.energy_milli

abbrev pub spins_of : List SpinRow → List (List ℤ)
spins_of [] = []
spins_of (r ∷ rs) = r.spins ∷ spins_of rs

-- The numbers from one on, as many as the second.
unfoldable pub indices : ℕ → ℕ → List ℕ
indices from zero = []
indices from (suc n) = from ∷ indices (suc from) n

-- The elements at the indices. An index out of range, at which the source panics, is passed over.
unfoldable pub pick {ℓ} : {A : Type ℓ} → List ℕ → List A → List A
pick [] xs = []
pick (i ∷ is) xs =
    let rest = pick is xs in elim (get_elem? xs i) [ none ↦ rest | some x ↦ x ∷ rest ]

-- The rows under the ceiling.
unfoldable pub admit : ℤ → List SpinRow → List SpinRow
admit ceiling [] = []
admit ceiling (r ∷ rs) =
    let rest = admit ceiling rs in if ltb_ℤ r.energy_milli ceiling then r ∷ rest else rest

-- `map(|s| s.energy_milli).min()`.
unfoldable pub lowest : List SpinRow → Option ℤ
lowest [] = none
lowest (r ∷ rs) = elim (lowest rs) [
  | none ↦ some r.energy_milli
  | some e ↦ some (min_ℤ r.energy_milli e)
]

abbrev pub or_max : Option ℤ → ℤ
or_max none = i64_max
or_max (some e) = e

unfoldable pub gates_from_target : Option SetTarget → QualityGates
gates_from_target none = record {
  min_energy_milli = i64_max;
  min_diversity_milli = 0;
  min_solutions = 0;
}
gates_from_target (some t) = record {
  min_energy_milli = t.max_energy_milli;
  min_diversity_milli = t.min_diversity_milli;
  min_solutions = t.min_solutions;
}

-- The position of a node, the last one where it stands twice (a map is filled in order).
unfoldable pub position_of : ℕ → ℕ → List ℕ → Option ℕ
position_of node i [] = none
position_of node i (n ∷ ns) = elim (position_of node (suc i) ns) [
  | some p ↦ some p
  | none ↦ if n == node then some (i % u32_modulus) else none
]

abbrev pub or_zero : Option ℕ → ℕ
or_zero none = 0
or_zero (some n) = n

-- `ResolvedTopo::new`: the edges between positions.
unfoldable pub resolve_edges : List ℕ → List (ℕ × ℕ) → List (ℕ × ℕ)
resolve_edges nodes [] = []
resolve_edges nodes ((u, v) ∷ es) =
    (or_zero (position_of u 0 nodes), or_zero (position_of v 0 nodes)) ∷ resolve_edges nodes es

abbrev pub is_minus_one : ℤ → Bool
is_minus_one (negsuc zero) = true
is_minus_one (negsuc (suc n)) = false
is_minus_one (pos n) = false

abbrev pub flip : List ℤ → List ℤ
flip [] = []
flip (s ∷ ss) = (pos 0 -ℤ s) ∷ flip ss

unfoldable pub canonicalize_spins : List ℤ → List ℤ
canonicalize_spins [] = []
canonicalize_spins (s ∷ ss) = if is_minus_one s then flip (s ∷ ss) else s ∷ ss

unfoldable pub eq_ℤ : ℤ → ℤ → Bool
eq_ℤ a b = pos_part a == pos_part b && neg_part a == neg_part b

unfoldable pub spins_eq : List ℤ → List ℤ → Bool
unfolding eq_ℤ
spins_eq [] [] = true
spins_eq [] (b ∷ bs) = false
spins_eq (a ∷ as') [] = false
spins_eq (a ∷ as') (b ∷ bs) = eq_ℤ a b && spins_eq as' bs

-- Membership in the set `seen`.
unfoldable pub has_seen : List ℤ → List (List ℤ) → Bool
unfolding spins_eq
has_seen key [] = false
has_seen key (k ∷ ks) = spins_eq k key || has_seen key ks

-- The rows whose canonical form was not seen, the first occurrence of each.
unfoldable pub unique : List (List ℤ) → List SpinRow → List SpinRow
unfolding has_seen
unique seen [] = []
unique seen (r ∷ rs) =
    let skipped = unique seen rs in
    let kept = r ∷ unique (canonicalize_spins r.spins ∷ seen) rs in
    if has_seen (canonicalize_spins r.spins) seen then skipped else kept

-- The two loops of `energy_of_row`, from an energy on.
unfoldable pub field_energy : ℤ → List ℤ → List ℤ → ℤ
field_energy e [] ss = e
field_energy e (field ∷ hs) [] = e
field_energy e (field ∷ hs) (s ∷ ss) = field_energy (e +ℤ field *ℤ s) hs ss

unfoldable pub coupling_energy : List ℤ → ℤ → List (ℕ × ℕ) → List ℤ → Option ℤ
coupling_energy spins e [] js = some e
coupling_energy spins e ((u, v) ∷ es) [] = some e
coupling_energy spins e ((u, v) ∷ es) (coupling ∷ js) = elim (get_elem? spins u) [
  | none ↦ none
  | some su ↦ elim (get_elem? spins v) [
    | none ↦ none
    | some sv ↦ coupling_energy spins (e +ℤ coupling *ℤ su *ℤ sv) es js
  ]
]

unfoldable pub energy_of_row : List ℤ → List ℤ → List (ℕ × ℕ) → List ℤ → Option ℤ
unfolding field_energy coupling_energy
energy_of_row spins h_milli edges_pos j_milli = elim (length spins == length h_milli) [
  | false ↦ none
  | true ↦ coupling_energy spins (field_energy (pos 0) h_milli spins) edges_pos j_milli
]

-- Strict: the first accepted holds on equal energy.
unfoldable pub beats_current : ℤ → Option ℤ → Bool
beats_current candidate_milli none = true
beats_current candidate_milli (some cur) = ltb_ℤ candidate_milli cur

module _ (crate : Diversity) where
  unfoldable pub selection : List (List ℤ) → ℕ → List ℕ
  selection rows min_solutions =
      elim (crate.select_diverse rows (min (length rows) (max min_solutions 1))) [
        | none ↦ indices 0 (length rows)
        | some selected ↦ selected
      ]

  unfoldable pub select_and_score : List (List ℤ) → ℕ → List ℕ × ℕ
  select_and_score rows min_solutions =
      let selected = selection rows min_solutions in
      (selected, or_zero (crate.calculate_diversity (pick selected rows)))

  unfoldable pub check_proof_gates : List SpinRow → QualityGates → ProofGates
  check_proof_gates solutions gates =
      let admitted = admit gates.min_energy_milli solutions in
      elim (lowest admitted) [
        | none ↦ record {
          best_energy_milli = i64_max;
          diversity_milli = 0;
          n_valid = 0;
          accepted = false;
        }
        | some best ↦
            let n_valid = length admitted % u32_modulus in
            let diversity = (select_and_score (spins_of admitted) gates.min_solutions).1 in
            record {
              best_energy_milli = best;
              diversity_milli = diversity;
              n_valid = n_valid;
              accepted = leb gates.min_solutions n_valid && leb gates.min_diversity_milli diversity;
            }
      ]

  -- `chosen` after the row was pushed and, where the prefix is not diverse enough, popped.
  unfoldable pub extended : QualityGates → List SpinRow → SpinRow → List SpinRow
  extended gates chosen r =
      let longer = chosen ++ r ∷ [] in
      let (_, diversity) = select_and_score (spins_of longer) gates.min_solutions in
      if ltb (length longer) 2
      then longer
      else if ltb diversity gates.min_diversity_milli
      then chosen
      else longer

  unfoldable pub stash_loop :
      QualityGates → List SpinRow → List (List ℤ) → ℕ → List SpinRow → List SpinRow
  unfolding has_seen
  stash_loop gates [] seen examined chosen = chosen
  stash_loop gates (r ∷ rs) seen examined chosen =
      let key = canonicalize_spins r.spins in
      let skipped = stash_loop gates rs seen examined chosen in
      let further = stash_loop gates rs (key ∷ seen) (suc examined) (extended gates chosen r) in
      if length chosen == max_proof_solutions || examined == stash_scan_limit
      then chosen
      else if has_seen key seen
      then skipped
      else further

  unfoldable pub stash_rows : List SpinRow → QualityGates → List SpinRow
  unfolding stash_loop
  stash_rows scored gates = stash_loop gates (sort_by_key energy scored) [] 0 []

  unfoldable pub validate_scored : List SpinRow → QualityGates → Validated
  validate_scored scored gates =
      let valid = unique [] (admit gates.min_energy_milli scored) in
      let n_valid = length valid % u32_modulus in
      let (selected, scored_diversity) = select_and_score (spins_of valid) gates.min_solutions in
      let diversity = if length valid == 0 then 0 else scored_diversity in
      record {
        best_energy_milli =
            if length valid == 0 then i64_max else or_max (lowest (pick selected valid));
        diversity_milli = diversity;
        n_valid = n_valid;
        accepted = leb gates.min_solutions n_valid && leb gates.min_diversity_milli diversity;
        selected_solutions =
            if length valid == 0 then [] else pick (take max_proof_solutions selected) valid;
        raw_best_energy_milli = or_max (lowest scored);
        stash_solutions = stash_rows scored gates;
      }

-- The edges between positions that a problem is scored on.
unfoldable pub edges_pos_of : Option Graph → List (ℕ × ℕ) → List (ℕ × ℕ)
unfolding zip
edges_pos_of none topo = []
edges_pos_of (some (topology_hash hash)) topo = topo
edges_pos_of (some (edges u v)) topo = zip u v

module _ (tags : WireTags) (codec : Codec) where
  unfoldable pub score_solutions : List ℤ → List (ℕ × ℕ) → List ℤ → List Solution → List SpinRow
  score_solutions h edges_pos j [] = []
  score_solutions h edges_pos j (sol ∷ sols) =
      let rest = score_solutions h edges_pos j sols in
      elim (codec.decode_spins_packed sol.spins (length h)) [
        | none ↦ rest
        | some spins ↦ elim (energy_of_row spins h edges_pos j) [
          | none ↦ rest
          | some e ↦ record { spins = spins; energy_milli = e } ∷ rest
        ]
      ]

  abbrev pub rejected : Validated
  rejected = record {
    best_energy_milli = i64_max;
    diversity_milli = 0;
    n_valid = 0;
    accepted = false;
    selected_solutions = [];
    raw_best_energy_milli = i64_max;
    stash_solutions = [];
  }

  unfoldable pub validate_result :
      Diversity → IsingProblem → List Solution → QualityGates → List (ℕ × ℕ) → Validated
  unfolding score_solutions
  validate_result crate problem solutions gates topo = elim (problem_milli tags codec problem) [
    | inr e ↦ rejected
    | inl (h, j) ↦
        validate_scored crate (score_solutions h (edges_pos_of problem.graph topo) j solutions)
          gates
  ]
