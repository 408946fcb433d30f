-- ===== src/Readiness/Latches.antt =====
-- The steps that a process takes once (`register_round_miner` and `file_round_descriptor` of
-- `crates/quip-coordinator/src/readiness.rs`).
use mathlib.Core.Path.{subst}
use quip_miner.Prelude.{
  ℕ, zero, suc, ◌+◌, ◌≤◌, ◌<◌, Bool, true, false, List, [], ◌∷◌, Option, none, ◌≡◌, refl, sym, ◌⊎◌,
  inl, inr, Option-cases, ◌≢◌, dec_lt, arith,
}
use quip_miner.Prelude.Bytes.{Bytes}
use quip_miner.Text.{Text}
use quip_miner.Submit.{DescriptorOutcome, RegistrationOutcome}
use quip_miner.Readiness.{
  DescriptorParams, Filing, file_attempts, build_descriptor_payload, file_round_descriptor,
  Registration, register_attempts, register_round_miner,
}

-- The first of a number of attempts that has an answer, or that none has.
abbrev pub FirstAnswer : (ℕ → Option RegistrationOutcome) → ℕ → Registration → Type 0
FirstAnswer answers total r =
    ((k : ℕ) × (k < total)
      × ((i : ℕ) → i < k → answers i ≡ none)
      × (answers k ≢ none)
      × (r ≡ record { known = true; latch = true; calls = k + 1 }))
    ⊎ (((i : ℕ) → i < total → answers i ≡ none)
        × (r ≡ record { known = false; latch = false; calls = total }))

extend :
    (answers : ℕ → Option RegistrationOutcome) (n : ℕ)
    → ((i : ℕ) → i < n → answers i ≡ none)
    → answers n ≡ none
    → (i : ℕ) → i < n + 1
    → answers i ≡ none
extend answers n errors a i h = elim (dec_lt i n) [
  | yes l ↦ errors i l
  | no g ↦ let e : i ≡ n = omega arith in rw e a
]

register_attempts-FirstAnswer :
    (answers : ℕ → Option RegistrationOutcome) (left n total : ℕ)
    → left + n ≡ total
    → ((i : ℕ) → i < n → answers i ≡ none)
    → FirstAnswer answers total (register_attempts answers left n)
unfolding register_attempts
register_attempts-FirstAnswer answers zero n total e errors =
    inr ((λ i h. errors i (omega arith)), ground arith)
register_attempts-FirstAnswer answers (suc left) n total e errors =
    elim (Option-cases (answers n)) [
      | inr (outcome, a) ↦
          inl (n, omega arith, errors, (λ k. cc (a, k)), rw (a, register_attempts) refl)
      | inl a ↦
          let goes_on : register_attempts answers (suc left) n
              ≡ register_attempts answers left (n + 1) =
            rw (a, register_attempts) refl in
          subst (FirstAnswer answers total) (sym goes_on) (
            register_attempts-FirstAnswer answers left (n + 1) total (omega arith)
              (extend answers n errors a))
    ]

-- With the latch set the miner is known without a call. Otherwise the chain is asked up to three times:
-- the first answer sets the latch and ends the calls, and after three errors the latch stays clear.
pub register_round_miner-FirstAnswer :
    (answers : ℕ → Option RegistrationOutcome)
    → (register_round_miner answers true ≡ record { known = true; latch = true; calls = 0 })
      × FirstAnswer answers 3 (register_round_miner answers false)
unfolding register_round_miner
register_round_miner-FirstAnswer answers =
    (refl, register_attempts-FirstAnswer answers 3 0 3 refl (λ i h. absurd (omega arith)))

file_attempts-latch :
    (answers : ℕ → Option DescriptorOutcome) (left n : ℕ)
    → ((file_attempts answers left n).latch ≡ true)
      × ((file_attempts answers left n).submits ≤ left + n)
unfolding file_attempts
file_attempts-latch answers zero n = (refl, omega arith)
file_attempts-latch answers (suc left) n = elim (Option-cases (answers n)) [
  | inr (outcome, a) ↦ rw (a, file_attempts) (refl, omega arith)
  | inl a ↦
      let h = file_attempts-latch answers left (n + 1) in
      rw (a, file_attempts) (h.0, omega (arith, h.1))
]

-- One walk of a round: what it would file and what the chain would answer.
pub record FilingCall : Type 0 where
  pub params : DescriptorParams
  pub account : Bytes
  pub answers : ℕ → Option DescriptorOutcome

module _ (to_ss58check : Bytes → Text) where
  abbrev pub file : FilingCall → Bool → Filing
  file c latch = file_round_descriptor to_ss58check c.params c.account c.answers latch

  file_lem :
      (c : FilingCall) (latch : Bool) → ((file c latch).latch ≡ true) × ((file c latch).submits ≤ 3)
  unfolding file_round_descriptor
  file_lem c true = (refl, omega arith)
  file_lem c false =
      elim (Option-cases (build_descriptor_payload to_ss58check c.params c.account)) [
        | inl e ↦ rw (e, file_round_descriptor) (refl, omega arith)
        | inr (payload, e) ↦ rw (e, file_round_descriptor) (file_attempts-latch c.answers 3 0)
      ]

  pub file_round_descriptor-latch :
      (params : DescriptorParams) (account : Bytes) (answers : ℕ → Option DescriptorOutcome)
      (latch : Bool)
      → (file_round_descriptor to_ss58check params account answers latch).latch ≡ true
  file_round_descriptor-latch params account answers latch =
      (file_lem (record { params = params; account = account; answers = answers }) latch).0

  -- The submits of all walks of a process, the latch passed from each to the next.
  unfoldable pub submits_of : List FilingCall → Bool → ℕ
  submits_of [] latch = 0
  submits_of (c ∷ calls) latch = (file c latch).submits + submits_of calls (file c latch).latch

  latched-submits : (calls : List FilingCall) → submits_of calls true ≡ 0
  unfolding submits_of file_round_descriptor
  latched-submits [] = refl
  latched-submits (c ∷ calls) = omega (arith, latched-submits calls)

  -- All walks of a process together submit a descriptor at most three times, and each walk after the
  -- first submits none, whatever the chain answers.
  pub submits_of-le :
      (c : FilingCall) (calls : List FilingCall)
      → (submits_of (c ∷ calls) false ≤ 3) × (submits_of calls (file c false).latch ≡ 0)
  unfolding submits_of
  submits_of-le c calls =
      let h = file_lem c false in
      let z : submits_of calls (file c false).latch ≡ 0 = rw h.0 (latched-submits calls) in
      (omega (arith, h.1, z), z)
