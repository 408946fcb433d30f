-- ===== src/Funding/Explained.antt =====
-- What each result of funding means (`ensure_funded` of
-- `crates/quip-coordinator/src/funding.rs`).
use mathlib.Core.Path.{subst}
use quip_miner.Prelude.{
  zero, suc, ◌-◌, ◌/◌, Bool-cases, ℕ, ◌≤◌, ◌<◌, Bool, true, false, Option, none, some, ◌⊎◌, inl,
  inr, ◌≡◌, refl, leb, leb→le, leb→lt, arith,
}
use quip_miner.Prelude.Bytes.{Bytes}
use quip_miner.Funding.{
  FaucetAnswers, FaucetError, permanent, already_funded, transient, FundingParams, underfunded,
  faucet_exhausted, faucet_rejected, chain, Note, chain_read_failed, Outcome, Pass, returns,
  goes_on, Run, backoff_start, after_request, next_backoff, budgeted, pass, funding_loop,
  ensure_funded, out_of_budget,
}
use quip_miner.Funding.Budget.{ensure_funded-Returned}

-- What holds at n and from the next number on holds from n on.
from_here : (P : ℕ → Type 0) (n j : ℕ) → P n → (suc n ≤ j → P j) → n ≤ j → P j
from_here P n j here next at = elim (Bool-cases (leb j n)) [
  | inl e ↦ let to = leb→le j n e in let same : n ≡ j = omega (arith, at, to) in subst P same here
  | inr e ↦ next (omega (arith, leb→lt j n e))
]

module _ (free_balance : ℕ → ℕ ⊎ Bytes) (faucet : FaucetAnswers) (params : FundingParams) where
  -- Read n gave a balance under the floor.
  abbrev pub ReadsShort : ℕ → ℕ → Type 0
  ReadsShort n balance = (free_balance n ≡ inl balance) × (balance < params.min_balance)

  abbrev pub IsShort : ℕ → Type 0
  IsShort n = (balance : ℕ) × ReadsShort n balance

  -- Read n failed.
  abbrev pub ReadFails : ℕ → Type 0
  ReadFails n = (e : Bytes) × (free_balance n ≡ inr e)

  -- The last balance read, from read n on or before it.
  abbrev pub LastShort : Option ℕ → ℕ → ℕ → Type 0
  LastShort none n balance = (k : ℕ) × (n ≤ k) × ReadsShort k balance
  LastShort (some b) n balance = ((k : ℕ) × (n ≤ k) × ReadsShort k balance) ⊎ (b ≡ balance)

  -- What a result of the passes from n on says, where l is the last balance of the passes before.
  abbrev pub Explains : ℕ → Option ℕ → Outcome → Type 0
  Explains n l (inl balance) =
      (k : ℕ) × (n ≤ k)
      × (free_balance k ≡ inl balance)
      × (params.min_balance ≤ balance)
      × ((j : ℕ) → n ≤ j → j < k → IsShort j ⊎ ReadFails j)
  Explains n l (inr (underfunded balance threshold)) =
      (faucet ≡ none)
      × (threshold ≡ params.min_balance)
      × ((k : ℕ) × (n ≤ k) × ReadsShort k balance)
  Explains n l (inr (faucet_rejected e)) =
      (request : ℕ → ℕ → Option FaucetError) × (k : ℕ) × (faucet ≡ some request)
      × IsShort k
      × (request k params.top_up ≡ some (permanent e))
  Explains n l (inr (faucet_exhausted balance threshold note)) =
      (threshold ≡ params.min_balance) × LastShort l n balance
  Explains n l (inr (chain note)) =
      (l ≡ none)
      × (k : ℕ) × (n ≤ k)
      × ((e : Bytes) × (free_balance k ≡ inr e) × (note ≡ chain_read_failed e))
      × ((j : ℕ) → n ≤ j → j ≤ k → ReadFails j)

  -- What a pass that goes on shows, by the last balance before and after it.
  data Went (n : ℕ) (l : Option ℕ) : Option ℕ → Note → Type 0 where
    short : {balance : ℕ} {note : Note} → ReadsShort n balance → Went n l (some balance) note
    failed : {e : Bytes} → free_balance n ≡ inr e → Went n l l (chain_read_failed e)

  abbrev PassExplains : ℕ → Option ℕ → Pass → Type 0
  PassExplains n l (returns o) = Explains n l o
  PassExplains n l (goes_on l' note) = Went n l l' note

  answered :
      (n balance : ℕ) (l : Option ℕ) (request : ℕ → ℕ → Option FaucetError) (a : Option FaucetError)
      → ReadsShort n balance
      → faucet ≡ some request
      → request n params.top_up ≡ a
      → PassExplains n l (after_request balance a)
  answered n balance l request none r f e = short r
  answered n balance l request (some (permanent m)) r f e = (request, n, f, (balance, r), e)
  answered n balance l request (some (already_funded m)) r f e = short r
  answered n balance l request (some (transient m)) r f e = short r

  pass-explains : (n : ℕ) (l : Option ℕ) → PassExplains n l (pass free_balance faucet params n l)
  unfolding pass
  pass-explains n l = read (free_balance n) refl
    where
      short_of :
          (balance : ℕ) (f : FaucetAnswers)
          → faucet ≡ f
          → ReadsShort n balance
          → PassExplains n l (elim f [
            | none ↦ returns (inr (underfunded balance params.min_balance))
            | some request ↦ after_request balance (request n params.top_up)
          ])
      short_of balance none f r = (f, refl, (n, omega arith, r))
      short_of balance (some request) f r = answered n balance l request _ r f refl

      floor :
          (balance : ℕ) (b : Bool)
          → free_balance n ≡ inl balance
          → leb params.min_balance balance ≡ b
          → PassExplains n l (elim b [
            | true ↦ returns (inl balance)
            | false ↦ elim faucet [
              | none ↦ returns (inr (underfunded balance params.min_balance))
              | some request ↦ after_request balance (request n params.top_up)
            ]
          ])
      floor balance true e b = (
        n,
        omega arith,
        e,
        leb→le params.min_balance balance b,
        (λ j at below. absurd (omega arith)),
      )
      floor balance false e b =
          short_of balance faucet refl (e, leb→lt params.min_balance balance b)

      read :
          (a : ℕ ⊎ Bytes)
          → free_balance n ≡ a
          → PassExplains n l (pass free_balance faucet params n l)
      read (inr m) e = rw (e, pass) (failed e)
      read (inl balance) e = rw (e, pass) (floor balance (leb params.min_balance balance) e refl)

  seen : (n : ℕ) (l l' : Option ℕ) (note : Note) → Went n l l' note → IsShort n ⊎ ReadFails n
  seen n l l' note (short r) = inl (_, r)
  seen n l l' note (failed e) = inr (_, e)

  last_later :
      (n b : ℕ) (l l' : Option ℕ) (note : Note)
      → Went n l l' note
      → LastShort l' (suc n) b
      → LastShort l n b
  last_later n b none l' note (short r) (inl (k, at, s)) = (k, omega arith, s)
  last_later n b none l' note (short r) (inr e) = (n, omega arith, subst (ReadsShort n) e r)
  last_later n b (some c) l' note (short r) (inl (k, at, s)) = inl (k, omega arith, s)
  last_later n b (some c) l' note (short r) (inr e) = inl (n, omega arith, subst (ReadsShort n) e r)
  last_later n b none l' note (failed e) (k, at, s) = (k, omega arith, s)
  last_later n b (some c) l' note (failed e) (inl (k, at, s)) = inl (k, omega arith, s)
  last_later n b (some c) l' note (failed e) (inr s) = inr s

  gave_up :
      (n : ℕ) (l l' : Option ℕ) (note : Note)
      → Went n l l' note
      → Explains n l (inr (out_of_budget params.min_balance l' note))
  gave_up n none l' note (short r) = (refl, (n, omega arith, r))
  gave_up n (some c) l' note (short r) = (refl, inl (n, omega arith, r))
  gave_up n (some c) l' note (failed e) = (refl, inr refl)
  gave_up n none l' note (failed e) =
      (refl, n, omega arith, (_, e, refl), (λ j at to. subst ReadFails (omega arith) (_, e)))

  later :
      (n : ℕ) (l l' : Option ℕ) (note : Note)
      → Went n l l' note
      → (o : Outcome) → Explains (suc n) l' o
      → Explains n l o
  later n l l' note w (inl balance) (k, at, e, enough, before) = (
    k,
    omega arith,
    e,
    enough,
    (λ j from to.
        from_here (λ j. j < k → IsShort j ⊎ ReadFails j) n j (λ _. seen n l l' note w)
          (λ from'. before j from') from to),
  )
  later n l l' note w (inr (underfunded balance threshold)) (f, t, (k, at, s)) =
      (f, t, (k, omega arith, s))
  later n l l' note w (inr (faucet_rejected e)) x = x
  later n l l' note w (inr (faucet_exhausted balance threshold m)) (t, s) =
      (t, last_later n balance l l' note w s)
  later n l l' note (short r) (inr (chain m)) x = absurd (let never = x.0 in cc)
  later n l l' note (failed e) (inr (chain m)) (none_yet, k, at, why, all) = (
    none_yet,
    k,
    omega arith,
    why,
    (λ j from to.
        from_here (λ j. j ≤ k → ReadFails j) n j (λ _. (_, e)) (λ from'. all j from') from to),
  )

  abbrev pub RunExplained : ℕ → Option ℕ → Run → Type 0
  RunExplained n l run = (o : Outcome) → run.outcome ≡ some o → Explains n l o

  budgeted-explained :
      (rest : Option ℕ → Run) (n remaining backoff : ℕ) (l : Option ℕ) (p : Pass)
      → PassExplains n l p
      → ((l' : Option ℕ) → RunExplained (suc n) l' (rest l'))
      → RunExplained n l (budgeted free_balance faucet params rest remaining backoff p)
  budgeted-explained rest n remaining backoff l (returns o') x h =
      λ o e. let same : o' ≡ o = cc in subst (Explains n l) same x
  budgeted-explained rest n remaining backoff l (goes_on l' note) w h =
      elim (Bool-cases (leb remaining backoff)) [
        | inl at ↦
            rw (at, budgeted)
              (λ o e.
                let same : inr (out_of_budget params.min_balance l' note) ≡ o = cc in
                subst (Explains n l) same (gave_up n l l' note w))
        | inr on ↦ rw (on, budgeted) (λ o e. later n l l' note w o (h l' o e))
      ]

  funding_loop-explained :
      (fuel n remaining backoff : ℕ) (l : Option ℕ)
      → RunExplained n l (funding_loop free_balance faucet params fuel n remaining backoff l)
  unfolding funding_loop
  funding_loop-explained zero n remaining backoff l = λ o e. absurd cc
  funding_loop-explained (suc fuel) n remaining backoff l =
      budgeted-explained
        (funding_loop free_balance faucet params fuel (suc n) (remaining - backoff)
          (next_backoff backoff))
        n remaining backoff l (pass free_balance faucet params n l) (pass-explains n l)
        (λ l'. funding_loop-explained fuel (suc n) (remaining - backoff) (next_backoff backoff) l')

  -- Funding returns, and its result is right: a balance is one that was read, at or above the floor
  -- and the first such; Underfunded, that no faucet is configured and a read was short;
  -- FaucetRejected, that the faucet rejected the request of a short pass for good; FaucetExhausted,
  -- that the balance it names was read and is short; Chain, that no read has succeeded.
  pub ensure_funded-explained :
      (o : Outcome) × ((ensure_funded free_balance faucet params).outcome ≡ some o)
      × Explains 0 none o
  unfolding ensure_funded
  ensure_funded-explained =
      let (o, e) = ensure_funded-Returned free_balance faucet params in
      (
        o,
        e,
        funding_loop-explained (suc (params.timeout / backoff_start)) 0 params.timeout backoff_start
            none o e,
      )
