-- ===== src/Supervisor/History.antt =====
-- The supervisor's decisions from the history of the exits alone, and the tracker as an
-- implementation of it (`crates/quip-coordinator/src/supervisor.rs`).
use quip_miner.Prelude.{
  ℕ, suc, ◌+◌, ◌-◌, ◌*◌, ◌^◌, ◌≤◌, min, List, [], ◌∷◌, ◌++◌, ◌≡◌, refl, ap, ◌⊎◌, inl, inr, ltb,
  ltb→le, if◌then◌else◌, length, All, Bool-cases, length-append, arith,
}
use quip_miner.Router.State.{u32_max, u64_max}
use quip_miner.Supervisor.{
  Restart, on_demand, never, backoff, restart_policy, RestartAction, respawn, stay_down, back_off,
  unhealthy, BackoffPolicy, RestartTracker, new, drop_old, delay_of, on_crash, on_exit, Exit,
  restarts, supervise,
}

-- A history lists the exits before, the last one first.
-- How many crashes of a history are no earlier than the time.
unfoldable pub crashes_since : ℕ → List Exit → ℕ
unfolding restart_policy
crashes_since cutoff [] = 0
crashes_since cutoff (e ∷ es) = elim (restart_policy e.code) [
  | backoff ↦ (if ltb e.at_ms cutoff then 0 else 1) + crashes_since cutoff es
  | _ ↦ crashes_since cutoff es
]

-- How many crashes there were since the last clean exit.
unfoldable pub streak : List Exit → ℕ
unfolding restart_policy
streak [] = 0
streak (e ∷ es) = elim (restart_policy e.code) [
  | backoff ↦ suc (streak es)
  | on_demand ↦ 0
  | never ↦ streak es
]

module _ (policy : BackoffPolicy) where
  -- The decision at an exit: a crash is too many if the window up to it has more than the budget.
  unfoldable pub decision : List Exit → Exit → RestartAction
  unfolding crashes_since streak restart_policy
  decision history e = elim (restart_policy e.code) [
    | on_demand ↦ respawn
    | never ↦ stay_down
    | backoff ↦
        if ltb policy.budget (suc (crashes_since (e.at_ms - policy.window_ms) history))
        then unhealthy
        else back_off (delay_of policy (streak history))
  ]

  unfoldable pub decisions : List Exit → List Exit → List RestartAction
  unfolding decision
  decisions history [] = []
  decisions history (e ∷ es) =
      let rest = decisions (e ∷ history) es in
      decision history e ∷ (if restarts (decision history e) then rest else [])

-- The times do not fall, from a time on.
abbrev pub InOrder : ℕ → List Exit → Type 0
InOrder last [] = Unit
InOrder last (e ∷ es) = (last ≤ e.at_ms) × InOrder e.at_ms es

-- The numbers of a list that are no less than the cutoff.
count_from : ℕ → List ℕ → ℕ
count_from cutoff [] = 0
count_from cutoff (t ∷ ts) = (if ltb t cutoff then 0 else 1) + count_from cutoff ts

abbrev IsRising : List ℕ → Type 0
IsRising [] = Unit
IsRising (t ∷ ts) = All (λ u. t ≤ u) ts × IsRising ts

count_from-append :
    (c : ℕ) (xs ys : List ℕ) → count_from c (xs ++ ys) ≡ count_from c xs + count_from c ys
unfolding count_from
count_from-append c [] ys = omega arith
count_from-append c (x ∷ xs) ys = omega (arith, count_from-append c xs ys)

count_from-drop_old :
    (c d : ℕ) (xs : List ℕ) → c ≤ d → count_from d (drop_old c xs) ≡ count_from d xs
unfolding count_from drop_old
count_from-drop_old c d [] h = refl
count_from-drop_old c d (x ∷ xs) h = ground (arith, count_from-drop_old c d xs h)

-- All from a time on are counted.
count_from-All : (c t : ℕ) (xs : List ℕ) → c ≤ t → All (λ u. t ≤ u) xs → count_from c xs ≡ length xs
unfolding count_from
count_from-All c t [] h a = refl
count_from-All c t (x ∷ xs) h a = ground (arith, count_from-All c t xs h a.1)

length-drop_old : (c : ℕ) (xs : List ℕ) → IsRising xs → length (drop_old c xs) ≡ count_from c xs
unfolding count_from drop_old
length-drop_old c [] r = refl
length-drop_old c (x ∷ xs) r = elim (Bool-cases (ltb x c)) [
  | inl old ↦ rw old (omega (arith, length-drop_old c xs r.1))
  | inr kept ↦ ground (arith, kept, count_from-All c x xs (ltb→le x c kept) r.0)
]

drop_old-IsRising : (c : ℕ) (xs : List ℕ) → IsRising xs → IsRising (drop_old c xs)
unfolding drop_old
drop_old-IsRising c [] r = tt
drop_old-IsRising c (x ∷ xs) r = elim (Bool-cases (ltb x c)) [
  | inl old ↦ rw old (drop_old-IsRising c xs r.1)
  | inr kept ↦ rw kept r
]

drop_old-All : (P : ℕ → Type 0) (c : ℕ) (xs : List ℕ) → All P xs → All P (drop_old c xs)
unfolding drop_old
drop_old-All P c [] a = tt
drop_old-All P c (x ∷ xs) a = elim (Bool-cases (ltb x c)) [
  | inl old ↦ rw old (drop_old-All P c xs a.1)
  | inr kept ↦ rw kept a
]

All-snoc : (P : ℕ → Type 0) (xs : List ℕ) (t : ℕ) → All P xs → P t → All P (xs ++ t ∷ [])
All-snoc P [] t a p = (p, tt)
All-snoc P (x ∷ xs) t a p = (a.0, All-snoc P xs t a.1 p)

All-upto :
    (last now : ℕ) (xs : List ℕ) → last ≤ now → All (λ u. u ≤ last) xs → All (λ u. u ≤ now) xs
All-upto last now [] h a = tt
All-upto last now (x ∷ xs) h a = (omega (arith, a.0), All-upto last now xs h a.1)

snoc-IsRising : (xs : List ℕ) (t : ℕ) → IsRising xs → All (λ u. u ≤ t) xs → IsRising (xs ++ t ∷ [])
snoc-IsRising [] t r a = (tt, tt)
snoc-IsRising (x ∷ xs) t r a = (All-snoc (λ u. x ≤ u) xs t r.0 a.0, snoc-IsRising xs t r.1 a.1)

Restart-cases : (r : Restart) → (r ≡ on_demand) ⊎ (r ≡ never) ⊎ (r ≡ backoff)
Restart-cases on_demand = inl refl
Restart-cases never = inr (inl refl)
Restart-cases backoff = inr (inr refl)

cons_eq :
    {d d' : ℕ} {xs ys : List RestartAction}
    → d ≡ d'
    → xs ≡ ys
    → ◌≡◌ {A = List RestartAction} (back_off d ∷ xs) (back_off d' ∷ ys)
cons_eq p q = cc

module _ (policy : BackoffPolicy) where
  abbrev tracker : ℕ → List ℕ → RestartTracker
  tracker n ts = record { policy = policy; consecutive = n; crashes = ts }

  -- The tracker's fields after the exits of the history, the last of them at the time.
  record Agrees (history : List Exit) (last n : ℕ) (ts : List ℕ) : Type 0 where
    counted : n ≡ min (streak history) u32_max
    rising : IsRising ts
    past : All (λ u. u ≤ last) ts
    same : (c : ℕ) → last - policy.window_ms ≤ c → count_from c ts ≡ crashes_since c history

  -- The tracker after a crash that leads to a restart.
  crashed-Agrees :
      (history : List Exit) (last n : ℕ) (ts : List ℕ) (e : Exit)
      → Agrees history last n ts
      → last ≤ e.at_ms
      → restart_policy e.code ≡ backoff
      → Agrees
          (e ∷ history)
          e.at_ms
          (min (n + 1) u32_max)
          (drop_old (e.at_ms - policy.window_ms) ts ++ e.at_ms ∷ [])
  unfolding streak crashes_since count_from
  crashed-Agrees history last n ts e a later crash =
      let cutoff : ℕ = e.at_ms - policy.window_ms in
      let kept = drop_old cutoff ts in
      let upto =
        drop_old-All (λ u. u ≤ e.at_ms) cutoff ts (All-upto last e.at_ms ts later a.past) in
      record {
        counted = rw (crash, streak) (omega (arith, a.counted));
        rising = snoc-IsRising kept e.at_ms (drop_old-IsRising cutoff ts a.rising) upto;
        past = All-snoc (λ u. u ≤ e.at_ms) kept e.at_ms upto (omega arith);
        same = λ c h. ground (
          arith,
          crash,
          count_from-append c kept (e.at_ms ∷ []),
          count_from-drop_old cutoff c ts h,
          a.same c (omega (arith, h, later)),
        );
      }

  -- After a clean exit the streak is over; the crashes stay.
  clean-Agrees :
      (history : List Exit) (last n : ℕ) (ts : List ℕ) (e : Exit)
      → Agrees history last n ts
      → last ≤ e.at_ms
      → restart_policy e.code ≡ on_demand
      → Agrees (e ∷ history) e.at_ms 0 ts
  unfolding streak crashes_since
  clean-Agrees history last n ts e a later clean = record {
    counted = rw (clean, streak) (omega arith);
    rising = a.rising;
    past = All-upto last e.at_ms ts later a.past;
    same = λ c h. rw (clean, crashes_since) (a.same c (omega (arith, h, later)));
  }

  capped : (n m : ℕ) → n ≡ min m u32_max → delay_of policy n ≡ delay_of policy m
  unfolding delay_of
  capped n m h =
      let same : min n 16 ≡ min m 16 = omega (arith, h) in
      ap (λ k. min (min (policy.base_ms * 2 ^ k) u64_max) policy.max_ms) same

  supervise-decisions_from :
      (history : List Exit) (last n : ℕ) (ts : List ℕ) (es : List Exit)
      → Agrees history last n ts
      → InOrder last es
      → supervise (tracker n ts) es ≡ decisions policy history es
  unfolding supervise decisions on_exit on_crash decision
  supervise-decisions_from history last n ts [] a o = refl
  supervise-decisions_from history last n ts (e ∷ es) a o =
      elim (Restart-cases (restart_policy e.code)) [
        | inl clean ↦
            rw (clean, on_exit, decision)
              (ap (λ rest. respawn ∷ rest)
                (supervise-decisions_from (e ∷ history) e.at_ms 0 ts es
                  (clean-Agrees history last n ts e a o.0 clean) o.1))
        | inr (inl down) ↦ rw (down, on_exit, decision) refl
        | inr (inr crash) ↦
            let cutoff : ℕ = e.at_ms - policy.window_ms in
            let size : length (drop_old cutoff ts ++ e.at_ms ∷ [])
                ≡ suc (crashes_since cutoff history) =
              omega (
                arith,
                length-append (drop_old cutoff ts) (e.at_ms ∷ []),
                length-drop_old cutoff ts a.rising,
                a.same cutoff (omega (arith, o.0)),
              ) in
            let same_delay : delay_of policy n ≡ delay_of policy (streak history) =
              capped n (streak history) a.counted in
            elim (Bool-cases (ltb policy.budget (suc (crashes_since cutoff history)))) [
              | inl many ↦ rw (crash, on_exit, decision, size, many) refl
              | inr few ↦
                  rw (crash, on_exit, decision, size, few)
                    (cons_eq same_delay (
                      supervise-decisions_from (e ∷ history) e.at_ms (min (n + 1) u32_max)
                        (drop_old cutoff ts ++ e.at_ms ∷ []) es
                        (crashed-Agrees history last n ts e a o.0 crash) o.1))
            ]
      ]

  -- The supervisor's restarts, from the first start of the miner, follow the history: a crash leads
  -- to a restart exactly if the crashes since the start of its window, itself among them, are within
  -- the budget, and after a delay for the crashes since the last clean exit.
  pub supervise-decisions :
      (es : List Exit) → InOrder 0 es → supervise (new policy) es ≡ decisions policy [] es
  unfolding new
  supervise-decisions es o =
      supervise-decisions_from [] 0 0 [] es
        (record {
          counted = unfold streak in omega arith;
          rising = tt;
          past = tt;
          same = λ c h. unfold crashes_since count_from in refl;
        })
        o
