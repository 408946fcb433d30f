-- ===== src/Session/Removal.antt =====
-- What a cancellation and a crash take out of the jobs in flight
-- (`crates/quip-coordinator/src/session.rs`).
use quip_miner.Prelude.{
  ℕ, Bool, true, false, ◌||◌, List, [], ◌∷◌, ◌++◌, Option, none, some, ◌≡◌, refl, sym, ap, ◌∙◌, ◌⊎◌,
  inl, inr, if◌then◌else◌, Bool-cases, Option-cases, arith,
}
use quip_miner.Prelude.Bytes.{Bytes, bytes_eq, bytes_eq→≡}
use quip_miner.Prelude.Assoc.{get, keys, get-remove}
use quip_miner.Wire.{Job}
use quip_miner.Router.{admitted}
use quip_miner.Session.{
  CoordinatorState, complete_inflight, complete_all, is_cancelled, cancelled_ids, cancel_inflight,
  is_owned_by, take_owned, owned_ids, reclaim_miner,
}

-- An id of the list.
abbrev listed : Bytes → List Bytes → Bool
listed id [] = false
listed id (k ∷ ks) = bytes_eq k id || listed id ks

listed-admitted_none :
    (p : Bytes → Bool) (id : Bytes) (ks : List Bytes)
    → p id ≡ false
    → listed id (admitted p ks) ≡ false
unfolding admitted
listed-admitted_none p id [] h = refl
listed-admitted_none p id (k ∷ ks) h = elim (Bool-cases (p k)) [
  | inr f ↦ rw f (listed-admitted_none p id ks h)
  | inl y ↦ elim (Bool-cases (bytes_eq k id)) [
    | inl e ↦ absurd (let same : k ≡ id = bytes_eq→≡ k id e in let clash = ap p same in cc)
    | inr e ↦ rw (y, e) (listed-admitted_none p id ks h)
  ]
]

-- An id that has an entry and passes the test is among those admitted.
listed-admitted {ℓ} :
    {V : Type ℓ} (p : Bytes → Bool) (id : Bytes) (m : List (Bytes × V)) (v : V)
    → get id m ≡ some v
    → listed id (admitted p (keys m)) ≡ p id
unfolding admitted get
listed-admitted p id [] v e = absurd (cc)
listed-admitted p id ((k, w) ∷ m) v e = elim (Bool-cases (bytes_eq k id)) [
  | inl same ↦
      let eq : p k ≡ p id = ap p (bytes_eq→≡ k id same) in
      elim (Bool-cases (p id)) [
        | inl y ↦ rw (eq ∙ y, same) (sym y)
        | inr f ↦ rw (eq ∙ f) (listed-admitted_none p id (keys m) f ∙ sym f)
      ]
  | inr other ↦
      let later = listed-admitted p id m v (rw (other, get, if◌then◌else◌) at e) in
      elim (Bool-cases (p k)) [ inl y ↦ rw (y, other) later | inr f ↦ rw f later ]
]

-- So a test that no absent id passes decides the membership.
listed-test {ℓ} :
    {V : Type ℓ} (p : Bytes → Bool) (id : Bytes) (m : List (Bytes × V))
    → (get id m ≡ none → p id ≡ false)
    → listed id (admitted p (keys m)) ≡ p id
listed-test p id m absent = elim (Option-cases (get id m)) [
  | inl n ↦ listed-admitted_none p id (keys m) (absent n) ∙ sym (absent n)
  | inr (v, e) ↦ listed-admitted p id m v e
]

get-complete_all :
    (ids : List Bytes) (s : CoordinatorState) (id : Bytes)
    → get id (complete_all ids s).inflight ≡ (if listed id ids then none else get id s.inflight)
unfolding complete_all complete_inflight
get-complete_all [] s id = refl
get-complete_all (k ∷ ks) s id =
    ground (arith, get-complete_all ks (complete_inflight k s).0 id, get-remove k id s.inflight)

-- A cancellation takes exactly the proof-of-work jobs of the generations up to the bound out of the
-- jobs in flight: the others, orders among them, stay as they are.
pub get-cancel_inflight :
    (max_generation : ℕ) (s : CoordinatorState) (id : Bytes)
    → get id (cancel_inflight max_generation s).0.inflight
      ≡ (if is_cancelled max_generation (get id s.inflight) then none else get id s.inflight)
unfolding cancel_inflight cancelled_ids
get-cancel_inflight max_generation s id =
    get-complete_all (cancelled_ids max_generation s) s id
    ∙ ap (λ b. if b then none else get id s.inflight)
        (listed-test (λ k. is_cancelled max_generation (get k s.inflight)) id s.inflight
          (λ n. rw n refl))

take_owned-complete_all :
    (ids : List Bytes) (s : CoordinatorState) → (take_owned ids s).0 ≡ complete_all ids s
unfolding take_owned complete_all
take_owned-complete_all [] s = refl
take_owned-complete_all (k ∷ ks) s = take_owned-complete_all ks (complete_inflight k s).0

-- A job of the list.
abbrev pub HasJob : Job → List Job → Type 0
HasJob job [] = ⊥
HasJob job (j ∷ js) = (j ≡ job) ⊎ HasJob job js

HasJob-append : (job : Job) (xs ys : List Job) → HasJob job xs → HasJob job (xs ++ ys)
HasJob-append job [] ys h = elim h [ ]
HasJob-append job (x ∷ xs) ys (inl e) = inl e
HasJob-append job (x ∷ xs) ys (inr h) = inr (HasJob-append job xs ys h)

HasJob-or_skip :
    (job : Job) (found : Option Job) (jobs : List Job)
    → HasJob job jobs
    → HasJob job (elim found [ none ↦ jobs | some j ↦ j ∷ jobs ])
HasJob-or_skip job none jobs h = h
HasJob-or_skip job (some j) jobs h = inr h

HasJob-head :
    (job : Job) (found : Option Job) (jobs : List Job)
    → found ≡ some job
    → HasJob job (elim found [ none ↦ jobs | some j ↦ j ∷ jobs ])
HasJob-head job none jobs e = absurd (cc)
HasJob-head job (some j) jobs e = inl (cc)

take_owned-HasJob :
    (ids : List Bytes) (s : CoordinatorState) (id : Bytes) (job : Job)
    → listed id ids ≡ true
    → get id s.inflight ≡ some job
    → HasJob job (take_owned ids s).1
unfolding take_owned complete_inflight
take_owned-HasJob [] s id job h e = absurd (cc)
take_owned-HasJob (k ∷ ks) s id job h e = elim (Bool-cases (bytes_eq k id)) [
  | inl same ↦
      let found : get k s.inflight ≡ some job = rw (bytes_eq→≡ k id same) e in
      HasJob-head job (get k s.inflight) (take_owned ks (complete_inflight k s).0).1 found
  | inr other ↦ HasJob-or_skip job (get k s.inflight) (take_owned ks (complete_inflight k s).0).1 (
      take_owned-HasJob ks (complete_inflight k s).0 id job (rw other at h)
        (rw (get-remove k id s.inflight, other) e))
]

-- The ids that a crash takes are those that the miner owns.
listed-owned_ids :
    (miner : Bytes) (s : CoordinatorState) (id : Bytes)
    → listed id (owned_ids miner s) ≡ is_owned_by miner (get id s.inflight_owner)
unfolding owned_ids
listed-owned_ids miner s id =
    listed-test (λ k. is_owned_by miner (get k s.inflight_owner)) id s.inflight_owner
      (λ n. rw n refl)

-- A crash takes exactly the jobs that the miner owns out of the jobs in flight.
pub reclaim_miner-inflight :
    (miner : Bytes) (s : CoordinatorState) (id : Bytes)
    → get id (reclaim_miner miner s).0.inflight
      ≡ (if is_owned_by miner (get id s.inflight_owner) then none else get id s.inflight)
unfolding reclaim_miner
reclaim_miner-inflight miner s id =
    ap (λ (u : CoordinatorState). get id u.inflight) (take_owned-complete_all (owned_ids miner s) s)
    ∙ get-complete_all (owned_ids miner s) s id
    ∙ ap (λ b. if b then none else get id s.inflight) (listed-owned_ids miner s id)

-- A crash hands back every job in flight that the miner owns.
pub reclaim_miner-HasJob :
    (miner : Bytes) (s : CoordinatorState) (id : Bytes) (job : Job)
    → get id s.inflight ≡ some job
    → is_owned_by miner (get id s.inflight_owner) ≡ true
    → HasJob job (reclaim_miner miner s).1
unfolding reclaim_miner
reclaim_miner-HasJob miner s id job e o =
    HasJob-append job (take_owned (owned_ids miner s) s).1 _
      (take_owned-HasJob (owned_ids miner s) s id job (listed-owned_ids miner s id ∙ o) e)
