-- ===== src/MockMiner/Replies.antt =====
-- What a job is answered (`handle_job` of `crates/quip-mock-miner/src/main.rs`).
use quip_miner.Prelude.{
  ℕ, ◌<◌, false, not, ◌&&◌, ◌||◌, List, [], ◌∷◌, Option, none, some, ◌≡◌, refl, ◌⊎◌, inl, inr,
  Bool-cases, leb, leb→lt, ltb, ◌==◌, length, All, arith,
}
use quip_miner.Prelude.Int.{ℤ}
use quip_miner.Prelude.Bytes.{Bytes, bytes_eq, bytes_eq→≡}
use quip_miner.Wire
use quip_miner.Wire.{WireTags, Graph, IsingProblem, Job}
use quip_miner.Mempool.{position}
use quip_miner.Drive.{zip_edges}
use quip_miner.MockMiner.{
  RejectReason, MinerMsg, result, reject, job_request, SessionTopo, Protocol, edge_at, put, place,
  resolve_edges, problem_or_default, is_outside, handle_job, on_coefficients, on_edges,
}

-- Rejected, for some reason, with one credit for the slot.
abbrev pub IsRejected : Bytes → List MinerMsg → Type 0
IsRejected id msgs = (reason : RejectReason) × (msgs ≡ reject id reason ∷ job_request 1 ∷ [])

-- An edge between two of a number of nodes.
abbrev pub IsInside : ℕ → ℕ × ℕ → Type 0
IsInside n (u, v) = (u < n) × (v < n)

is_outside-All : (n : ℕ) (es : List (ℕ × ℕ)) → is_outside n es ≡ false → All (IsInside n) es
unfolding is_outside
is_outside-All n [] h = tt
is_outside-All n ((u, v) ∷ es) h = elim (Bool-cases (leb n u)) [
  | inl a ↦ ground (arith, a, h)
  | inr a ↦ elim (Bool-cases (leb n v)) [
    | inl b ↦ ground (arith, a, b, h)
    | inr b ↦ ((leb→lt n u a, leb→lt n v b), is_outside-All n es (ground (arith, a, b, h)))
  ]
]

-- Edges of the topology at the positions of their nodes, edge by edge.
abbrev pub ArePlaced : List (ℕ × ℕ) → List (ℕ × ℕ) → List (ℕ × ℕ) → Type 0
ArePlaced pos [] [] = Unit
ArePlaced pos ((u, v) ∷ es) ((a, b) ∷ out) =
    (position u pos ≡ some a) × (position v pos ≡ some b) × ArePlaced pos es out
ArePlaced pos es out = ⊥

-- The edges that a graph names: its own, or those of the session's topology if the hash is its hash.
abbrev pub AreNamed : Option Graph → Option SessionTopo → List (ℕ × ℕ) → Type 0
AreNamed none topo es = es ≡ []
AreNamed (some (Wire.edges us vs)) topo es = es ≡ zip_edges us vs
AreNamed (some (Wire.topology_hash h)) none es = ⊥
AreNamed (some (Wire.topology_hash h)) (some topo) es =
    (h ≡ topo.hash) × ArePlaced topo.pos topo.edges es

put-ArePlaced :
    (pos : List (ℕ × ℕ)) (u v : ℕ) (es out : List (ℕ × ℕ)) (a b : Option ℕ)
    (rest : List (ℕ × ℕ) ⊎ RejectReason)
    → position u pos ≡ a
    → position v pos ≡ b
    → ((later : List (ℕ × ℕ)) → rest ≡ inl later → ArePlaced pos es later)
    → put (edge_at a b) rest ≡ inl out
    → ArePlaced pos ((u, v) ∷ es) out
put-ArePlaced pos u v es out none b rest ea eb f h = absurd (cc)
put-ArePlaced pos u v es out (some a) none rest ea eb f h = absurd (cc)
put-ArePlaced pos u v es out (some a) (some b) (inr reason) ea eb f h = absurd (cc)
put-ArePlaced pos u v es [] (some a) (some b) (inl later) ea eb f h = absurd (cc)
put-ArePlaced pos u v es ((c, d) ∷ out) (some a) (some b) (inl later) ea eb f h =
    (cc, cc, f out (cc))

place-ArePlaced : (pos es out : List (ℕ × ℕ)) → place pos es ≡ inl out → ArePlaced pos es out
unfolding place
place-ArePlaced pos [] [] h = tt
place-ArePlaced pos [] (e ∷ out) h = absurd (cc)
place-ArePlaced pos ((u, v) ∷ es) out h =
    put-ArePlaced pos u v es out (position u pos) (position v pos) (place pos es) refl refl
      (place-ArePlaced pos es) h

resolve_edges-AreNamed :
    (graph : Option Graph) (topo : Option SessionTopo) (es : List (ℕ × ℕ))
    → resolve_edges graph topo ≡ inl es
    → AreNamed graph topo es
unfolding resolve_edges
resolve_edges-AreNamed none topo es h = cc
resolve_edges-AreNamed (some (Wire.edges us vs)) topo es h = cc
resolve_edges-AreNamed (some (Wire.topology_hash k)) none es h = absurd (cc)
resolve_edges-AreNamed (some (Wire.topology_hash k)) (some topo) es h =
    elim (Bool-cases (bytes_eq k topo.hash)) [
      | inl same ↦
          (bytes_eq→≡ k topo.hash same, place-ArePlaced topo.pos topo.edges es (rw same at h))
      | inr other ↦ absurd (let clash = rw other at h in cc)
    ]

module _ (tags : WireTags) (protocol : Protocol) (now : ℕ) (job : Job)
    (topo : Option SessionTopo) where
  -- One result, from a job whose coefficients can be read and whose edges are found and lie between its
  -- nodes, and one credit for the slot.
  pub record IsSolved (msgs : List MinerMsg) : Type 0 where
    pub h : List ℤ
    pub j : List ℤ
    pub edges : List (ℕ × ℕ)
    pub spins : Bytes
    pub energy : ℤ
    pub answer : msgs ≡ result job.job_id spins energy [] [] ∷ job_request 1 ∷ []
    pub fields : protocol.codec.decode_i32_le (problem_or_default job.ising).h ≡ some h
    pub couplings : protocol.codec.decode_i32_le (problem_or_default job.ising).j ≡ some j
    pub found : resolve_edges (problem_or_default job.ising).graph topo ≡ inl edges
    pub named : AreNamed (problem_or_default job.ising).graph topo edges
    pub inside : All (IsInside (length h)) edges

  abbrev Answers : List MinerMsg → Type 0
  Answers msgs = IsRejected job.job_id msgs ⊎ IsSolved msgs

  p : IsingProblem
  p = problem_or_default job.ising

  solve-Answers :
      (h j : List ℤ) (o : List (ℕ × ℕ) ⊎ RejectReason)
      → protocol.codec.decode_i32_le p.h ≡ some h
      → protocol.codec.decode_i32_le p.j ≡ some j
      → resolve_edges p.graph topo ≡ o
      → Answers (on_edges tags protocol job.job_id h j o)
  unfolding p
  solve-Answers h j (inr reason) eh ej e = inl (reason, refl)
  solve-Answers h j (inl es) eh ej e = elim (Bool-cases (is_outside (length h) es)) [
    | inl out ↦ rw out (inl (_, refl))
    | inr good ↦ rw good (
        inr (record {
          h = h;
          j = j;
          edges = es;
          spins = _;
          energy = _;
          answer = refl;
          fields = eh;
          couplings = ej;
          found = e;
          named = resolve_edges-AreNamed p.graph topo es e;
          inside = is_outside-All (length h) es good;
        }))
  ]

  coefficients-Answers :
      (oh oj : Option (List ℤ))
      → protocol.codec.decode_i32_le p.h ≡ oh
      → protocol.codec.decode_i32_le p.j ≡ oj
      → Answers (on_coefficients tags protocol now job p.graph topo oh oj)
  coefficients-Answers none oj eh ej = inl (_, refl)
  coefficients-Answers (some h) none eh ej = inl (_, refl)
  coefficients-Answers (some h) (some j) eh ej =
      elim (Bool-cases (not (job.deadline_ms == 0) && ltb job.deadline_ms now)) [
        | inl late ↦ rw late (inl (_, refl))
        | inr timely ↦ rw timely (solve-Answers h j (resolve_edges p.graph topo) eh ej refl)
      ]

  -- Every job is answered under its own id exactly once and refunds exactly one credit: it is rejected,
  -- or solved after its coefficients were read, its edges found and none of them lay outside its nodes.
  -- The edges are those that it names, or those of the session's topology, at the positions of their
  -- nodes, where it names the hash of that.
  pub handle_job-Answers :
      IsRejected job.job_id (handle_job tags protocol now job topo)
      ⊎ IsSolved (handle_job tags protocol now job topo)
  unfolding handle_job p
  handle_job-Answers = elim (Bool-cases (not (job.kind == tags.ising_sample))) [
    | inl other ↦ rw other (inl (_, refl))
    | inr served ↦
        elim (Bool-cases (not (p.encoding == tags.i32_encoding) || not (p.scale == 1000))) [
          | inl odd ↦ rw (served, odd) (inl (_, refl))
          | inr plain ↦
              rw (served, plain)
                (coefficients-Answers (protocol.codec.decode_i32_le p.h)
                  (protocol.codec.decode_i32_le p.j) refl refl)
        ]
  ]
