-- ===== src/Router/State.antt =====
-- The state of the router (`crates/quip-coordinator/src/router.rs`): the capability envelope of a
-- miner, its queue, the session graph, and the router itself. A hash map is an association list, a
-- hash set a list. An `Instant` is a number of nanoseconds.
use quip_miner.Prelude.{ℕ, ◌+◌, Bool, false, ◌&&◌, ◌||◌, List, [], ◌∷◌, Option, none, min, ◌==◌}
use quip_miner.Prelude.Bytes.{Bytes}
use quip_miner.Wire.{WireTags, Job}

pub record MinerCaps : Type 0 where
  pub backend : Bytes
  pub algorithm : Bytes
  pub supported_kinds : List ℕ
  pub max_nodes : ℕ
  pub max_edges : ℕ
  pub max_degree : Option ℕ
  pub native_topology_hash : Option Bytes
  pub features : List Bytes
  pub generators : List ℕ
  pub stream_width : ℕ

pub record MinerQueue : Type 0 where
  pub caps : MinerCaps
  pub staged : List Job
  pub granted_credits : ℕ
  pub consumed_since_poll : ℕ
  pub salts_since_poll : ℕ
  pub round_salts : ℕ
  pub completed : ℕ
  pub unsupported_kinds : List ℕ

-- 30 seconds.
abbrev pub drop_warn_interval : ℕ
drop_warn_interval = 30_000_000_000

pub record DropLog : Type 0 where
  pub since_warn : ℕ
  pub last_warn : ℕ

pub record RoutingTopology : Type 0 where
  pub hash : Bytes
  pub n_nodes : ℕ
  pub n_edges : ℕ
  pub max_degree : ℕ
  pub native_hash : Bytes
  pub nodes : List ℕ
  pub edges : List (ℕ × ℕ)

pub record Router : Type 0 where
  pub miners : List (Bytes × MinerQueue)
  pub topology : Option RoutingTopology
  pub unroutable : List Job
  pub drops : List (Bytes × DropLog)

unfoldable pub new : Router
new = record { miners = []; topology = none; unroutable = []; drops = [] }

-- `contains` of a vector or a set of numbers.
unfoldable pub contains : List ℕ → ℕ → Bool
contains [] a = false
contains (x ∷ xs) a = (x == a) || contains xs a

abbrev pub u32_max : ℕ
u32_max = 4_294_967_295

abbrev pub u64_max : ℕ
u64_max = 18_446_744_073_709_551_615

-- `saturating_add` of a `u32` and of a `u64`.
abbrev pub add_u32 : ℕ → ℕ → ℕ
add_u32 a b = min (a + b) u32_max

abbrev pub add_u64 : ℕ → ℕ → ℕ
add_u64 a b = min (a + b) u64_max

unfoldable pub accepts_leases : WireTags → MinerCaps → Bool
accepts_leases tags caps =
    contains caps.supported_kinds tags.ising_generate
    && contains caps.generators tags.blake3_chacha8_v1
