-- ===== src/Policy.antt =====
-- src/ai/policy.rs: `SliceController`, the load-driven slice ceiling, and its ring of latency
-- samples. `AtomicU64` and `AtomicUsize` with relaxed ordering are plain numbers: the ring has one
-- writer, the scheduler thread.
pub mod Sort
pub mod Bounds
pub mod Percentiles
pub mod Tests
use scx_cognis.Base.{
  ℕ, zero, suc, ◌+◌, ◌-◌, ◌*◌, ◌/◌, ◌%◌, ◌^◌, Bool, List, [], ◌∷◌, ltb, ◌==◌, if◌then◌else◌, length,
  get_or, set, replicate, clamp, min, add64,
}
use scx_cognis.Floats.{FloatOps, one_lit}
use scx_cognis.Policy.Sort.{sort}

abbrev pub targeted_latency_ns : ℕ
targeted_latency_ns = 6_000_000

abbrev pub auto_slice_min_ns : ℕ
auto_slice_min_ns = 250_000

abbrev pub auto_slice_max_ns : ℕ
auto_slice_max_ns = 8_000_000

abbrev pub lat_ring_cap : ℕ
lat_ring_cap = 2048

pub record SliceController : Type 0 where
  pub current_slice_ns : ℕ
  pub base_slice_ns : ℕ
  pub auto_base_ns : ℕ
  pub min_ns : ℕ
  pub max_ns : ℕ
  pub lat_ring : List ℕ
  pub lat_idx : ℕ

unfoldable pub new : ℕ → SliceController
new base_slice_ns =
    let initial_auto : ℕ =
      clamp (if ltb 0 base_slice_ns then base_slice_ns else targeted_latency_ns) auto_slice_min_ns
        auto_slice_max_ns in
    record {
      current_slice_ns = initial_auto;
      base_slice_ns = base_slice_ns;
      auto_base_ns = initial_auto;
      min_ns = auto_slice_min_ns;
      max_ns = auto_slice_max_ns;
      lat_ring = replicate lat_ring_cap 0;
      lat_idx = 0;
    }

unfoldable pub effective_base_ns : SliceController → ℕ
effective_base_ns c =
    if ltb 0 c.base_slice_ns then min c.auto_base_ns c.base_slice_ns else c.auto_base_ns

module _ {F64 : Type 0} (fl : FloatOps F64) where
  -- `(TARGETED_LATENCY_NS as f64 / tasks_per_cpu) as u64`.
  unfoldable pub computed_slice : ℕ → ℕ → ℕ
  computed_slice nr_runnable nr_cpus =
      let tasks_per_cpu =
        fl.fmax (fl.div (fl.of_u64 nr_runnable) (fl.of_u64 nr_cpus)) (one_lit fl) in
      fl.to_u64 (fl.div (fl.of_u64 targeted_latency_ns) tasks_per_cpu)

  -- `update`; the value that it returns is the new `current_slice_ns`.
  unfoldable pub update : SliceController → ℕ → ℕ → SliceController
  unfolding effective_base_ns
  update c nr_runnable nr_cpus =
      if nr_cpus == 0
      then c
      else let auto =
          clamp (computed_slice nr_runnable nr_cpus) auto_slice_min_ns auto_slice_max_ns in
        let c' : SliceController = record c { auto_base_ns = auto } in
        record c' { current_slice_ns = clamp (effective_base_ns c') c'.min_ns c'.max_ns }

unfoldable pub read_slice_ns : SliceController → ℕ
read_slice_ns c = c.current_slice_ns

-- `fetch_add(1) & LAT_RING_MASK`, for a capacity that is a power of two.
unfoldable pub record_sched_event_latency : SliceController → ℕ → SliceController
record_sched_event_latency c ns = record c {
  lat_ring = set c.lat_ring (c.lat_idx % lat_ring_cap) ns;
  lat_idx = add64 c.lat_idx 1;
}

-- The copy of the non-zero samples, in the order of the ring.
unfoldable pub samples : List ℕ → List ℕ
samples [] = []
samples (v ∷ vs) = if ltb 0 v then v ∷ samples vs else samples vs

-- The three indices are in range: see `Percentiles`.
unfoldable pub compute_sched_percentiles : SliceController → ℕ × ℕ × ℕ
compute_sched_percentiles c =
    let xs = samples c.lat_ring in
    let len = length xs in
    let sorted = sort xs in
    if len == 0 then (0, 0, 0) else (
      get_or sorted (len / 2) 0,
      get_or sorted (len * 95 / 100) 0,
      get_or sorted (len * 99 / 100) 0,
    )
