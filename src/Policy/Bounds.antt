-- ===== src/Policy/Bounds.antt =====
-- The slice that `SliceController` recommends: its bounds, and how it follows the load.
use scx_cognis.Base.{ℕ, ◌%◌, ◌≤◌, ◌<◌, ◌≡◌, arith, max, length, length-replicate, length-set}
use scx_cognis.Floats.{FloatOps, IsOrdered, IsMonotone, Le, one_lit}
use scx_cognis.Policy.{
  SliceController, new, computed_slice, update, read_slice_ns, record_sched_event_latency,
  auto_slice_min_ns, auto_slice_max_ns, lat_ring_cap, targeted_latency_ns,
}

-- What holds of a controller from `new` on, for the configured ceiling `base`.
pub record IsValid (c : SliceController) (base : ℕ) : Type 0 where
  pub base_kept : c.base_slice_ns ≡ base
  pub min_kept : c.min_ns ≡ auto_slice_min_ns
  pub max_kept : c.max_ns ≡ auto_slice_max_ns
  pub low : auto_slice_min_ns ≤ c.current_slice_ns
  pub high : c.current_slice_ns ≤ auto_slice_max_ns
  pub ceiling : 0 < base → c.current_slice_ns ≤ max base auto_slice_min_ns
  pub ring : length c.lat_ring ≡ lat_ring_cap

pub new-IsValid : (base : ℕ) → IsValid (new base) base
unfolding new
new-IsValid base = ground (arith, length-replicate {0} {A = ℕ} lat_ring_cap 0)

-- `update` keeps the recommended slice between 250 µs and 8 ms, and below the configured
-- ceiling unless that is less than 250 µs, for every load and whatever the floats compute.
pub update-IsValid :
    {F64 : Type 0} (fl : FloatOps F64) {c : SliceController} {base : ℕ} (nr_runnable nr_cpus : ℕ)
    → IsValid c base
    → IsValid (update fl c nr_runnable nr_cpus) base
unfolding update
update-IsValid fl r n v = ground arith

pub record-IsValid :
    {c : SliceController} {base : ℕ} (ns : ℕ)
    → IsValid c base
    → IsValid (record_sched_event_latency c ns) base
unfolding record_sched_event_latency
record-IsValid {c} ns v =
    ground (arith, length-set {0} {A = ℕ} c.lat_ring (c.lat_idx % lat_ring_cap) ns)

module _ {F64 : Type 0} (fl : FloatOps F64) (o : IsOrdered fl) (m : IsMonotone fl) where
  computed_slice-anti : (r s n : ℕ) → r ≤ s → 0 < n → computed_slice fl s n ≤ computed_slice fl r n
  unfolding computed_slice
  computed_slice-anti r s n h k = m.to_u64_mono _ _ (
      m.div_anti targeted_latency_ns (tasks r) (tasks s)
        (o.max-ge-right (per_cpu r) (one_lit fl) num_r num_one) grows)
    where
      per_cpu : ℕ → F64
      per_cpu x = fl.div (fl.of_u64 x) (fl.of_u64 n)

      tasks : ℕ → F64
      tasks x = fl.fmax (per_cpu x) (one_lit fl)

      more : Le fl (per_cpu r) (per_cpu s)
      more = m.div_mono _ _ n (m.of_u64_mono r s h) k

      num_r : Le fl (per_cpu r) (per_cpu r)
      num_r = o.num_left _ _ more

      num_s : Le fl (per_cpu s) (per_cpu s)
      num_s = o.num_right _ _ more

      num_one : Le fl (one_lit fl) (one_lit fl)
      num_one = o.num_left _ _ (m.of_u64_pos n k)

      grows : Le fl (tasks r) (tasks s)
      grows =
          o.max-le (per_cpu r) (one_lit fl) (tasks s)
            (o.le_trans _ _ _ more (o.max-ge-left (per_cpu s) (one_lit fl) num_s num_one))
            (o.max-ge-right (per_cpu s) (one_lit fl) num_s num_one)

  -- With floats that are ordered, whose conversions are monotone, and whose division is so by an
  -- integer from 1 on and of an integer, more runnable
  -- tasks on as many CPUs never get a longer slice.
  pub update-anti :
      (c : SliceController) (r s n : ℕ)
      → r ≤ s
      → read_slice_ns (update fl c s n) ≤ read_slice_ns (update fl c r n)
  unfolding update read_slice_ns
  update-anti c r s n h = ground (arith, computed_slice-anti r s n)
