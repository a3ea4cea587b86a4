-- ===== src/Policy/Tests.antt =====
-- Examples of the slice controller.
use scx_cognis.Base.{◌*◌, ◌/◌, ◌≤◌, ◌≡◌, ◌≢◌, refl, [], ◌∷◌, arith, length}
use scx_cognis.Floats.Fixed.{fixed_ops, fixed-IsOrdered, fixed-IsMonotone}
use scx_cognis.Policy.{
  SliceController, new, update, read_slice_ns, samples, compute_sched_percentiles,
}
use scx_cognis.Policy.Bounds.{IsValid, new-IsValid, update-IsValid, update-anti}
use scx_cognis.Policy.Sort.{sort, insert}
use scx_cognis.Policy.Percentiles.{IsRank, percentiles-IsRank}

update-IsValid_example : IsValid (update fixed_ops (new 1_000_000) 100 8) 1_000_000
update-IsValid_example = update-IsValid fixed_ops 100 8 (new-IsValid 1_000_000)

update-anti_example :
    read_slice_ns (update fixed_ops (new 8_000_000) 64 8)
    ≤ read_slice_ns (update fixed_ops (new 8_000_000) 16 8)
update-anti_example =
    update-anti fixed_ops fixed-IsOrdered fixed-IsMonotone (new 8_000_000) 16 64 8 (omega arith)

-- Three samples in a ring of four.
abbrev sampled : SliceController
sampled = record {
  current_slice_ns = 1_000_000;
  base_slice_ns = 1_000_000;
  auto_base_ns = 1_000_000;
  min_ns = 250_000;
  max_ns = 8_000_000;
  lat_ring = 900 ∷ 0 ∷ 300 ∷ 500 ∷ [];
  lat_idx = 4;
}

sampled_percentiles : compute_sched_percentiles sampled ≡ (500, 900, 900)
unfolding compute_sched_percentiles samples sort insert
sampled_percentiles = refl

three_samples : length (samples sampled.lat_ring) ≢ 0
unfolding samples
three_samples = omega arith

percentiles-IsRank_example :
    let (p50, p95, p99) = compute_sched_percentiles sampled in
    let xs = samples sampled.lat_ring in
    let n = length xs in
    IsRank (n / 2) xs p50
    × IsRank (n * 95 / 100) xs p95
    × IsRank (n * 99 / 100) xs p99
    × (p50 ≤ p95)
    × (p95 ≤ p99)
percentiles-IsRank_example = percentiles-IsRank sampled three_samples
