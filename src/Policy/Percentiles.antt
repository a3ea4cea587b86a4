-- ===== src/Policy/Percentiles.antt =====
-- `compute_sched_percentiles` of src/ai/policy.rs: what the three numbers are.
use scx_cognis.Base.{ℕ, ◌*◌, ◌/◌, ◌≤◌, ◌<◌, ◌≡◌, ◌≢◌, List, arith, length, get_or}
use scx_cognis.Policy.{SliceController, samples, compute_sched_percentiles}
use scx_cognis.Policy.Sort.{
  sort, sort-IsSorted, length-sort, count_lt, count_le, count_lt-sort, count_le-sort, rank_lt,
  rank_le, get_or_mono, count, count-sort, count-get_or,
}

-- `p` is the order statistic of rank `k`: at most `k` samples are below it, and more than `k` are
-- at most it.
pub record IsRank (k : ℕ) (xs : List ℕ) (p : ℕ) : Type 0 where
  pub below : count_lt p xs ≤ k
  pub upto : k < count_le p xs
  pub sample : 0 < count p xs

sorted-IsRank : (xs : List ℕ) (k : ℕ) → k < length xs → IsRank k xs (get_or (sort xs) k 0)
sorted-IsRank xs k h = record {
  below = omega (arith, rank_lt (sort xs) k (sort-IsSorted xs) inside, count_lt-sort p xs);
  upto = omega (arith, rank_le (sort xs) k (sort-IsSorted xs) inside, count_le-sort p xs);
  sample = omega (arith, count-get_or (sort xs) k inside, count-sort p xs);
}
  where
    p : ℕ
    p = get_or (sort xs) k 0

    inside : k < length (sort xs)
    inside = omega (arith, length-sort xs)

percentiles-cons :
    (c : SliceController)
    → length (samples c.lat_ring) ≢ 0
    → let xs = samples c.lat_ring in
      let n = length xs in
      compute_sched_percentiles c ≡ (
        get_or (sort xs) (n / 2) 0,
        get_or (sort xs) (n * 95 / 100) 0,
        get_or (sort xs) (n * 99 / 100) 0,
      )
unfolding compute_sched_percentiles
percentiles-cons c ne = ground arith

-- Where a sample is recorded, each percentile is a recorded sample of the rank that its name
-- says, and they are in order.
pub percentiles-IsRank :
    (c : SliceController)
    → length (samples c.lat_ring) ≢ 0
    → let (p50, p95, p99) = compute_sched_percentiles c in
      let xs = samples c.lat_ring in
      let n = length xs in
      IsRank (n / 2) xs p50
      × IsRank (n * 95 / 100) xs p95
      × IsRank (n * 99 / 100) xs p99
      × (p50 ≤ p95)
      × (p95 ≤ p99)
percentiles-IsRank c ne =
    let xs = samples c.lat_ring in
    let n = length xs in
    rw (percentiles-cons c ne) (
      sorted-IsRank xs (n / 2) (omega arith),
      sorted-IsRank xs (n * 95 / 100) (omega arith),
      sorted-IsRank xs (n * 99 / 100) (omega arith),
      get_or_mono (sort xs) (n / 2) (n * 95 / 100) (sort-IsSorted xs) (omega arith)
          (omega (arith, length-sort xs)),
      get_or_mono (sort xs) (n * 95 / 100) (n * 99 / 100) (sort-IsSorted xs) (omega arith)
          (omega (arith, length-sort xs)),
    )
