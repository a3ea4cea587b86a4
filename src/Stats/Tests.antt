-- ===== src/Stats/Tests.antt =====
-- Examples of the metrics.
use scx_cognis.Base.{ℕ, ◌≡◌, ◌≤◌, refl, Option, none, some, List, [], ◌∷◌, arith}
use scx_cognis.Stats.{Metrics, uptime}
use scx_cognis.Stats.Delta.{counters, differences, Later}
use scx_cognis.Stats.Server.{session, totals, session-totals}

uptime_parts : uptime 40_000_000 ≡ (1, 3, 7, 23, 6, 40)
unfolding uptime
uptime_parts = refl

-- Metrics with all counters at `n`.
abbrev pub all_at : ℕ → Metrics
all_at n = record {
  elapsed_secs = n;
  nr_cpus = n;
  nr_running = n;
  nr_queued = n;
  nr_scheduled = n;
  nr_page_faults = n;
  nr_user_dispatches = n;
  nr_kernel_dispatches = n;
  nr_local_dispatches = n;
  nr_llc_dispatches = n;
  nr_node_dispatches = n;
  nr_shared_dispatches = n;
  nr_xllc_steals = n;
  nr_xnode_steals = n;
  nr_cancel_dispatches = n;
  nr_bounce_dispatches = n;
  nr_failed_dispatches = n;
  nr_sched_congested = n;
  nr_interactive = n;
  nr_compute = n;
  nr_iowait = n;
  nr_realtime = n;
  nr_unknown = n;
  nr_quarantined = n;
  nr_flagged = n;
  base_slice_us = n;
  assigned_slice_us = n;
  slice_min_us = n;
  slice_max_us = n;
  inference_us = n;
  sched_p50_us = n;
  sched_p95_us = n;
  sched_p99_us = n;
}

all_at-Later : (m n : ℕ) → n ≤ m → Later (counters (all_at m)) (counters (all_at n))
all_at-Later m n h =
    (h, (h, (h, (h, (h, (h, (h, (h, (h, (h, (h, (h, (h, (h, (h, (h, (h, (h, tt))))))))))))))))))

abbrev three_reads : List (Option Metrics)
three_reads = some (all_at 5) ∷ none ∷ some (all_at 9) ∷ []

session-totals_example :
    totals (session (all_at 3) three_reads).0
    ≡ differences (counters (session (all_at 3) three_reads).1) (counters (all_at 3))
session-totals_example =
    session-totals (all_at 3) three_reads
      (all_at-Later 5 3 (omega arith), (all_at-Later 9 5 (omega arith), tt))
