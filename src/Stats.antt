-- ===== src/Stats.antt =====
-- src/stats.rs: the metrics, their one-line summary and their difference, and the snapshot that
-- `get_metrics` of src/main.rs takes. The texts that `format` prints are not modelled.
pub mod Delta
pub mod Server
pub mod Tests
use scx_cognis.Base.{
  ℕ, ◌+◌, ◌-◌, ◌*◌, ◌/◌, ◌%◌, ◌≤◌, ◌<◌, ◌≡◌, max, Bool, true, false, ◌&&◌, ◌||◌, List, [], ◌∷◌,
  arith, ltb, ◌==◌, if◌then◌else◌, add64, sat_add, sat_mul, get_or,
}
use scx_cognis.Config.{BpfProfile}
use scx_cognis.Floats.{FloatOps, Floats, zero_lit}
use scx_cognis.Policy.{compute_sched_percentiles}
use scx_cognis.Scheduler.Types.{Scheduler, now_ns, nsec_per_usec, nsec_per_sec}
use scx_cognis.Trust.Report.{quarantined_count, flagged_count}

pub record Metrics : Type 0 where
  pub elapsed_secs : ℕ
  pub nr_cpus : ℕ
  pub nr_running : ℕ
  pub nr_queued : ℕ
  pub nr_scheduled : ℕ
  pub nr_page_faults : ℕ
  pub nr_user_dispatches : ℕ
  pub nr_kernel_dispatches : ℕ
  pub nr_local_dispatches : ℕ
  pub nr_llc_dispatches : ℕ
  pub nr_node_dispatches : ℕ
  pub nr_shared_dispatches : ℕ
  pub nr_xllc_steals : ℕ
  pub nr_xnode_steals : ℕ
  pub nr_cancel_dispatches : ℕ
  pub nr_bounce_dispatches : ℕ
  pub nr_failed_dispatches : ℕ
  pub nr_sched_congested : ℕ
  pub nr_interactive : ℕ
  pub nr_compute : ℕ
  pub nr_iowait : ℕ
  pub nr_realtime : ℕ
  pub nr_unknown : ℕ
  pub nr_quarantined : ℕ
  pub nr_flagged : ℕ
  pub base_slice_us : ℕ
  pub assigned_slice_us : ℕ
  pub slice_min_us : ℕ
  pub slice_max_us : ℕ
  pub inference_us : ℕ
  pub sched_p50_us : ℕ
  pub sched_p95_us : ℕ
  pub sched_p99_us : ℕ

-- The texts of `tldr`, in the order of the source.
pub data Advice : Type 0 where
  major_page_faults dispatch_failures fallback_active fallback_congested watchlist_active : Advice
  shared_spill_dominates hierarchy_carries heavy_compute interactive_hot heavy_mixed : Advice
  moderate_load mostly_interactive compute_present mostly_idle balanced_light healthy : Advice

module _ {F64 : Type 0} (fl : FloatOps F64) where
  abbrev pub load_of : Metrics → F64
  load_of m = fl.div (fl.of_u64 m.nr_running) (fl.of_u64 (max m.nr_cpus 1))

  -- The part of `tldr` on the load alone.
  unfoldable pub on_load : F64 → Bool → Bool → Advice
  on_load load compute_heavy interactive_heavy =
      if fl.le (fl.lit 85 2) load && compute_heavy
      then heavy_compute
      else if fl.le (fl.lit 85 2) load && interactive_heavy
      then interactive_hot
      else if fl.le (fl.lit 85 2) load
      then heavy_mixed
      else if fl.le (fl.lit 65 2) load
      then moderate_load
      else if interactive_heavy && fl.lt load (fl.lit 5 1)
      then mostly_interactive
      else if compute_heavy && fl.lt load (fl.lit 65 2)
      then compute_present
      else if fl.lt load (fl.lit 1 1)
      then mostly_idle
      else if fl.lt load (fl.lit 5 1)
      then balanced_light
      else healthy

  unfoldable pub tldr : Metrics → Advice
  tldr m =
      let load = load_of m in
      let classified =
        add64 (add64 (add64 m.nr_interactive m.nr_compute) m.nr_iowait) m.nr_realtime in
      let compute_heavy = ltb 0 classified && ltb (classified / 2) m.nr_compute in
      let interactive_heavy = ltb 0 classified && ltb (classified / 2) m.nr_interactive in
      let spill = sat_mul (sat_add m.nr_llc_dispatches m.nr_node_dispatches) 2 in
      if ltb 0 m.nr_page_faults
      then major_page_faults
      else if ltb 0 m.nr_failed_dispatches
      then dispatch_failures
      else if ltb 0 m.nr_queued || ltb 0 m.nr_scheduled
      then fallback_active
      else if ltb 0 m.nr_sched_congested
      then fallback_congested
      else if ltb 0 m.nr_flagged || ltb 0 m.nr_quarantined
      then watchlist_active
      else if fl.le (fl.lit 90 2) load
          && (ltb spill m.nr_shared_dispatches && ltb 0 m.nr_shared_dispatches)
      then shared_spill_dominates
      else if fl.le (fl.lit 90 2) load && ltb 0 m.nr_kernel_dispatches
      then hierarchy_carries
      else on_load load compute_heavy interactive_heavy

unfoldable pub delta : Metrics → Metrics → Metrics
delta m r = record m {
  nr_page_faults = m.nr_page_faults - r.nr_page_faults;
  nr_user_dispatches = m.nr_user_dispatches - r.nr_user_dispatches;
  nr_kernel_dispatches = m.nr_kernel_dispatches - r.nr_kernel_dispatches;
  nr_local_dispatches = m.nr_local_dispatches - r.nr_local_dispatches;
  nr_llc_dispatches = m.nr_llc_dispatches - r.nr_llc_dispatches;
  nr_node_dispatches = m.nr_node_dispatches - r.nr_node_dispatches;
  nr_shared_dispatches = m.nr_shared_dispatches - r.nr_shared_dispatches;
  nr_xllc_steals = m.nr_xllc_steals - r.nr_xllc_steals;
  nr_xnode_steals = m.nr_xnode_steals - r.nr_xnode_steals;
  nr_cancel_dispatches = m.nr_cancel_dispatches - r.nr_cancel_dispatches;
  nr_bounce_dispatches = m.nr_bounce_dispatches - r.nr_bounce_dispatches;
  nr_failed_dispatches = m.nr_failed_dispatches - r.nr_failed_dispatches;
  nr_sched_congested = m.nr_sched_congested - r.nr_sched_congested;
  nr_interactive = m.nr_interactive - r.nr_interactive;
  nr_compute = m.nr_compute - r.nr_compute;
  nr_iowait = m.nr_iowait - r.nr_iowait;
  nr_realtime = m.nr_realtime - r.nr_realtime;
  nr_unknown = m.nr_unknown - r.nr_unknown;
}

-- The uptime that `format` prints: years, months, days, hours, minutes and seconds.
unfoldable pub uptime : ℕ → ℕ × ℕ × ℕ × ℕ × ℕ × ℕ
uptime elapsed_secs =
    let days_total = elapsed_secs / 86_400 in
    let days_after_years = days_total % 365 in
    (
      days_total / 365,
      days_after_years / 30,
      days_after_years % 30,
      elapsed_secs % 86_400 / 3_600,
      elapsed_secs % 3_600 / 60,
      elapsed_secs % 60,
    )

-- The fields of the scheduler that only `get_metrics` uses.
pub record Monitor : Type 0 where
  pub init_page_faults : ℕ
  pub start_time : ℕ
  pub profile : BpfProfile

-- `get_metrics`, where the process has had `page_faults` major page faults; it is 0 where the
-- number cannot be read.
module _ {F32 F64 : Type 0} (fp : Floats F32 F64) (clock : ℕ → ℕ) where
  unfoldable pub get_metrics :
      Monitor → Scheduler F32 → (page_faults : ℕ) → Metrics × Monitor × Scheduler F32
  get_metrics w s page_faults =
      let first = if w.init_page_faults == 0 then page_faults else w.init_page_faults in
      let fl = fp.double in
      let average =
        if ltb 0 s.inference_samples
        then fl.div (fl.div (fl.of_u64 s.total_inference_ns) (fl.of_u64 s.inference_samples))
            (fl.lit 1_000 0)
        else zero_lit fl in
      let (p50_ns, p95_ns, p99_ns) = compute_sched_percentiles s.slice_controller in
      let (now, s') = now_ns clock s in
      let bss = s.bpf.bss in
      (
        record {
          elapsed_secs = (now - w.start_time) / nsec_per_sec;
          nr_cpus = bss.nr_online_cpus;
          nr_running = bss.nr_running;
          nr_queued = bss.nr_queued;
          nr_scheduled = bss.nr_scheduled;
          nr_page_faults = page_faults - first;
          nr_user_dispatches = bss.nr_user_dispatches;
          nr_kernel_dispatches = bss.nr_kernel_dispatches;
          nr_local_dispatches = bss.nr_local_dispatches;
          nr_llc_dispatches = bss.nr_llc_dispatches;
          nr_node_dispatches = bss.nr_node_dispatches;
          nr_shared_dispatches = bss.nr_shared_dispatches;
          nr_xllc_steals = bss.nr_xllc_steals;
          nr_xnode_steals = bss.nr_xnode_steals;
          nr_cancel_dispatches = bss.nr_cancel_dispatches;
          nr_bounce_dispatches = bss.nr_bounce_dispatches;
          nr_failed_dispatches = bss.nr_failed_dispatches;
          nr_sched_congested = bss.nr_sched_congested;
          nr_interactive = get_or s.label_counts 0 0;
          nr_compute = get_or s.label_counts 1 0;
          nr_iowait = get_or s.label_counts 2 0;
          nr_realtime = get_or s.label_counts 3 0;
          nr_unknown = get_or s.label_counts 4 0;
          nr_quarantined = quarantined_count fp.single s.trust;
          nr_flagged = flagged_count s.trust;
          base_slice_us = w.profile.slice_ns / nsec_per_usec;
          assigned_slice_us = s.assigned_slice_ema_ns / nsec_per_usec;
          slice_min_us = w.profile.slice_min_ns / nsec_per_usec;
          slice_max_us = w.profile.slice_ns / nsec_per_usec;
          inference_us = fl.to_u64 average;
          sched_p50_us = p50_ns / nsec_per_usec;
          sched_p95_us = p95_ns / nsec_per_usec;
          sched_p99_us = p99_ns / nsec_per_usec;
        },
        record w { init_page_faults = first },
        s',
      )
