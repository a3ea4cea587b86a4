-- ===== src/Scheduler/Derive.antt =====
-- `derive_task_policy` of src/main.rs: the slice, lane and deadline of a task.
use scx_cognis.Base.{
  ℕ, ◌-◌, ◌*◌, ◌/◌, ◌%◌, ◌^◌, min, max, Bool, Option, none, some, ltb, ◌==◌, if◌then◌else◌, clamp,
  sat_add, sat_mul, add64, mul64, get_or, set,
}
use scx_cognis.Bpf.Decode.{QueuedTask}
use scx_cognis.Classifier.{TaskFeatures, TaskLabel, real_time, classify}
use scx_cognis.Floats.{Floats}
use scx_cognis.Lifetime.{TaskLifetime, lifetime_get}
use scx_cognis.Policy.{read_slice_ns}
use scx_cognis.Scheduler.Features.{
  recent_sleep_gap_ns, scale_by_weight_inverse, is_kernel_worker, compute_features,
}
use scx_cognis.Scheduler.Types.{Scheduler, label_index, is_real_time, now_ns, nsec_per_usec}
use scx_cognis.Scheduler.Wake.{should_wake_boost, is_latency_sensitive, interactive_sleep_bonus_ns}

-- The tuple that `derive_task_policy` returns, and the task whose `vtime` it advances.
pub record TaskPolicy : Type 0 where
  pub task : QueuedTask
  pub deadline : ℕ
  pub slice : ℕ
  pub label : TaskLabel
  pub is_kworker : Bool
  pub latency_sensitive : Bool
  pub wake_boosted : Bool
  pub wake_credit_ns : ℕ

-- `sample_assigned_slice`
unfoldable pub sample_assigned_slice : ℕ → ℕ → ℕ
sample_assigned_slice ema slice_ns =
    if ema == 0 then slice_ns else add64 (sat_mul ema 7) slice_ns / 8

-- `prev_slice_ns`, from the lifetime entry of the pid.
abbrev pub previous_slice : Option TaskLifetime → ℕ → ℕ
previous_slice none base = max base (nsec_per_usec * 1_000)
previous_slice (some lt) base =
    if ltb 0 lt.last_slice_ns then lt.last_slice_ns else max base (nsec_per_usec * 1_000)

abbrev pub recent_sleep : Option TaskLifetime → ℕ → ℕ
recent_sleep none start_ts = 0
recent_sleep (some lt) start_ts = recent_sleep_gap_ns lt.last_stop_ts start_ts

-- The upper bound of a slice; `ref_base * 4` is not saturating.
abbrev pub clamp_max : ℕ → ℕ → ℕ
clamp_max ref_base slice_ns_min = max (mul64 ref_base 4) slice_ns_min

-- The slice: the controller's, by weight, with half of the sleep bonus, between the bounds.
unfoldable pub assigned_slice :
    (ai_slice weight ref_base slice_ns_min sleep_ns : ℕ) → Bool → TaskLabel → ℕ
assigned_slice ai_slice weight ref_base slice_ns_min sleep_ns wake_boosted label =
    let fair = sat_mul ai_slice (max weight 1) / 100 in
    let boosted =
      if wake_boosted
      then sat_add fair (interactive_sleep_bonus_ns slice_ns_min sleep_ns ref_base / 2)
      else fair in
    let bounded = clamp boosted slice_ns_min (clamp_max ref_base slice_ns_min) in
    if is_real_time label
    then min (max bounded ref_base) (clamp_max ref_base slice_ns_min)
    else bounded

unfoldable pub wake_credit : (slice_ns_min sleep_ns ref_base slice : ℕ) → Bool → ℕ
wake_credit slice_ns_min sleep_ns ref_base slice wake_boosted =
    if wake_boosted
    then min
        (min (max (interactive_sleep_bonus_ns slice_ns_min sleep_ns ref_base) (slice_ns_min / 2))
          slice)
        4_000_000
    else 0

-- The virtual time of a task after the burst that it has used.
unfoldable pub advanced_vtime : (vruntime_now ref_base weight vtime burst_ns : ℕ) → ℕ
advanced_vtime vruntime_now ref_base weight vtime burst_ns =
    let start = if vtime == 0 then vruntime_now else max vtime (vruntime_now - ref_base) in
    sat_add start (scale_by_weight_inverse weight burst_ns)

unfoldable pub virtual_deadline : (weight vtime slice : ℕ) → TaskLabel → ℕ
virtual_deadline weight vtime slice label =
    if is_real_time label then 0 else sat_add vtime (scale_by_weight_inverse weight slice)

module _ {F32 F64 : Type 0} (fp : Floats F32 F64) where
  -- The features of a task, with what the scheduler remembers of it.
  abbrev pub features_of : Scheduler F32 → QueuedTask → TaskFeatures F32
  features_of s task =
      compute_features fp task s.base_slice_ns
        (previous_slice (lifetime_get s.lifetimes task.pid) s.base_slice_ns)
        (max s.bpf.bss.nr_online_cpus 1 % 2 ^ 32)

  abbrev pub sleep_of : Scheduler F32 → QueuedTask → ℕ
  sleep_of s task = recent_sleep (lifetime_get s.lifetimes task.pid) task.start_ts

  abbrev pub label_of : Scheduler F32 → QueuedTask → TaskLabel
  label_of s task =
      if is_kernel_worker task then real_time else classify fp.single (features_of s task)

  abbrev pub sensitive_of : Scheduler F32 → QueuedTask → Bool
  sensitive_of s task =
      is_latency_sensitive fp.single (label_of s task) (features_of s task) (sleep_of s task)

  abbrev pub boosted_of : Scheduler F32 → QueuedTask → Bool
  boosted_of s task =
      let f = features_of s task in
      should_wake_boost fp.single (sensitive_of s task) f.exec_ratio f.cpu_intensity
        (sleep_of s task)

  -- What is decided of a task; the state is only read.
  unfoldable pub policy_of : Scheduler F32 → QueuedTask → TaskPolicy
  policy_of s task =
      let label = label_of s task in
      let sleep = sleep_of s task in
      let boosted = boosted_of s task in
      let slice =
        assigned_slice (read_slice_ns s.slice_controller) task.weight s.base_slice_ns s.slice_ns_min
          sleep boosted label in
      let vtime =
        advanced_vtime s.vruntime_now s.base_slice_ns task.weight task.vtime
          (task.stop_ts - task.start_ts) in
      record {
        task = record task { vtime = vtime };
        deadline = virtual_deadline task.weight vtime slice label;
        slice = slice;
        label = label;
        is_kworker = is_kernel_worker task;
        latency_sensitive = sensitive_of s task;
        wake_boosted = boosted;
        wake_credit_ns = wake_credit s.slice_ns_min sleep s.base_slice_ns slice boosted;
      }

  -- What the state remembers of the decision; `elapsed` is the time that it took.
  unfoldable pub remember : Scheduler F32 → TaskPolicy → ℕ → Scheduler F32
  remember s p elapsed =
      let i = label_index p.label in
      record s {
        label_counts = set s.label_counts i (add64 (get_or s.label_counts i 0) 1);
        assigned_slice_ema_ns = sample_assigned_slice s.assigned_slice_ema_ns p.slice;
        vruntime_now = max s.vruntime_now p.task.vtime;
        total_inference_ns = add64 s.total_inference_ns elapsed;
        inference_samples = add64 s.inference_samples 1;
      }

  module _ (clock : ℕ → ℕ) where
    unfoldable pub derive_task_policy : Scheduler F32 → QueuedTask → TaskPolicy × Scheduler F32
    derive_task_policy s task =
        let (t0, s₁) = now_ns clock s in
        let p = policy_of s₁ task in let (t1, s₂) = now_ns clock s₁ in (p, remember s₂ p (t1 - t0))
