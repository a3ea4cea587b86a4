-- ===== src/Scheduler/Bounds.antt =====
-- The bounds of what `derive_task_policy` of src/main.rs decides of a task.
use scx_cognis.Base.{
  ℕ, ◌-◌, ◌*◌, ◌%◌, ◌^◌, max, ◌≤◌, ◌≡◌, refl, Bool, true, arith, u64_max, leb, ◌||◌, Bool-cases,
  inl, inr,
}
use scx_cognis.Bpf.Decode.{QueuedTask}
use scx_cognis.Classifier.{TaskLabel, real_time}
use scx_cognis.Floats.{Floats}
use scx_cognis.Scheduler.Derive.{
  clamp_max, assigned_slice, wake_credit, advanced_vtime, virtual_deadline, policy_of, remember,
  derive_task_policy,
}
use scx_cognis.Scheduler.Features.{is_kernel_worker}
use scx_cognis.Scheduler.Types.{Scheduler, is_real_time, now_ns}
use scx_cognis.Scheduler.Wake.{interactive_sleep_bonus_ns}

assigned_slice-bounds :
    (ai weight base least sleep : ℕ) (boosted : Bool) (label : TaskLabel)
    → (least ≤ assigned_slice ai weight base least sleep boosted label)
      × (assigned_slice ai weight base least sleep boosted label ≤ clamp_max base least)
unfolding assigned_slice interactive_sleep_bonus_ns
assigned_slice-bounds ai weight base least sleep boosted label = ground arith

real_time_slice :
    (ai weight base least sleep : ℕ) (boosted : Bool) (label : TaskLabel)
    → is_real_time label ≡ true
    → base * 4 ≤ u64_max
    → base ≤ assigned_slice ai weight base least sleep boosted label
unfolding assigned_slice interactive_sleep_bonus_ns
real_time_slice ai weight base least sleep boosted label e h = rw e (ground arith)

wake_credit-bound :
    (least sleep base slice : ℕ) (boosted : Bool)
    → (wake_credit least sleep base slice boosted ≤ slice)
      × (wake_credit least sleep base slice boosted ≤ 4_000_000)
unfolding wake_credit
wake_credit-bound least sleep base slice boosted = ground arith

vtime-bounds :
    (now base weight vtime burst : ℕ)
    → now ≤ u64_max
    → vtime ≤ u64_max
    → (vtime ≤ advanced_vtime now base weight vtime burst)
      × (now - base ≤ advanced_vtime now base weight vtime burst)
unfolding advanced_vtime
vtime-bounds now base weight vtime burst h k = ground arith

vtime-small :
    (now base weight vtime burst : ℕ) → advanced_vtime now base weight vtime burst ≤ u64_max
unfolding advanced_vtime
vtime-small now base weight vtime burst = ground arith

deadline-bounds :
    (weight vtime slice : ℕ) (label : TaskLabel)
    → vtime ≤ u64_max
    → (is_real_time label || leb vtime (virtual_deadline weight vtime slice label)) ≡ true
unfolding virtual_deadline
deadline-bounds weight vtime slice label h = elim (Bool-cases (is_real_time label)) [
  | inl e ↦ rw e refl
  | inr e ↦ rw e (ground arith)
]

module _ {F32 F64 : Type 0} (fp : Floats F32 F64) where
  -- The slice of a task lies between the least slice and four times the base slice (modulo
  -- 2^64), or the least slice where that is more; the wake credit is at most the slice and at
  -- most 4 ms.
  pub policy_of-slice :
      (s : Scheduler F32) (task : QueuedTask)
      → (s.slice_ns_min ≤ (policy_of fp s task).slice)
        × ((policy_of fp s task).slice ≤ max (s.base_slice_ns * 4 % 2 ^ 64) s.slice_ns_min)
        × ((policy_of fp s task).wake_credit_ns ≤ (policy_of fp s task).slice)
        × ((policy_of fp s task).wake_credit_ns ≤ 4_000_000)
  unfolding policy_of
  policy_of-slice s task =
      let a = assigned_slice-bounds _ _ s.base_slice_ns s.slice_ns_min _ _ _ in
      let w = wake_credit-bound s.slice_ns_min _ s.base_slice_ns _ _ in (a.0, a.1, w.0, w.1)

  -- For 64-bit virtual times, that of a task does not go back, and falls behind that of the
  -- scheduler by the base slice at most.
  pub policy_of-vtime :
      (s : Scheduler F32) (task : QueuedTask)
      → s.vruntime_now ≤ u64_max
      → task.vtime ≤ u64_max
      → (task.vtime ≤ (policy_of fp s task).task.vtime)
        × (s.vruntime_now - s.base_slice_ns ≤ (policy_of fp s task).task.vtime)
  unfolding policy_of
  policy_of-vtime s task h k =
      vtime-bounds s.vruntime_now s.base_slice_ns task.weight task.vtime
        (task.stop_ts - task.start_ts) h k

  -- A task is realtime, or its deadline is not before its virtual time.
  pub policy_of-deadline :
      (s : Scheduler F32) (task : QueuedTask)
      → (is_real_time (policy_of fp s task).label
          || leb (policy_of fp s task).task.vtime (policy_of fp s task).deadline)
        ≡ true
  unfolding policy_of
  policy_of-deadline s task = deadline-bounds task.weight _ _ _ (
      vtime-small s.vruntime_now s.base_slice_ns task.weight task.vtime
        (task.stop_ts - task.start_ts))

  -- A kernel worker is a realtime task: its deadline is 0, and where four times the base slice fits
  -- into 64 bits its slice is not below the base slice.
  pub policy_of-is_kernel_worker :
      (s : Scheduler F32) (task : QueuedTask)
      → is_kernel_worker task ≡ true
      → s.base_slice_ns * 4 ≤ u64_max
      → (is_real_time (policy_of fp s task).label ≡ true)
        × ((policy_of fp s task).deadline ≡ 0)
        × (s.base_slice_ns ≤ (policy_of fp s task).slice)
  unfolding policy_of virtual_deadline
  policy_of-is_kernel_worker s task e h =
      rw e (refl, refl, real_time_slice _ _ s.base_slice_ns s.slice_ns_min _ _ real_time refl h)

  -- `derive_task_policy` does not put the scheduler's virtual time back, and does not leave it
  -- behind that of the task.
  pub derive_task_policy-vruntime :
      (clock : ℕ → ℕ) (s : Scheduler F32) (task : QueuedTask)
      → (s.vruntime_now ≤ (derive_task_policy fp clock s task).1.vruntime_now)
        × ((derive_task_policy fp clock s task).0.task.vtime
            ≤ (derive_task_policy fp clock s task).1.vruntime_now)
  unfolding derive_task_policy remember now_ns
  derive_task_policy-vruntime clock s task = ground arith
