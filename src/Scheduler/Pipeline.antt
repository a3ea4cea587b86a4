-- ===== src/Scheduler/Pipeline.antt =====
-- The pipeline of src/main.rs: `drain_queued_tasks`, `dispatch_task` and `schedule`.
use scx_cognis.Base.{
  ℕ, zero, suc, ◌-◌, ◌/◌, max, Bool, true, false, ◌||◌, Option, none, some, leb, if◌then◌else◌,
  sat_mul, ok, err,
}
use scx_cognis.Bpf.{
  BpfScheduler, DispatchedTask, new_dispatched, rl_cpu_any, dequeue_task, notify_complete,
}
use scx_cognis.Bpf
use scx_cognis.Bpf.Decode.{QueuedTask}
use scx_cognis.Floats.{Floats}
use scx_cognis.Lifetime.{TaskLifetime, lifetime_update}
use scx_cognis.Policy.{record_sched_event_latency}
use scx_cognis.Scheduler.Derive.{TaskPolicy, derive_task_policy}
use scx_cognis.Scheduler.Lanes.{
  push_task, has_deferred_tasks, tasks_empty, tasks_len, pop_highest_priority_task,
}
use scx_cognis.Scheduler.Types.{Task, Scheduler, is_real_time, now_ns}
use scx_cognis.Scheduler.Wake.{wake_deadline_credit_ns}

-- The entry of the pid after it was dequeued, at the time `now`.
unfoldable pub track : TaskPolicy → ℕ → TaskLifetime → TaskLifetime
track p now e =
    let used = p.task.stop_ts - p.task.start_ts in
    record {
      slice_assigned_ns = p.slice;
      last_slice_ns = p.slice;
      slice_used_ns = used;
      preempted = leb (p.slice - p.slice / 8) used;
      cheat_flagged = false;
      interactive_slice_bias_ns = 0;
      interactive_slice_credit_ns = 0;
      last_seen_ns = now;
      last_stop_ts = p.task.stop_ts;
    }

-- The `Task` that is pushed.
unfoldable pub task_of : TaskPolicy → ℕ → Task
task_of p timestamp = record {
  qtask = p.task;
  deadline = p.deadline;
  timestamp = timestamp;
  label = p.label;
  wake_boosted = p.wake_boosted;
  wake_credit_ns = p.wake_credit_ns;
  latency_sensitive = p.latency_sensitive;
  is_kernel_worker = p.is_kworker;
  slice_ns = p.slice;
}

-- What goes back to BPF for a task.
unfoldable pub to_dispatched : Bool → Task → DispatchedTask
to_dispatched percpu_local task = record (new_dispatched task.qtask) {
  slice_ns = task.slice_ns;
  vtime = if is_real_time task.label then 0 else task.deadline - wake_deadline_credit_ns task;
  cpu = if percpu_local || task.is_kernel_worker then task.qtask.cpu else rl_cpu_any;
}

module _ {F32 F64 : Type 0} (fp : Floats F32 F64) (clock : ℕ → ℕ) where
  -- The body of the drain loop for a task that was dequeued.
  unfoldable pub accept_task : Scheduler F32 → QueuedTask → Scheduler F32
  accept_task s task =
      let (p, s₁) = derive_task_policy fp clock s task in
      let (timestamp, s₂) = now_ns clock s₁ in
      let (seen, s₃) = now_ns clock s₂ in
      let s₄ : Scheduler F32 = record s₃ {
        lifetimes = lifetime_update s₃.lifetimes p.task.pid (track p seen);
      } in
      push_task s₄ (task_of p timestamp)

  -- `drain_queued_tasks` with `n` tasks of the batch left.
  unfoldable pub drain_queued_tasks : ℕ → Scheduler F32 → Scheduler F32
  drain_queued_tasks zero s = s
  drain_queued_tasks (suc n) s = elim (has_deferred_tasks s) [
    | true ↦ s
    | false ↦ elim (dequeue_task s.bpf).0 [
      | ok (some task) ↦
          drain_queued_tasks n (accept_task (record s { bpf = (dequeue_task s.bpf).1 }) task)
      | ok none ↦ record s { bpf = (dequeue_task s.bpf).1 }
      | err e ↦ record s { bpf = (dequeue_task s.bpf).1 }
    ]
  ]

  -- The end of `dispatch_task`, for the task that was popped.
  unfoldable pub send_task : Scheduler F32 → Task → Bool × Scheduler F32
  send_task s task =
      let (result, b) = Bpf.dispatch_task s.bpf (to_dispatched s.percpu_local task) in
      let s' : Scheduler F32 = record s { bpf = b } in
      elim result [ ok u ↦ (true, s') | err e ↦ (false, push_task s' task) ]

  abbrev pub send_popped : Option Task × Scheduler F32 → Bool × Scheduler F32
  send_popped (none, s) = (true, s)
  send_popped (some task, s) = send_task s task

  unfoldable pub dispatch_task : Scheduler F32 → Bool × Scheduler F32
  dispatch_task s = send_popped (pop_highest_priority_task clock s)

  -- `while !self.tasks_empty() { if !self.dispatch_task() { break; } }`, with fuel.
  unfoldable pub dispatch_all : ℕ → Scheduler F32 → Scheduler F32
  dispatch_all zero s = s
  dispatch_all (suc fuel) s = elim (tasks_empty s) [
    | true ↦ s
    | false ↦ elim (dispatch_task s).0 [
      | true ↦ dispatch_all fuel (dispatch_task s).1
      | false ↦ (dispatch_task s).1
    ]
  ]

  abbrev pub drain_budget : Scheduler F32 → ℕ
  drain_budget s = max (sat_mul (max s.bpf.bss.nr_online_cpus 1) 4) 16

  -- Each round of the loop takes one task off the lanes, so that their number is fuel enough.
  unfoldable pub schedule : Scheduler F32 → Scheduler F32
  schedule s =
      let (t0, s₁) = now_ns clock s in
      let s₂ = drain_queued_tasks (drain_budget s₁) s₁ in
      let s₃ = dispatch_all (tasks_len s₂) s₂ in
      let s₄ : Scheduler F32 = record s₃ { bpf = notify_complete s₃.bpf (tasks_len s₃) } in
      let (t1, s₅) = now_ns clock s₄ in
      record s₅ { slice_controller = record_sched_event_latency s₅.slice_controller (t1 - t0) }
