-- ===== src/Scheduler/Types.antt =====
-- The state of src/main.rs: `Task`, `Scheduler`, and the clock.
use scx_cognis.Base.{ℕ, ◌+◌, Bool, true, false, List}
use scx_cognis.Bpf.{BpfScheduler}
use scx_cognis.Bpf.Decode.{QueuedTask}
use scx_cognis.Classifier.{TaskLabel, interactive, compute, io_wait, real_time, unknown}
use scx_cognis.Lifetime.{LifetimeTable}
use scx_cognis.Policy.{SliceController}
use scx_cognis.TaskQueue.{TaskQueue}
use scx_cognis.Trust.{TrustTable}

pub record Task : Type 0 where
  pub qtask : QueuedTask
  pub deadline : ℕ
  pub timestamp : ℕ
  pub label : TaskLabel
  pub wake_boosted : Bool
  pub wake_credit_ns : ℕ
  pub latency_sensitive : Bool
  pub is_kernel_worker : Bool
  pub slice_ns : ℕ

abbrev pub queue_depth : ℕ
queue_depth = 16_384

abbrev pub nsec_per_usec : ℕ
nsec_per_usec = 1_000

abbrev pub nsec_per_sec : ℕ
nsec_per_sec = 1_000_000_000

-- Of the fields, those of the statistics server, the terminal and the start-up are left out. The
-- stateless `classifier` is the function `classify`. `percpu_local` is the option of that name.
-- `tick` counts the readings of the clock, and an `Instant` is a number of nanoseconds.
pub record Scheduler (F32 : Type 0) : Type 0 where
  pub bpf : BpfScheduler
  pub percpu_local : Bool
  pub boosted_interactive_queue : TaskQueue Task
  pub rt_queue : TaskQueue Task
  pub interactive_queue : TaskQueue Task
  pub vruntime_now : ℕ
  pub base_slice_ns : ℕ
  pub slice_ns_min : ℕ
  pub trust : TrustTable F32
  pub slice_controller : SliceController
  pub lifetimes : LifetimeTable
  pub last_trust_tick : ℕ
  pub last_slice_tick : ℕ
  pub last_trust_flush : ℕ
  pub label_counts : List ℕ
  pub total_inference_ns : ℕ
  pub inference_samples : ℕ
  pub assigned_slice_ema_ns : ℕ
  pub tick : ℕ

-- `label as usize`
abbrev pub label_index : TaskLabel → ℕ
label_index interactive = 0
label_index compute = 1
label_index io_wait = 2
label_index real_time = 3
label_index unknown = 4

-- `matches!(label, TaskLabel::RealTime)`
abbrev pub is_real_time : TaskLabel → Bool
is_real_time real_time = true
is_real_time label = false

-- `matches!(label, TaskLabel::Interactive | TaskLabel::IoWait)`
abbrev pub is_wakeful : TaskLabel → Bool
is_wakeful interactive = true
is_wakeful io_wait = true
is_wakeful label = false

-- The readings of the system clocks, which the environment chooses: the i-th reading is `clock i`.
module _ (clock : ℕ → ℕ) {F32 : Type 0} where
  -- `now_ns()`, and `Instant::now()`.
  unfoldable pub now_ns : Scheduler F32 → ℕ × Scheduler F32
  now_ns s = (clock s.tick, record s { tick = s.tick + 1 })
