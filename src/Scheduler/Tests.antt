-- ===== src/Scheduler/Tests.antt =====
-- Examples of the scheduler: a start with one task queued by BPF, and a task in the realtime lane.
use scx_cognis.Base.{
  max, ◌%◌, ◌^◌, ℕ, ◌*◌, ◌≤◌, ◌≡◌, refl, true, false, [], ◌∷◌, ◌++◌, map, arith, replicate,
}
use scx_cognis.Bpf.{BpfScheduler, BssData, sample}
use scx_cognis.Bpf.Decode.{QueuedTask}
use scx_cognis.Classifier.{real_time}
use scx_cognis.Config.{BpfProfile, desktop}
use scx_cognis.Floats.Fixed.{ℤ, fixed}
use scx_cognis.Scheduler.Bounds.{policy_of-slice}
use scx_cognis.Scheduler.Derive.{policy_of}
use scx_cognis.Scheduler.Dispatch.{push_task-Outputs}
use scx_cognis.Scheduler.Features.{
  codes, is_kernel_worker, until_nul, contains, starts_with, starts_with_any,
}
use scx_cognis.Scheduler.Hold.{TaskLists, put, in_order, LanesHold, push_task-LanesHold}
use scx_cognis.Scheduler.Invariant.{IsSound}
use scx_cognis.Scheduler.Lanes.{rt_lane, push_task, tasks_empty}
use scx_cognis.Scheduler.Pipeline.{to_dispatched, drain_queued_tasks, dispatch_all, schedule}
use scx_cognis.Scheduler.Priority.{Popped, pop_strict}
use scx_cognis.Scheduler.Promises.{
  Sends, dispatch_all-Sends, dispatch_all-whole, Accepts, drain_queued_tasks-Accepts, Turns,
  schedule-Turns, schedule-whole,
}
use scx_cognis.Scheduler.Runs.{init_with, init_with-IsSound}
use scx_cognis.Scheduler.Types.{Task, Scheduler, queue_depth}
use scx_cognis.TaskQueue.{TaskQueue}
use scx_cognis.TaskQueue.Queries.{new_queue-some}

-- A millisecond between two readings.
abbrev pub clock : ℕ → ℕ
clock i = i * 1_000_000

abbrev pub quiet_bss : BssData
quiet_bss = record {
  nr_online_cpus = 8;
  nr_running = 2;
  nr_queued = 1;
  nr_scheduled = 0;
  nr_user_dispatches = 0;
  nr_kernel_dispatches = 0;
  nr_local_dispatches = 0;
  nr_llc_dispatches = 0;
  nr_node_dispatches = 0;
  nr_shared_dispatches = 0;
  nr_xllc_steals = 0;
  nr_xnode_steals = 0;
  nr_cancel_dispatches = 0;
  nr_bounce_dispatches = 0;
  nr_failed_dispatches = 0;
  nr_sched_congested = 0;
}

-- BPF has queued the pid 7, and one sample that is too short.
abbrev pub one_queued : BpfScheduler
one_queued = record {
  bss = quiet_bss;
  queued = sample (7 ∷ replicate 87 0) ∷ sample (1 ∷ []) ∷ [];
  task_exits = sample (7 ∷ 0 ∷ 0 ∷ 0 ∷ []) ∷ [];
  refusals = [];
  dispatched = [];
}

abbrev pub desktop_profile : BpfProfile
desktop_profile = record {
  mode = desktop;
  slice_ns = 1_000_000;
  slice_min_ns = 250_000;
  slice_lag_ns = 40_000_000;
  no_wake_sync = false;
  sticky_tasks = true;
}

abbrev pub no_tasks : TaskLists
no_tasks = λ k. []

abbrev pub empty_queue : TaskQueue Task
empty_queue = (new_queue-some {A = Task} queue_depth (omega arith)).0

pub start : Scheduler ℤ
start = init_with fixed clock one_queued desktop_profile false empty_queue

pub start-IsSound : IsSound start no_tasks 1_000_000
unfolding start
start-IsSound =
    init_with-IsSound fixed clock one_queued desktop_profile false empty_queue
      (new_queue-some {A = Task} queue_depth (omega arith)).1

start-LanesHold : LanesHold start no_tasks
start-LanesHold = start-IsSound.lanes

start-takes : start.bpf.refusals ≡ []
unfolding start init_with
start-takes = refl

abbrev kswapd : QueuedTask
kswapd = record {
  pid = 42;
  cpu = 3;
  nr_cpus_allowed = 1;
  flags = 0;
  start_ts = 5_000_000;
  stop_ts = 6_000_000;
  exec_runtime = 1_000_000;
  weight = 100;
  vtime = 9_000_000;
  enq_cnt = 1;
  comm = codes "kswapd0";
}

abbrev rt_task : Task
rt_task = record {
  qtask = kswapd;
  deadline = 0;
  timestamp = 0;
  label = real_time;
  wake_boosted = false;
  wake_credit_ns = 0;
  latency_sensitive = false;
  is_kernel_worker = true;
  slice_ns = 1_000_000;
}

abbrev rt_list : TaskLists
rt_list = put no_tasks rt_lane (rt_task ∷ [])

waiting : Scheduler ℤ
waiting = push_task start rt_task

waiting-LanesHold : LanesHold waiting rt_list
unfolding waiting
waiting-LanesHold = push_task-LanesHold start no_tasks rt_task start-LanesHold (omega arith)

push_task-LanesHold_example :
    LanesHold (push_task waiting rt_task) (put rt_list rt_lane (rt_task ∷ rt_task ∷ []))
push_task-LanesHold_example =
    push_task-LanesHold waiting rt_list rt_task waiting-LanesHold (omega arith)

pop_strict_example : Popped clock waiting rt_list rt_task []
pop_strict_example = pop_strict clock waiting rt_list rt_task [] waiting-LanesHold refl

waiting-takes : waiting.bpf.refusals ≡ []
unfolding waiting
waiting-takes = (push_task-Outputs start rt_task).taking start-takes

dispatch_all-Sends_example :
    Sends fixed clock waiting (dispatch_all fixed clock 3 waiting) (in_order rt_list)
dispatch_all-Sends_example = dispatch_all-Sends fixed clock 3 waiting rt_list waiting-LanesHold

dispatch_all-whole_example :
    ((dispatch_all fixed clock 1 waiting).bpf.dispatched
      ≡ waiting.bpf.dispatched ++ map (to_dispatched waiting.percpu_local) (in_order rt_list))
    × (tasks_empty (dispatch_all fixed clock 1 waiting) ≡ true)
dispatch_all-whole_example =
    dispatch_all-whole fixed clock 1 waiting rt_list waiting-LanesHold waiting-takes (omega arith)

drain_queued_tasks-Accepts_example :
    Accepts fixed clock start (drain_queued_tasks fixed clock 32 start) no_tasks 32
drain_queued_tasks-Accepts_example =
    drain_queued_tasks-Accepts fixed clock 32 start no_tasks start-LanesHold

schedule-Turns_example : Turns fixed clock start (schedule fixed clock start) no_tasks
schedule-Turns_example = schedule-Turns fixed clock start no_tasks start-LanesHold

schedule-whole_example :
    (tasks_empty (schedule fixed clock start) ≡ true)
    × ((schedule fixed clock start).bpf.bss.nr_scheduled ≡ 0)
schedule-whole_example = schedule-whole fixed clock start no_tasks start-LanesHold start-takes

policy_of-slice_example :
    (start.slice_ns_min ≤ (policy_of fixed start kswapd).slice)
    × ((policy_of fixed start kswapd).slice
        ≤ max (start.base_slice_ns * 4 % 2 ^ 64) start.slice_ns_min)
    × ((policy_of fixed start kswapd).wake_credit_ns ≤ (policy_of fixed start kswapd).slice)
    × ((policy_of fixed start kswapd).wake_credit_ns ≤ 4_000_000)
policy_of-slice_example = policy_of-slice fixed start kswapd

start-times : (start.vruntime_now ≡ 0) × (start.base_slice_ns ≡ 1_000_000)
unfolding start init_with
start-times = (refl, refl)

kswapd-is_kernel_worker : is_kernel_worker kswapd ≡ true
unfolding is_kernel_worker until_nul contains starts_with starts_with_any
kswapd-is_kernel_worker = refl
