-- ===== src/Bpf.antt =====
-- src/bpf.rs: the tasks that cross between BPF and the scheduler, and `BpfScheduler`, the connector.
-- libbpf and the BPF side are not modelled: what the calls of `consume_raw_n(1)` on the two ring
-- buffers will meet, and whether the user ring buffer takes a task, are lists in the state, one
-- element for each call to come. Beyond the list a ring is empty and a task is taken.
pub mod Decode
pub mod Topology
pub mod OpsName
pub mod Setup
use scx_cognis.Base.{
  ℕ, ◌+◌, ◌-◌, ◌==◌, ◌≡◌, Bool, Option, none, some, List, [], ◌∷◌, ◌++◌, if◌then◌else◌, Result, ok,
  err,
}
use scx_cognis.Bpf.Decode.{QueuedTask, decode_queued_task, decode_exited_pid, eio, eproto}

pub record DispatchedTask : Type 0 where
  pub pid : ℕ
  pub cpu : ℕ
  pub flags : ℕ
  pub slice_ns : ℕ
  pub vtime : ℕ
  pub enq_cnt : ℕ

-- `DispatchedTask::new`
unfoldable pub new_dispatched : QueuedTask → DispatchedTask
new_dispatched task = record {
  pid = task.pid;
  cpu = task.cpu;
  flags = task.flags;
  slice_ns = 0;
  vtime = 0;
  enq_cnt = task.enq_cnt;
}

-- `RL_CPU_ANY`, 1 << 20.
abbrev pub rl_cpu_any : ℕ
rl_cpu_any = 1_048_576

-- The counters of `bss_data`. `init` fails where the map is missing.
pub record BssData : Type 0 where
  pub nr_online_cpus : ℕ
  pub nr_running : ℕ
  pub nr_queued : ℕ
  pub nr_scheduled : ℕ
  pub nr_user_dispatches : ℕ
  pub nr_kernel_dispatches : ℕ
  pub nr_local_dispatches : ℕ
  pub nr_llc_dispatches : ℕ
  pub nr_node_dispatches : ℕ
  pub nr_shared_dispatches : ℕ
  pub nr_xllc_steals : ℕ
  pub nr_xnode_steals : ℕ
  pub nr_cancel_dispatches : ℕ
  pub nr_bounce_dispatches : ℕ
  pub nr_failed_dispatches : ℕ
  pub nr_sched_congested : ℕ

-- What one `consume_raw_n(1)` does: it finds nothing; it hands a sample to the callback; it reports
-- one sample without a call; it fails; or it reports more than one. A callback that refuses its
-- sample makes the call fail with the callback's error.
pub data Consumed : Type 0 where
  nothing : Consumed
  sample : List ℕ → Consumed
  undelivered : Consumed
  failed : ℕ → Consumed
  surplus : ℕ → Consumed

pub record BpfScheduler : Type 0 where
  pub bss : BssData
  pub queued : List Consumed
  pub task_exits : List Consumed
  -- The error of each call of `dispatch_task` to come, `none` where it succeeds.
  pub refusals : List (Option ℕ)
  -- The tasks submitted to the user ring buffer, oldest first.
  pub dispatched : List DispatchedTask

abbrev pub next_of : List Consumed → Consumed × List Consumed
next_of [] = (nothing, [])
next_of (c ∷ cs) = (c, cs)

-- `Err(-e)` is `err e`.
abbrev pub dequeued :
    BpfScheduler → Result QueuedTask ℕ → Result (Option QueuedTask) ℕ × BpfScheduler
dequeued b (ok task) =
    (ok (some task), record b { bss = record b.bss { nr_queued = b.bss.nr_queued - 1 } })
dequeued b (err e) = (err e, b)

abbrev pub on_queued : BpfScheduler → Consumed → Result (Option QueuedTask) ℕ × BpfScheduler
on_queued b nothing = (ok none, record b { bss = record b.bss { nr_queued = 0 } })
on_queued b (sample bytes) = dequeued b (decode_queued_task bytes)
on_queued b undelivered = (err eio, b)
on_queued b (failed e) = (err e, b)
on_queued b (surplus n) = (err eproto, b)

unfoldable pub dequeue_task : BpfScheduler → Result (Option QueuedTask) ℕ × BpfScheduler
dequeue_task b = let (c, rest) = next_of b.queued in on_queued (record b { queued = rest }) c

abbrev pub exited_pid : Result ℕ ℕ → Result (Option ℕ) ℕ
exited_pid (ok pid) = ok (some pid)
exited_pid (err e) = err e

abbrev pub on_exited : Consumed → Result (Option ℕ) ℕ
on_exited nothing = ok none
on_exited (sample bytes) = exited_pid (decode_exited_pid bytes)
on_exited undelivered = err eio
on_exited (failed e) = err e
on_exited (surplus n) = err eproto

unfoldable pub dequeue_exited_pid : BpfScheduler → Result (Option ℕ) ℕ × BpfScheduler
dequeue_exited_pid b =
    let (c, rest) = next_of b.task_exits in (on_exited c, record b { task_exits = rest })

abbrev pub submit :
    BpfScheduler → DispatchedTask → List (Option ℕ) → Result (Unit {0}) ℕ × BpfScheduler
submit b task [] = (ok tt, record b { dispatched = b.dispatched ++ task ∷ [] })
submit b task (none ∷ rest) =
    (ok tt, record b { dispatched = b.dispatched ++ task ∷ []; refusals = rest })
submit b task (some e ∷ rest) = (err e, record b { refusals = rest })

unfoldable pub dispatch_task : BpfScheduler → DispatchedTask → Result (Unit {0}) ℕ × BpfScheduler
dispatch_task b task = submit b task b.refusals

unfoldable pub notify_complete : BpfScheduler → ℕ → BpfScheduler
notify_complete b nr_pending = record b { bss = record b.bss { nr_scheduled = nr_pending } }
