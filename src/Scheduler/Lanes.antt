-- ===== src/Scheduler/Lanes.antt =====
-- The three lanes of src/main.rs.
use scx_cognis.Base.{
  ℕ, ◌-◌, Bool, false, ◌&&◌, ◌||◌, Option, none, some, if◌then◌else◌, sat_add, add64, Result, ok,
  err,
}
use scx_cognis.Scheduler.Features.{queue_is_starved}
use scx_cognis.Scheduler.Types.{Task, Scheduler, is_real_time, now_ns}
use scx_cognis.Scheduler.Wake.{should_wake_preempt}
use scx_cognis.TaskQueue.{
  TaskQueue, QueuePush, primary_slot, deferred_slot, push, pop, front, is_empty, queue_len,
  has_deferred,
}

-- The queue that `push_task` chooses.
pub data Lane : Type 0 where
  rt_lane boosted_lane fair_lane : Lane

abbrev pub lane_of : Task → Lane
lane_of task =
    if is_real_time task.label
    then rt_lane
    else if task.wake_boosted
    then boosted_lane
    else fair_lane

-- The test that `is_some_and` makes of the front of the boosted lane.
abbrev pub front_preempts : Option Task → ℕ → Bool
front_preempts none now = false
front_preempts (some task) now =
    should_wake_preempt task.wake_boosted task.latency_sensitive task.wake_credit_ns
      (now - task.timestamp)

module _ {F32 : Type 0} where
  abbrev pub lane : Scheduler F32 → Lane → TaskQueue Task
  lane s rt_lane = s.rt_queue
  lane s boosted_lane = s.boosted_interactive_queue
  lane s fair_lane = s.interactive_queue

  abbrev pub set_lane : Scheduler F32 → Lane → TaskQueue Task → Scheduler F32
  set_lane s rt_lane q = record s { rt_queue = q }
  set_lane s boosted_lane q = record s { boosted_interactive_queue = q }
  set_lane s fair_lane q = record s { interactive_queue = q }

  abbrev pub congest : Scheduler F32 → Scheduler F32
  congest s =
      let bss = s.bpf.bss in
      record s {
        bpf = record s.bpf {
          bss = record bss { nr_sched_congested = sat_add bss.nr_sched_congested 1 };
        };
      }

  -- A refused task is dropped with a warning.
  abbrev pub on_pushed : Scheduler F32 → Result QueuePush Task → Scheduler F32
  on_pushed s (ok primary_slot) = s
  on_pushed s (ok deferred_slot) = congest s
  on_pushed s (err task) = s

  unfoldable pub push_task : Scheduler F32 → Task → Scheduler F32
  push_task s task =
      let l = lane_of task in
      let (result, q) = push (lane s l) task in on_pushed (set_lane s l q) result

  unfoldable pub has_deferred_tasks : Scheduler F32 → Bool
  has_deferred_tasks s =
      has_deferred s.boosted_interactive_queue
      || (has_deferred s.rt_queue || has_deferred s.interactive_queue)

  unfoldable pub tasks_empty : Scheduler F32 → Bool
  tasks_empty s =
      is_empty s.boosted_interactive_queue && (is_empty s.rt_queue && is_empty s.interactive_queue)

  unfoldable pub tasks_len : Scheduler F32 → ℕ
  tasks_len s =
      add64 (add64 (queue_len s.boosted_interactive_queue) (queue_len s.rt_queue))
        (queue_len s.interactive_queue)

  unfoldable pub pop_lane : Scheduler F32 → Lane → Option Task × Scheduler F32
  pop_lane s l = let (t, q) = pop (lane s l) in (t, set_lane s l q)

  -- The end of `pop_highest_priority_task`: the boosted lane, then the fair one.
  abbrev pub pop_rest : Option Task × Scheduler F32 → Option Task × Scheduler F32
  pop_rest (some t, s) = (some t, s)
  pop_rest (none, s) = pop_lane s fair_lane

  abbrev pub pop_boosted : Scheduler F32 → ℕ → Option Task × Scheduler F32
  pop_boosted s now =
      let top = front s.boosted_interactive_queue in
      if front_preempts top now
      then pop_lane s boosted_lane
      else if queue_is_starved top now 12_000_000
      then pop_lane s boosted_lane
      else pop_rest (pop_lane s boosted_lane)

  module _ (clock : ℕ → ℕ) where
    abbrev pub after_rt : Option Task × Scheduler F32 → Option Task × Scheduler F32
    after_rt (some t, s) = (some t, s)
    after_rt (none, s) = let (now, s') = now_ns clock s in pop_boosted s' now

    unfoldable pub pop_highest_priority_task : Scheduler F32 → Option Task × Scheduler F32
    pop_highest_priority_task s = after_rt (pop_lane s rt_lane)
