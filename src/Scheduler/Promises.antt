-- ===== src/Scheduler/Promises.antt =====
-- What the drain, the dispatch loop and `schedule` of src/main.rs promise of the tasks.
use mathlib.Core.List.{Perm}
use mathlib.Core.List.Perm
use scx_cognis.Base.{
  ℕ, ◌+◌, ◌≤◌, ◌≡◌, refl, sym, ap, ◌∙◌, true, List, [], ◌++◌, map, append-nil, ◌==◌, length, ◌⊎◌,
}
use scx_cognis.Floats.{Floats}
use scx_cognis.Bpf.Decode.{QueuedTask}
use scx_cognis.Scheduler.Batch.{batch, arrive, without_vtime}
use scx_cognis.Scheduler.Dispatch.{dispatch_all-Emptied}
use scx_cognis.Scheduler.Drain.{Grown, drain_queued_tasks-Batched}
use scx_cognis.Scheduler.Hold.{TaskLists, in_order, LanesHold, tasks_empty-LanesHold}
use scx_cognis.Scheduler.Lanes.{has_deferred_tasks, tasks_empty}
use scx_cognis.Scheduler.Pipeline.{
  to_dispatched, drain_queued_tasks, dispatch_all, drain_budget, schedule,
}
use scx_cognis.Scheduler.Schedule.{schedule-Scheduled}
use scx_cognis.Scheduler.Types.{Task, Scheduler}

module _ {F32 F64 : Type 0} (fp : Floats F32 F64) (clock : ℕ → ℕ) where
  -- From `s`, in which the tasks `q` wait in the order of priority, to `u`: the first tasks of `q`
  -- were sent, in that order, and the lanes hold exactly the others.
  pub record Sends (s u : Scheduler F32) (q : List Task) : Type 0 where
    pub sent : List Task
    pub rest : List Task
    pub left : TaskLists
    pub split : q ≡ sent ++ rest
    pub appended : u.bpf.dispatched ≡ s.bpf.dispatched ++ map (to_dispatched s.percpu_local) sent
    pub holds : LanesHold u left
    pub kept : Perm (in_order left) rest

  -- From a state whose lanes hold the lists `l`, any number of rounds of the dispatch loop send
  -- tasks from the front of the order of priority, whatever BPF refuses, and lose none: the
  -- lanes keep exactly those that were not sent.
  pub dispatch_all-Sends :
      (fuel : ℕ) (s : Scheduler F32) (l : TaskLists)
      → LanesHold s l
      → Sends s (dispatch_all fp clock fuel s) (in_order l)
  dispatch_all-Sends fuel s l h =
      let e = dispatch_all-Emptied fp clock fuel s l (in_order l) h refl in
      record {
        sent = e.sent;
        rest = e.rest;
        left = e.left;
        split = e.split;
        appended = e.out.appended;
        holds = e.holds;
        kept = e.kept;
      }

  nothing_left :
      (s : Scheduler F32) (l : TaskLists) (rest : List Task)
      → LanesHold s l
      → Perm (in_order l) rest
      → rest ≡ []
      → tasks_empty s ≡ true
  nothing_left s l rest h p e =
      let none_left : in_order l ≡ [] = Perm.eq-nil (rw e at p) in
      tasks_empty-LanesHold s l h ∙ ap (λ q. length q == 0) none_left

  all_sent : (q sent rest : List Task) → q ≡ sent ++ rest → rest ≡ [] → sent ≡ q
  all_sent q sent rest e f = sym (e ∙ (ap (λ r. sent ++ r) f ∙ append-nil sent))

  -- Where the lanes hold the lists `l` and BPF refuses no task, the loop ends with empty lanes
  -- after as many rounds as there are tasks, and has sent every task, in the order of priority.
  pub dispatch_all-whole :
      (fuel : ℕ) (s : Scheduler F32) (l : TaskLists)
      → LanesHold s l
      → s.bpf.refusals ≡ []
      → length (in_order l) ≤ fuel
      → ((dispatch_all fp clock fuel s).bpf.dispatched
          ≡ s.bpf.dispatched ++ map (to_dispatched s.percpu_local) (in_order l))
        × (tasks_empty (dispatch_all fp clock fuel s) ≡ true)
  dispatch_all-whole fuel s l h r enough =
      let e = dispatch_all-Emptied fp clock fuel s l (in_order l) h refl in
      let done = e.whole r enough in
      (
        e.out.appended
            ∙ ap (λ q. s.bpf.dispatched ++ map (to_dispatched s.percpu_local) q)
                (all_sent (in_order l) e.sent e.rest e.split done),
        nothing_left _ e.left e.rest e.holds e.kept done,
      )

  -- What a batch of the drain does: it takes the first tasks that the ring buffer hands over, all of
  -- them unless a task is then deferred, and each comes to the end of its lane, in their order;
  -- nothing is sent.
  pub record Accepts (s u : Scheduler F32) (l : TaskLists) (n : ℕ) : Type 0 where
    pub lists : TaskLists
    pub holds : LanesHold u lists
    pub taken : List QueuedTask
    pub untaken : List QueuedTask
    pub split : batch n s.bpf.queued ≡ taken ++ untaken
    pub stops : (untaken ≡ []) ⊎ (has_deferred_tasks u ≡ true)
    pub guarded : has_deferred_tasks s ≡ true → taken ≡ []
    pub arrived : List Task
    pub same_tasks : map (λ t. without_vtime t.qtask) arrived ≡ map without_vtime taken
    pub placed : lists ≡ arrive l arrived
    pub grown : Grown l lists
    pub few : length (in_order lists) ≤ length (in_order l) + n
    pub same : u.bpf.dispatched ≡ s.bpf.dispatched

  -- From a state whose lanes hold the lists `l`, the drain takes tasks in the order in which the ring
  -- buffer hands them over: none while one is deferred, and otherwise `n`, or all before its first
  -- result without a task, unless it stops before because a task was deferred. Each task that
  -- is taken comes, unchanged but for its virtual time, to the end of the lane that `push_task`
  -- chooses; no push is refused, no other task is added, none is lost and none is sent.
  pub drain_queued_tasks-Accepts :
      (n : ℕ) (s : Scheduler F32) (l : TaskLists)
      → LanesHold s l
      → Accepts s (drain_queued_tasks fp clock n s) l n
  drain_queued_tasks-Accepts n s l h =
      let b = drain_queued_tasks-Batched fp clock n s l h in
      let d = b.drained in
      record {
        lists = d.lists;
        holds = d.holds;
        taken = b.taken;
        untaken = b.untaken;
        split = b.split;
        stops = b.stops;
        guarded = b.guarded;
        arrived = d.arrived;
        same_tasks = d.of_taken;
        placed = d.placed;
        grown = d.grown;
        few = d.few;
        same = d.out.appended ∙ append-nil s.bpf.dispatched;
      }

  -- What one call of `schedule` does: a batch comes in, the first tasks go out, and BPF is told how
  -- many are left.
  pub record Turns (s u : Scheduler F32) (l : TaskLists) : Type 0 where
    pub queued : TaskLists
    pub grown : Grown l queued
    pub few : length (in_order queued) ≤ length (in_order l) + drain_budget fp clock s
    pub sends : Sends s u (in_order queued)
    pub pending : u.bpf.bss.nr_scheduled ≡ length sends.rest

  -- From a state whose lanes hold the lists `l`, `schedule` adds tasks at the ends of the lanes
  -- within its budget, sends tasks from the front of the order of priority, keeps the others in
  -- the lanes and reports their number to BPF, whatever BPF hands over or refuses.
  pub schedule-Turns :
      (s : Scheduler F32) (l : TaskLists) → LanesHold s l → Turns s (schedule fp clock s) l
  schedule-Turns s l h =
      let d = schedule-Scheduled fp clock s l h in
      record {
        queued = d.queued;
        grown = d.grown;
        few = d.few;
        sends = record {
          sent = d.sent;
          rest = d.rest;
          left = d.left;
          split = d.split;
          appended = d.appended;
          holds = d.holds;
          kept = d.kept;
        };
        pending = d.pending;
      }

  -- Where the lanes hold the lists `l` and BPF refuses no task, `schedule` leaves no task
  -- waiting and reports none to BPF.
  pub schedule-whole :
      (s : Scheduler F32) (l : TaskLists)
      → LanesHold s l
      → s.bpf.refusals ≡ []
      → (tasks_empty (schedule fp clock s) ≡ true)
        × ((schedule fp clock s).bpf.bss.nr_scheduled ≡ 0)
  schedule-whole s l h r =
      let d = schedule-Scheduled fp clock s l h in
      let done = d.whole r in
      (nothing_left _ d.left d.rest d.holds d.kept done, d.pending ∙ ap length done)
