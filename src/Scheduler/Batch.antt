-- ===== src/Scheduler/Batch.antt =====
-- What a batch of `drain_queued_tasks` in src/main.rs is to take from the ring buffer, and where the
-- tasks are to go, written without the state of the scheduler.
use scx_cognis.Base.{
  ℕ, zero, suc, ◌≡◌, refl, Option, none, some, List, [], ◌∷◌, ◌++◌, Result, ok, err,
}
use scx_cognis.Bpf.{
  BpfScheduler, Consumed, nothing, sample, undelivered, failed, surplus, next_of, dequeued,
  on_queued, dequeue_task,
}
use scx_cognis.Bpf.Decode.{QueuedTask, decode_queued_task}
use scx_cognis.Scheduler.Hold.{TaskLists, put}
use scx_cognis.Scheduler.Lanes.{lane_of}
use scx_cognis.Scheduler.Types.{Task}

-- The task that a consumed result hands over.
abbrev pub ok_task : Result QueuedTask ℕ → Option QueuedTask
ok_task (ok task) = some task
ok_task (err e) = none

abbrev pub handed : Consumed → Option QueuedTask
handed (sample bytes) = ok_task (decode_queued_task bytes)
handed nothing = none
handed undelivered = none
handed (failed e) = none
handed (surplus n) = none

abbrev pub cons_task : Option QueuedTask → List QueuedTask → List QueuedTask
cons_task none rest = []
cons_task (some task) rest = task ∷ rest

-- The tasks that the ring buffer hands over before its first result without one, `n` at most.
unfoldable pub batch : ℕ → List Consumed → List QueuedTask
batch zero cs = []
batch (suc n) [] = []
batch (suc n) (c ∷ cs) = cons_task (handed c) (batch n cs)

-- Lists of tasks after tasks are put at the ends of their lanes, one after the other.
abbrev pub arrive : TaskLists → List Task → TaskLists
arrive l [] = l
arrive l (t ∷ ts) = arrive (put l (lane_of t) (l (lane_of t) ++ t ∷ [])) ts

-- A task as BPF has handed it over, but for the virtual time, which the scheduler advances.
abbrev pub without_vtime : QueuedTask → QueuedTask
without_vtime task = record task { vtime = 0 }

pub arrive-append : (l : TaskLists) (a b : List Task) → arrive l (a ++ b) ≡ arrive (arrive l a) b
arrive-append l [] b = refl
arrive-append l (t ∷ a) b = arrive-append (put l (lane_of t) (l (lane_of t) ++ t ∷ [])) a b

abbrev pub result_task : Result (Option QueuedTask) ℕ → Option QueuedTask
result_task (ok o) = o
result_task (err e) = none

decoded-task :
    (b : BpfScheduler) (r : Result QueuedTask ℕ)
    → (result_task (dequeued b r).0 ≡ ok_task r) × ((dequeued b r).1.queued ≡ b.queued)
decoded-task b (ok task) = (refl, refl)
decoded-task b (err e) = (refl, refl)

on_queued-task :
    (b : BpfScheduler) (c : Consumed)
    → (result_task (on_queued b c).0 ≡ handed c) × ((on_queued b c).1.queued ≡ b.queued)
on_queued-task b nothing = (refl, refl)
on_queued-task b (sample bytes) = decoded-task b (decode_queued_task bytes)
on_queued-task b undelivered = (refl, refl)
on_queued-task b (failed e) = (refl, refl)
on_queued-task b (surplus n) = (refl, refl)

next-batch :
    (n : ℕ) (b : BpfScheduler) (cs : List Consumed)
    → let r = on_queued (record b { queued = (next_of cs).1 }) (next_of cs).0 in
      batch (suc n) cs ≡ cons_task (result_task r.0) (batch n r.1.queued)
unfolding batch
next-batch n b [] = refl
next-batch n b (c ∷ cs) = let (e, q) = on_queued-task (record b { queued = cs }) c in rw (e, q) refl

-- A dequeue hands over the first task of the batch and leaves the others.
pub dequeue_task-batch :
    (n : ℕ) (b : BpfScheduler)
    → batch (suc n) b.queued
      ≡ cons_task (result_task (dequeue_task b).0) (batch n (dequeue_task b).1.queued)
unfolding dequeue_task
dequeue_task-batch n b = next-batch n b b.queued
