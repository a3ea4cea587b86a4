-- ===== src/TaskQueue/Tests.antt =====
-- Examples of the queue of src/task_queue.rs, with two places and numbers for tasks.
use scx_cognis.Base.{ℕ, ◌≡◌, refl, none, some, List, [], ◌∷◌, arith, ok, err}
use scx_cognis.TaskQueue.Defs.{TaskQueue, new_ring, new_queue, primary_slot, deferred_slot}
use scx_cognis.TaskQueue.Fifo.{Op, push_op, pop_op, pushed, popped, fifo_run}
use scx_cognis.TaskQueue.Queries.{run, run_refines, new_queue-Holds}
use scx_cognis.TaskQueue.Refine.{Holds}

abbrev two_places : TaskQueue ℕ
two_places = record {
  primary = record { buf = none ∷ none ∷ []; head = 0; tail = 0; len = 0 };
  deferred = none;
}

two_places-Holds : Holds two_places 2 []
unfolding new_queue new_ring
two_places-Holds = new_queue-Holds {A = ℕ} 2 {t = two_places} (omega arith) refl

abbrev script : List (Op ℕ)
script = push_op 5 ∷ push_op 6 ∷ push_op 7 ∷ push_op 8 ∷ pop_op ∷ push_op 9 ∷ pop_op ∷ pop_op ∷ []

script_replies :
    fifo_run 2 [] script
    ≡ pushed (ok primary_slot)
      ∷ pushed (ok primary_slot)
      ∷ pushed (ok deferred_slot)
      ∷ pushed (err 8)
      ∷ popped (some 5)
      ∷ pushed (ok deferred_slot)
      ∷ popped (some 6)
      ∷ popped (some 7)
      ∷ []
unfolding fifo_run
script_replies = refl

run_refines_example : run two_places script ≡ fifo_run 2 [] script
run_refines_example = run_refines script two_places 2 [] two_places-Holds

abbrev one_task : List ℕ
one_task = 4 ∷ []
