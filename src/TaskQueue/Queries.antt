-- ===== src/TaskQueue/Queries.antt =====
-- The queries of `TaskQueue` and its use by a client of src/task_queue.rs, against `Fifo`.
use scx_cognis.Base.{
  ne→==, replicate, ℕ, ◌^◌, ◌<◌, ◌≡◌, refl, Option, none, some, List, [], ◌∷◌, ◌++◌, arith, ◌==◌,
  length, length-replicate, ap₂, ap,
}
use scx_cognis.TaskQueue.Defs.{
  TaskRing, TaskQueue, new_ring, new_queue, ring_is_empty, push, pop, front, is_empty, queue_len,
}
use scx_cognis.TaskQueue.Fifo.{
  fifo_push, fifo_pop, fifo_front, Op, push_op, pop_op, Reply, pushed, popped, fifo_run,
}
use scx_cognis.TaskQueue.Ring.{Models, ring_front-Models, ring_front-empty}
use scx_cognis.TaskQueue.Refine.{Holds, Holds-length-split, push_refines, pop_refines, to_list}

module _ {ℓ} {A : Type ℓ} where
  pub front_refines : (t : TaskQueue A) (n : ℕ) (q : List A) → Holds t n q → front t ≡ fifo_front q
  unfolding front
  front_refines t n q h = go t.primary t.deferred h.ring h.models h.all
    where
      go :
          (r : TaskRing A) (d : Option A) (p : List A)
          → Models r p
          → q ≡ p ++ to_list d
          → front (record { primary = r; deferred = d }) ≡ fifo_front q
      go r none [] m a = ground (arith, ring_front-empty r m)
      go r (some y) [] m a = ground (arith, ring_front-empty r m)
      go r d (x ∷ p) m a = ground (arith, ring_front-Models r x p m)

  pub is_empty_refines :
      (t : TaskQueue A) (n : ℕ) (q : List A) → Holds t n q → is_empty t ≡ (length q == 0)
  unfolding is_empty ring_is_empty
  is_empty_refines t n q h = go t.primary t.deferred h.ring h.models h.all
    where
      go :
          (r : TaskRing A) (d : Option A) (p : List A)
          → Models r p
          → q ≡ p ++ to_list d
          → is_empty (record { primary = r; deferred = d }) ≡ (length q == 0)
      go r none [] m a = ground arith
      go r (some y) [] m a = ground arith
      go r d (x ∷ p) m a = ground arith

  pub queue_len_refines :
      (t : TaskQueue A) (n : ℕ) (q : List A) → Holds t n q → queue_len t ≡ length q
  unfolding queue_len
  queue_len_refines t n q h = go t.primary t.deferred h
    where
      go :
          (r : TaskRing A) (d : Option A)
          → Holds (record { primary = r; deferred = d }) n q
          → queue_len (record { primary = r; deferred = d }) ≡ length q
      go r none h = ground (arith, Holds-length-split r none n q h)
      go r (some y) h = ground (arith, Holds-length-split r (some y) n q h)

  pub new_queue-some : (n : ℕ) → 0 < n → (t : TaskQueue A) × (new_queue n ≡ some t)
  unfolding new_queue new_ring
  new_queue-some n h = (
    record {
      primary = record { buf = replicate n none; head = 0; tail = 0; len = 0 };
      deferred = none;
    },
    rw (new_queue, new_ring, ne→== n 0 (omega arith)) refl,
  )

  pub new_queue-Holds : (n : ℕ) {t : TaskQueue A} → n < 2 ^ 63 → new_queue n ≡ some t → Holds t n []
  unfolding new_queue new_ring
  new_queue-Holds n {t} h e = record {
    ring = [];
    models = ground (arith, length-replicate {ℓ} {A = Option A} n none);
    places = ground (arith, length-replicate {ℓ} {A = Option A} n none);
    all = ground arith;
    full = ground arith;
  }

  -- A client's calls in order, with what each of them returns.
  unfoldable pub run : TaskQueue A → List (Op A) → List (Reply A)
  run t [] = []
  run t (push_op x ∷ ops) = let (res, t') = push t x in pushed res ∷ run t' ops
  run t (pop_op ∷ ops) = let (res, t') = pop t in popped res ∷ run t' ops

  -- A queue of `n` places that holds the tasks `q` answers every sequence of pushes and pops as
  -- the bounded FIFO of `q` does.
  pub run_refines :
      (ops : List (Op A)) (t : TaskQueue A) (n : ℕ) (q : List A)
      → Holds t n q
      → run t ops ≡ fifo_run n q ops
  unfolding run fifo_run
  run_refines [] t n q h = refl
  run_refines (push_op x ∷ ops) t n q h =
      let s = push_refines t n q x h in
      ap₂ ◌∷◌ (ap pushed s.0) (run_refines ops (push t x).1 n (fifo_push n q x).1 s.1)
  run_refines (pop_op ∷ ops) t n q h =
      let s = pop_refines t n q h in
      ap₂ ◌∷◌ (ap popped s.0) (run_refines ops (pop t).1 n (fifo_pop q).1 s.1)
