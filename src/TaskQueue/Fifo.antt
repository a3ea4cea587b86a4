-- ===== src/TaskQueue/Fifo.antt =====
-- What a `TaskQueue` promises: a FIFO of at most `n + 1` tasks, which says of each accepted task
-- whether it went to one of the `n` primary places or to the last, deferred one.
use scx_cognis.Base.{
  ℕ, Option, none, some, List, [], ◌∷◌, ◌++◌, ltb, if◌then◌else◌, length, Result, ok, err,
}
use scx_cognis.TaskQueue.Defs.{QueuePush, primary_slot, deferred_slot}

module _ {ℓ} {A : Type ℓ} where
  abbrev pub fifo_push : ℕ → List A → A → Result QueuePush A × List A
  fifo_push n q x =
      if ltb (length q) n
      then (ok primary_slot, q ++ x ∷ [])
      else if ltb n (length q)
      then (err x, q)
      else (ok deferred_slot, q ++ x ∷ [])

  abbrev pub fifo_pop : List A → Option A × List A
  fifo_pop [] = (none, [])
  fifo_pop (x ∷ q) = (some x, q)

  abbrev pub fifo_front : List A → Option A
  fifo_front [] = none
  fifo_front (x ∷ q) = some x

-- A client's calls, and what each of them returns.
pub data Op {ℓ} (A : Type ℓ) : Type ℓ where
  push_op : A → Op A
  pop_op : Op A

pub data Reply {ℓ} (A : Type ℓ) : Type ℓ where
  pushed : Result QueuePush A → Reply A
  popped : Option A → Reply A

module _ {ℓ} {A : Type ℓ} where
  unfoldable pub fifo_run : ℕ → List A → List (Op A) → List (Reply A)
  fifo_run n q [] = []
  fifo_run n q (push_op x ∷ ops) = let (res, q') = fifo_push n q x in pushed res ∷ fifo_run n q' ops
  fifo_run n q (pop_op ∷ ops) = let (res, q') = fifo_pop q in popped res ∷ fifo_run n q' ops
