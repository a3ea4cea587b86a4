-- ===== src/TaskQueue/Defs.antt =====
-- The definitions of src/task_queue.rs. `buf` is `Box<[MaybeUninit<T>]>`: a slot is `none` until it
-- is written. Reading such a slot is undefined behaviour, and `none` here; the theorems on
-- `pop_front` and `front` show that it is never read. `len() <= isize::MAX`, so that the sums
-- `tail + 1` and `head + 1` are written with the wrap-around of `usize`, which never happens.
use scx_cognis.Base.{
  ℕ, ◌-◌, ◌%◌, Bool, ◌&&◌, Option, none, some, List, ◌==◌, if◌then◌else◌, length, get_or, set,
  replicate, add64, Result, ok, err, is_some, is_none,
}

pub data QueuePush : Type 0 where
  primary_slot deferred_slot : QueuePush

pub record TaskRing {ℓ} (A : Type ℓ) : Type ℓ where
  pub buf : List (Option A)
  pub head : ℕ
  pub tail : ℕ
  pub len : ℕ

module _ {ℓ} {A : Type ℓ} where
  -- `none` is the panic of `assert!(capacity > 0)`.
  unfoldable pub new_ring : ℕ → Option (TaskRing A)
  new_ring capacity =
      if capacity == 0
      then none
      else some (record { buf = replicate capacity none; head = 0; tail = 0; len = 0 })

  unfoldable pub ring_is_full : TaskRing A → Bool
  ring_is_full r = r.len == length r.buf

  unfoldable pub ring_is_empty : TaskRing A → Bool
  ring_is_empty r = r.len == 0

  unfoldable pub push_back : TaskRing A → A → Result (Unit {0}) A × TaskRing A
  push_back r value = if r.len == length r.buf then (err value, r) else (
    ok tt,
    record r {
      buf = set r.buf r.tail (some value);
      tail = add64 r.tail 1 % length r.buf;
      len = add64 r.len 1;
    },
  )

  unfoldable pub pop_front : TaskRing A → Option A × TaskRing A
  pop_front r = if r.len == 0 then (none, r) else (
    get_or r.buf r.head none,
    record r { head = add64 r.head 1 % length r.buf; len = r.len - 1 },
  )

  unfoldable pub ring_front : TaskRing A → Option A
  ring_front r = if r.len == 0 then none else get_or r.buf r.head none

pub record TaskQueue {ℓ} (A : Type ℓ) : Type ℓ where
  pub primary : TaskRing A
  pub deferred : Option A

module _ {ℓ} {A : Type ℓ} where
  unfoldable pub new_queue : ℕ → Option (TaskQueue A)
  new_queue capacity = elim (new_ring {A = A} capacity) [
    | none ↦ none
    | some r ↦ some (record { primary = r; deferred = none })
  ]

  -- `self.primary.push_back(value).map(|_| QueuePush::Primary)`
  abbrev pub as_primary : Result (Unit {0}) A → Result QueuePush A
  as_primary (ok u) = ok primary_slot
  as_primary (err a) = err a

  unfoldable pub push : TaskQueue A → A → Result QueuePush A × TaskQueue A
  push q value =
      if ring_is_full q.primary
      then if is_none q.deferred
        then (ok deferred_slot, record q { deferred = some value })
        else (err value, q)
      else let (res, r) = push_back q.primary value in (as_primary res, record q { primary = r })

  -- The inner `if let Err(task)` of `refill_from_deferred`.
  abbrev pub put_back : Result (Unit {0}) A → TaskRing A → TaskQueue A
  put_back (ok u) r = record { primary = r; deferred = none }
  put_back (err task) r = record { primary = r; deferred = some task }

  unfoldable pub refill_from_deferred : TaskQueue A → TaskQueue A
  refill_from_deferred q = elim q.deferred [
    | none ↦ q
    | some task ↦
        if ring_is_full q.primary
        then q
        else let (res, r) = push_back q.primary task in put_back res r
  ]

  unfoldable pub pop : TaskQueue A → Option A × TaskQueue A
  pop q =
      let (res, r) = pop_front q.primary in
      elim res [
        | some task ↦ (some task, refill_from_deferred (record q { primary = r }))
        | none ↦ (q.deferred, record { primary = r; deferred = none })
      ]

  unfoldable pub front : TaskQueue A → Option A
  front q = elim (ring_front q.primary) [ some task ↦ some task | none ↦ q.deferred ]

  unfoldable pub is_empty : TaskQueue A → Bool
  is_empty q = ring_is_empty q.primary && is_none q.deferred

  unfoldable pub queue_len : TaskQueue A → ℕ
  queue_len q = add64 q.primary.len (if is_some q.deferred then 1 else 0)

  unfoldable pub capacity : TaskQueue A → ℕ
  capacity q = add64 (length q.primary.buf) 1

  unfoldable pub has_deferred : TaskQueue A → Bool
  has_deferred q = is_some q.deferred
