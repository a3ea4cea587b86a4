-- ===== src/TaskQueue/Refine.antt =====
-- A `TaskQueue` of src/task_queue.rs behaves as the bounded FIFO of `Fifo`.
use scx_cognis.Base.{
  ℕ, ◌+◌, ◌≤◌, ◌≡◌, ◌≢◌, refl, true, Option, none, some, List, [], ◌∷◌, ◌++◌, append-nil, arith,
  ltb, length, length-append, is_some, ok, ℕ_discrete,
}
use scx_cognis.TaskQueue.Defs.{
  TaskRing, TaskQueue, push_back, pop_front, ring_is_full, refill_from_deferred, push, pop,
  has_deferred,
}
use scx_cognis.TaskQueue.Fifo.{fifo_push, fifo_pop}
use scx_cognis.TaskQueue.Ring.{Models, push_back-ok, pop_front-empty, pop_front-cons}

module _ {ℓ} {A : Type ℓ} where
  abbrev pub to_list : Option A → List A
  to_list none = []
  to_list (some a) = a ∷ []

  -- The queue of `n` primary places holds the tasks `q`, oldest first: those of the ring, then the
  -- deferred one, which is there only while the ring is full.
  pub record Holds (t : TaskQueue A) (n : ℕ) (q : List A) : Type ℓ where
    pub ring : List A
    pub models : Models t.primary ring
    pub places : length t.primary.buf ≡ n
    pub all : q ≡ ring ++ to_list t.deferred
    pub full : is_some t.deferred ≡ true → length ring ≡ n

  pub Holds-length-split :
      (r : TaskRing A) (d : Option A) (n : ℕ) (q : List A)
      → (h : Holds (record { primary = r; deferred = d }) n q)
      → length q ≡ length h.ring + (length (to_list d))
  Holds-length-split r d n q h = rw (h.all) (length-append h.ring (to_list d))

  -- A queue of `n` places holds at most `n + 1` tasks, and one of them is deferred exactly when
  -- it holds that many.
  pub Holds-length :
      (t : TaskQueue A) (n : ℕ) (q : List A)
      → Holds t n q
      → (length q ≤ n + 1) × (has_deferred t ≡ ltb n (length q))
  unfolding has_deferred
  Holds-length t n q h = go t.primary t.deferred h
    where
      go :
          (r : TaskRing A) (d : Option A)
          → Holds (record { primary = r; deferred = d }) n q
          → (length q ≤ n + 1) × (is_some d ≡ ltb n (length q))
      go r none h = ground (arith, Holds-length-split r none n q h, h.full, h.models)
      go r (some x) h = ground (arith, Holds-length-split r (some x) n q h, h.full, h.models)

  push-full :
      (r : TaskRing A) (d : Option A) (n : ℕ) (q : List A) (x : A)
      → Holds (record { primary = r; deferred = d }) n q
      → r.len ≡ length r.buf
      → let t : TaskQueue A = record { primary = r; deferred = d } in
        ((push t x).0 ≡ (fifo_push n q x).0) × Holds (push t x).1 n (fifo_push n q x).1
  unfolding push ring_is_full
  push-full r none n q x h e = ground (arith, Holds-length-split r none n q h, append-nil h.ring)
  push-full r (some y) n q x h e = ground (arith, Holds-length-split r (some y) n q h, h.full)

  push-room :
      (r : TaskRing A) (d : Option A) (n : ℕ) (q : List A) (x : A)
      → Holds (record { primary = r; deferred = d }) n q
      → r.len ≢ length r.buf
      → let t : TaskQueue A = record { primary = r; deferred = d } in
        ((push t x).0 ≡ (fifo_push n q x).0) × Holds (push t x).1 n (fifo_push n q x).1
  unfolding push ring_is_full
  push-room r (some y) n q x h ne = absurd (ground (arith, h.full refl, h.models.counted))
  push-room r none n q x h ne = (
    ground (arith, done, held),
    record {
      ring = h.ring ++ x ∷ [];
      models = ground (arith, done);
      places = ground (arith, done);
      all = ground (arith, held, done, append-nil h.ring, append-nil (h.ring ++ x ∷ []));
      full = ground (arith, done);
    },
  )
    where
      done :
          ((push_back r x).0 ≡ ok tt)
          × Models (push_back r x).1 (h.ring ++ x ∷ [])
          × (length (push_back r x).1.buf ≡ length r.buf)
      done = push_back-ok r h.ring x h.models ne

      held : length q ≡ length h.ring + 0
      held = Holds-length-split r none n q h

  -- A push returns what the bounded FIFO returns, and leaves the queue holding its tasks: in a
  -- primary place, in the deferred one, or not at all with the task handed back.
  pub push_refines :
      (t : TaskQueue A) (n : ℕ) (q : List A) (x : A)
      → Holds t n q
      → ((push t x).0 ≡ (fifo_push n q x).0) × Holds (push t x).1 n (fifo_push n q x).1
  push_refines t n q x h = elim (ℕ_discrete t.primary.len (length t.primary.buf)) [
    | yes e ↦ push-full t.primary t.deferred n q x h e
    | no ne ↦ push-room t.primary t.deferred n q x h ne
  ]

  pop-empty :
      (r : TaskRing A) (n : ℕ)
      → Models r []
      → length r.buf ≡ n
      → let t : TaskQueue A = record { primary = r; deferred = none } in
        ((pop t).0 ≡ none) × Holds (pop t).1 n []
  unfolding pop
  pop-empty r n m e =
      let done : pop_front r ≡ (none, r) = pop_front-empty r m in
      (
        ground (arith, done),
        record {
          ring = [];
          models = ground (arith, done);
          places = ground (arith, done);
          all = ground (arith, done);
          full = ground (arith, done);
        },
      )

  pop-cons-none :
      (r : TaskRing A) (n : ℕ) (x : A) (p : List A)
      → Models r (x ∷ p)
      → length r.buf ≡ n
      → let t : TaskQueue A = record { primary = r; deferred = none } in
        ((pop t).0 ≡ some x) × Holds (pop t).1 n p
  unfolding pop refill_from_deferred ring_is_full
  pop-cons-none r n x p m e = (
    ground (arith, pop_front-cons r x p m),
    record {
      ring = p;
      models = ground (arith, pop_front-cons r x p m);
      places = ground (arith, pop_front-cons r x p m);
      all = ground (arith, pop_front-cons r x p m, append-nil p);
      full = ground (arith, pop_front-cons r x p m);
    },
  )

  pop-cons-some :
      (r : TaskRing A) (y : A) (n : ℕ) (x : A) (p : List A)
      → Models r (x ∷ p)
      → length r.buf ≡ n
      → length (x ∷ p) ≡ n
      → let t : TaskQueue A = record { primary = r; deferred = some y } in
        ((pop t).0 ≡ some x) × Holds (pop t).1 n (p ++ y ∷ [])
  unfolding pop refill_from_deferred ring_is_full
  pop-cons-some r y n x p m e l = (
    ground (arith, popped, moved),
    record {
      ring = p ++ y ∷ [];
      models = ground (arith, popped, moved);
      places = ground (arith, popped, moved);
      all = ground (arith, popped, moved, append-nil (p ++ y ∷ []));
      full = ground (arith, popped, moved);
    },
  )
    where
      r' : TaskRing A
      r' = (pop_front r).1

      popped :
          ((pop_front r).0 ≡ some x)
          × Models r' p
          × (length r'.buf ≡ length r.buf)
          × (r'.len + 1 ≡ r.len)
      popped = pop_front-cons r x p m

      moved :
          ((push_back r' y).0 ≡ ok tt)
          × Models (push_back r' y).1 (p ++ y ∷ [])
          × (length (push_back r' y).1.buf ≡ length r'.buf)
      moved = push_back-ok r' p y popped.1 (omega (arith, popped.3, popped.2, m.counted, m.len_in))

  -- A pop returns the oldest task, whether it stands in the ring or was deferred, and leaves the
  -- queue holding the others; of an empty queue it returns `none`.
  pub pop_refines :
      (t : TaskQueue A) (n : ℕ) (q : List A)
      → Holds t n q
      → ((pop t).0 ≡ (fifo_pop q).0) × Holds (pop t).1 n (fifo_pop q).1
  pop_refines t n q h = go t.primary t.deferred h.ring h.models h.places h.all h.full
    where
      go :
          (r : TaskRing A) (d : Option A) (p : List A)
          → Models r p
          → length r.buf ≡ n
          → q ≡ p ++ to_list d
          → (is_some d ≡ true → length p ≡ n)
          → let t : TaskQueue A = record { primary = r; deferred = d } in
            ((pop t).0 ≡ (fifo_pop q).0) × Holds (pop t).1 n (fifo_pop q).1
      go r none [] m e a f = rw a (pop-empty r n m e)
      go r (some y) [] m e a f = absurd (omega (arith, f refl, m.room))
      go r none (x ∷ p) m e a f = rw (a, append-nil) (pop-cons-none r n x p m e)
      go r (some y) (x ∷ p) m e a f = rw a (pop-cons-some r y n x p m e (f refl))
