-- ===== src/Scheduler/Hold.antt =====
-- Which tasks the lanes of src/main.rs hold: `push_task`, the pops and the counts against lists.
use scx_cognis.Base.{
  ℕ, ◌+◌, ◌≤◌, ◌≡◌, refl, sym, ap, ◌∙◌, Bool, true, false, ◌&&◌, none, some, List, [], ◌∷◌, ◌++◌,
  arith, ltb, ◌==◌, if◌then◌else◌, length, length-append, All, All-append, ok,
}
use scx_cognis.Lifetime.Flags.{Unflagged}
use scx_cognis.Scheduler.Lanes.{
  Lane, rt_lane, boosted_lane, fair_lane, lane_of, lane, set_lane, congest, on_pushed, push_task,
  has_deferred_tasks, tasks_empty, tasks_len, pop_lane,
}
use scx_cognis.Scheduler.Types.{Task, Scheduler, queue_depth}
use scx_cognis.TaskQueue.{TaskQueue, primary_slot, deferred_slot, push, pop}
use scx_cognis.TaskQueue.Fifo.{fifo_push, fifo_pop}
use scx_cognis.TaskQueue.Refine.{Holds, Holds-length, push_refines, pop_refines}
use scx_cognis.TaskQueue.Queries.{is_empty_refines, queue_len_refines}

abbrev pub TaskLists : Type 0
TaskLists = Lane → List Task

abbrev pub put : TaskLists → Lane → List Task → TaskLists
put l rt_lane q = elim [ rt_lane ↦ q | boosted_lane ↦ l boosted_lane | fair_lane ↦ l fair_lane ]
put l boosted_lane q = elim [ rt_lane ↦ l rt_lane | boosted_lane ↦ q | fair_lane ↦ l fair_lane ]
put l fair_lane q = elim [ rt_lane ↦ l rt_lane | boosted_lane ↦ l boosted_lane | fair_lane ↦ q ]

-- The tasks of all lanes, in the order of priority.
abbrev pub in_order : TaskLists → List Task
in_order l = l rt_lane ++ (l boosted_lane ++ l fair_lane)

fifo_push-room :
    (q : List Task) (x : Task)
    → length q ≤ queue_depth
    → ((fifo_push queue_depth q x).1 ≡ q ++ x ∷ [])
      × ((fifo_push queue_depth q x).0
          ≡ ok (if ltb (length q) queue_depth then primary_slot else deferred_slot))
fifo_push-room q x h = ground arith

put_self : (l : TaskLists) (k : Lane) (xs : List Task) → l k ≡ xs → (j : Lane) → put l k xs j ≡ l j
put_self l rt_lane xs e rt_lane = sym e
put_self l rt_lane xs e boosted_lane = refl
put_self l rt_lane xs e fair_lane = refl
put_self l boosted_lane xs e rt_lane = refl
put_self l boosted_lane xs e boosted_lane = sym e
put_self l boosted_lane xs e fair_lane = refl
put_self l fair_lane xs e rt_lane = refl
put_self l fair_lane xs e boosted_lane = refl
put_self l fair_lane xs e fair_lane = sym e

zero-and : (a b c : ℕ) → (b == 0 && (a == 0 && c == 0)) ≡ (a + (b + c) == 0)
zero-and a b c = ground arith

pub length-in_order :
    (l : TaskLists)
    → length (in_order l) ≡ length (l rt_lane) + (length (l boosted_lane) + length (l fair_lane))
length-in_order l = omega (
  arith,
  length-append (l rt_lane) (l boosted_lane ++ l fair_lane),
  length-append (l boosted_lane) (l fair_lane),
)

module _ {F32 : Type 0} where
  -- The lanes hold the lists, and each task stands in the lane that `push_task` chooses for it.
  pub record LanesHold (s : Scheduler F32) (l : TaskLists) : Type 0 where
    pub holds : (k : Lane) → Holds (lane s k) queue_depth (l k)
    pub own : (k : Lane) → All (λ t. lane_of t ≡ k) (l k)

  pub set-LanesHold :
      (s : Scheduler F32) (l : TaskLists) (k : Lane) (q : TaskQueue Task) (xs : List Task)
      → LanesHold s l
      → Holds q queue_depth xs
      → All (λ t. lane_of t ≡ k) xs
      → LanesHold (set_lane s k q) (put l k xs)
  set-LanesHold s l rt_lane q xs h hq o = record {
    holds = elim [
      | rt_lane ↦ hq
      | boosted_lane ↦ h.holds boosted_lane
      | fair_lane ↦ h.holds fair_lane
    ];
    own = elim [ rt_lane ↦ o | boosted_lane ↦ h.own boosted_lane | fair_lane ↦ h.own fair_lane ];
  }
  set-LanesHold s l boosted_lane q xs h hq o = record {
    holds = elim [ rt_lane ↦ h.holds rt_lane | boosted_lane ↦ hq | fair_lane ↦ h.holds fair_lane ];
    own = elim [ rt_lane ↦ h.own rt_lane | boosted_lane ↦ o | fair_lane ↦ h.own fair_lane ];
  }
  set-LanesHold s l fair_lane q xs h hq o = record {
    holds = elim [
      | rt_lane ↦ h.holds rt_lane
      | boosted_lane ↦ h.holds boosted_lane
      | fair_lane ↦ hq
    ];
    own = elim [ rt_lane ↦ h.own rt_lane | boosted_lane ↦ h.own boosted_lane | fair_lane ↦ o ];
  }

  -- Only the lanes matter.
  abbrev pub SameLanes : Scheduler F32 → Scheduler F32 → Type 0
  SameLanes s u = (k : Lane) → lane u k ≡ lane s k

  pub same-LanesHold :
      (s u : Scheduler F32) (l : TaskLists) → SameLanes s u → LanesHold s l → LanesHold u l
  same-LanesHold s u l e h = record { holds = λ k. rw (e k) (h.holds k); own = h.own }

  lane-congest : (s : Scheduler F32) → SameLanes s (congest s)
  lane-congest s rt_lane = refl
  lane-congest s boosted_lane = refl
  lane-congest s fair_lane = refl

  pushed-LanesHold :
      (s : Scheduler F32) (l : TaskLists) (b : Bool)
      → LanesHold s l
      → LanesHold (on_pushed s (ok (if b then primary_slot else deferred_slot))) l
  pushed-LanesHold s l true h = h
  pushed-LanesHold s l false h = same-LanesHold s (congest s) l (lane-congest s) h

  -- Where the lanes hold the lists `l` and the lane of the task has at most `queue_depth`
  -- tasks, `push_task` puts the task at the end of that lane and leaves the others alone.
  pub push_task-LanesHold :
      (s : Scheduler F32) (l : TaskLists) (task : Task)
      → LanesHold s l
      → length (l (lane_of task)) ≤ queue_depth
      → LanesHold (push_task s task) (put l (lane_of task) (l (lane_of task) ++ task ∷ []))
  unfolding push_task
  push_task-LanesHold s l task h room =
      let k = lane_of task in
      let step = push_refines (lane s k) queue_depth (l k) task (h.holds k) in
      let fits = fifo_push-room (l k) task room in
      rw (step.0, fits.1)
        (pushed-LanesHold _ _ (ltb (length (l k)) queue_depth) (
          set-LanesHold s l k (push (lane s k) task).1 (l k ++ task ∷ []) h (rw (← fits.0) step.1)
            (All-append (λ t. lane_of t ≡ k) (l k) (task ∷ []) (h.own k) (refl, tt))))

  pub lane-length :
      (s : Scheduler F32) (l : TaskLists)
      → LanesHold s l
      → (k : Lane) → length (l k) ≤ queue_depth + 1
  lane-length s l h k = (Holds-length _ _ _ (h.holds k)).0

  -- Where the lanes hold the lists `l`, `tasks_len` is the number of their tasks.
  pub tasks_len-LanesHold :
      (s : Scheduler F32) (l : TaskLists) → LanesHold s l → tasks_len s ≡ length (in_order l)
  unfolding tasks_len
  tasks_len-LanesHold s l h = omega (
    arith,
    length-in_order l,
    queue_len_refines _ _ _ (h.holds rt_lane),
    queue_len_refines _ _ _ (h.holds boosted_lane),
    queue_len_refines _ _ _ (h.holds fair_lane),
    lane-length s l h rt_lane,
    lane-length s l h boosted_lane,
    lane-length s l h fair_lane,
  )

  pub tasks_empty-LanesHold :
      (s : Scheduler F32) (l : TaskLists)
      → LanesHold s l
      → tasks_empty s ≡ (length (in_order l) == 0)
  unfolding tasks_empty
  tasks_empty-LanesHold s l h =
      rw
        (
          is_empty_refines _ _ _ (h.holds rt_lane),
          is_empty_refines _ _ _ (h.holds boosted_lane),
          is_empty_refines _ _ _ (h.holds fair_lane),
          length-in_order l,
        )
        (zero-and (length (l rt_lane)) (length (l boosted_lane)) (length (l fair_lane)))

  -- A lane has a deferred task exactly when it holds more than `queue_depth` tasks.
  pub no_deferred-LanesHold :
      (s : Scheduler F32) (l : TaskLists)
      → LanesHold s l
      → has_deferred_tasks s ≡ false
      → (k : Lane) → length (l k) ≤ queue_depth
  unfolding has_deferred_tasks
  no_deferred-LanesHold s l h e rt_lane = ground (arith, (Holds-length _ _ _ (h.holds rt_lane)).1)
  no_deferred-LanesHold s l h e boosted_lane =
      ground (arith, (Holds-length _ _ _ (h.holds boosted_lane)).1)
  no_deferred-LanesHold s l h e fair_lane =
      ground (arith, (Holds-length _ _ _ (h.holds fair_lane)).1)

  pub ext-LanesHold :
      (s : Scheduler F32) (l l' : TaskLists)
      → ((k : Lane) → l k ≡ l' k)
      → LanesHold s l
      → LanesHold s l'
  ext-LanesHold s l l' e h = record {
    holds = λ k. rw (← e k) (h.holds k);
    own = λ k. rw (← e k) (h.own k);
  }

  -- The trust table and the slice controller are as before, and no lifetime entry is flagged that
  -- was not.
  pub record Steady (s u : Scheduler F32) : Type 0 where
    pub trust_same : u.trust ≡ s.trust
    pub controller_same : u.slice_controller ≡ s.slice_controller
    pub unflagged : Unflagged s.lifetimes → Unflagged u.lifetimes

  -- What a pop or a push does not touch.
  pub record Frame (s u : Scheduler F32) : Type 0 where
    pub bpf_same : u.bpf ≡ s.bpf
    pub local_same : u.percpu_local ≡ s.percpu_local
    pub steady : Steady s u

  pub Frame-set_lane :
      (s : Scheduler F32) (k : Lane) (q : TaskQueue Task) → Frame s (set_lane s k q)
  Frame-set_lane s rt_lane q = record {
    bpf_same = refl;
    local_same = refl;
    steady = record { trust_same = refl; controller_same = refl; unflagged = λ h. h };
  }
  Frame-set_lane s boosted_lane q = record {
    bpf_same = refl;
    local_same = refl;
    steady = record { trust_same = refl; controller_same = refl; unflagged = λ h. h };
  }
  Frame-set_lane s fair_lane q = record {
    bpf_same = refl;
    local_same = refl;
    steady = record { trust_same = refl; controller_same = refl; unflagged = λ h. h };
  }

  pub pop_lane-cons :
      (s : Scheduler F32) (l : TaskLists) (k : Lane) (t : Task) (ts : List Task)
      → LanesHold s l
      → l k ≡ t ∷ ts
      → ((pop_lane s k).0 ≡ some t)
        × LanesHold (pop_lane s k).1 (put l k ts)
        × Frame s (pop_lane s k).1
  unfolding pop_lane
  pop_lane-cons s l k t ts h e =
      let step = pop_refines (lane s k) queue_depth (l k) (h.holds k) in
      let owned : All (λ x. lane_of x ≡ k) (t ∷ ts) = rw e at (h.own k) in
      (
        step.0 ∙ ap (λ q. (fifo_pop q).0) e,
        set-LanesHold s l k (pop (lane s k)).1 ts h (rw e at step.1) owned.1,
        Frame-set_lane s k (pop (lane s k)).1,
      )

  pub pop_lane-nil :
      (s : Scheduler F32) (l : TaskLists) (k : Lane)
      → LanesHold s l
      → l k ≡ []
      → ((pop_lane s k).0 ≡ none) × LanesHold (pop_lane s k).1 l × Frame s (pop_lane s k).1
  unfolding pop_lane
  pop_lane-nil s l k h e =
      let step = pop_refines (lane s k) queue_depth (l k) (h.holds k) in
      (
        step.0 ∙ ap (λ q. (fifo_pop q).0) e,
        ext-LanesHold _ (put l k []) l (put_self l k [] e)
            (set-LanesHold s l k (pop (lane s k)).1 [] h (rw e at step.1) tt),
        Frame-set_lane s k (pop (lane s k)).1,
      )
