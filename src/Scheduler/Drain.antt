-- ===== src/Scheduler/Drain.antt =====
-- `drain_queued_tasks` of src/main.rs against the lists of tasks in the lanes and the tasks that the
-- ring buffer hands over.
use scx_cognis.Base.{
  ℕ, zero, suc, ◌+◌, ◌≤◌, ◌≡◌, refl, sym, ap, ◌∙◌, Option, none, some, List, [], ◌∷◌, ◌++◌, map,
  append_assoc, append-nil, map-append, ap₂, true, false, ◌⊎◌, arith, length, length-append,
  Bool-cases, inl, inr, Result, ok, err,
}
use scx_cognis.Bpf.{
  BpfScheduler, Consumed, nothing, sample, undelivered, failed, surplus, next_of, dequeued,
  on_queued, dequeue_task,
}
use scx_cognis.Bpf.Decode.{QueuedTask, decode_queued_task}
use scx_cognis.Floats.{Floats}
use scx_cognis.Lifetime.Flags.{update-Unflagged}
use scx_cognis.Scheduler.Derive.{derive_task_policy, policy_of, remember}
use scx_cognis.Scheduler.Dispatch.{Outputs, idle, then_Outputs, push_task-Outputs}
use scx_cognis.Scheduler.Hold.{
  TaskLists, put, in_order, length-in_order, LanesHold, SameLanes, same-LanesHold,
  push_task-LanesHold, no_deferred-LanesHold,
}
use scx_cognis.Scheduler.Lanes.{
  lane, set_lane, on_pushed, Lane, push_task, rt_lane, boosted_lane, fair_lane, lane_of,
  has_deferred_tasks,
}
use scx_cognis.Scheduler.Pipeline.{track, task_of, accept_task, drain_queued_tasks}
use scx_cognis.Scheduler.Types.{Task, Scheduler, queue_depth, now_ns}
use scx_cognis.Scheduler.Batch.{
  batch, arrive, without_vtime, cons_task, result_task, arrive-append, dequeue_task-batch,
}
use scx_cognis.TaskQueue.{TaskQueue, QueuePush, primary_slot, deferred_slot, push}

-- Each lane has grown at its end.
abbrev pub Grown : TaskLists → TaskLists → Type 0
Grown l l' = (k : Lane) → (new : List Task) × (l' k ≡ l k ++ new)

Grown-put : (l : TaskLists) (k : Lane) (t : Task) → Grown l (put l k (l k ++ t ∷ []))
Grown-put l rt_lane t = elim [
  | rt_lane ↦ (t ∷ [], refl)
  | boosted_lane ↦ ([], sym (append-nil _))
  | fair_lane ↦ ([], sym (append-nil _))
]
Grown-put l boosted_lane t = elim [
  | rt_lane ↦ ([], sym (append-nil _))
  | boosted_lane ↦ (t ∷ [], refl)
  | fair_lane ↦ ([], sym (append-nil _))
]
Grown-put l fair_lane t = elim [
  | rt_lane ↦ ([], sym (append-nil _))
  | boosted_lane ↦ ([], sym (append-nil _))
  | fair_lane ↦ (t ∷ [], refl)
]

Grown-trans : (l m n : TaskLists) → Grown l m → Grown m n → Grown l n
Grown-trans l m n g h k = (
  (g k).0 ++ (h k).0,
  (h k).1 ∙ (ap (λ x. x ++ (h k).0) (g k).1 ∙ append_assoc (l k) (g k).0 (h k).0),
)

put-length :
    (l : TaskLists) (k : Lane) (t : Task)
    → length (in_order (put l k (l k ++ t ∷ []))) ≡ length (in_order l) + 1
put-length l rt_lane t = omega (
  arith,
  length-in_order l,
  length-in_order (put l rt_lane (l rt_lane ++ t ∷ [])),
  length-append (l rt_lane) (t ∷ []),
)
put-length l boosted_lane t = omega (
  arith,
  length-in_order l,
  length-in_order (put l boosted_lane (l boosted_lane ++ t ∷ [])),
  length-append (l boosted_lane) (t ∷ []),
)
put-length l fair_lane t = omega (
  arith,
  length-in_order l,
  length-in_order (put l fair_lane (l fair_lane ++ t ∷ [])),
  length-append (l fair_lane) (t ∷ []),
)

decoded-quiet :
    (b : BpfScheduler) (r : Result QueuedTask ℕ)
    → ((dequeued b r).1.dispatched ≡ b.dispatched) × ((dequeued b r).1.refusals ≡ b.refusals)
decoded-quiet b (ok task) = (refl, refl)
decoded-quiet b (err e) = (refl, refl)

on_queued-quiet :
    (b : BpfScheduler) (c : Consumed)
    → ((on_queued b c).1.dispatched ≡ b.dispatched) × ((on_queued b c).1.refusals ≡ b.refusals)
on_queued-quiet b nothing = (refl, refl)
on_queued-quiet b (sample bytes) = decoded-quiet b (decode_queued_task bytes)
on_queued-quiet b undelivered = (refl, refl)
on_queued-quiet b (failed e) = (refl, refl)
on_queued-quiet b (surplus n) = (refl, refl)

dequeue_task-quiet :
    (b : BpfScheduler)
    → ((dequeue_task b).1.dispatched ≡ b.dispatched) × ((dequeue_task b).1.refusals ≡ b.refusals)
unfolding dequeue_task
dequeue_task-quiet b =
    let (c, rest) = next_of b.queued in on_queued-quiet (record b { queued = rest }) c

module _ {F32 F64 : Type 0} (fp : Floats F32 F64) (clock : ℕ → ℕ) where
  -- What a batch of at most `n` tasks does to the lanes.
  pub record Drained (s u : Scheduler F32) (l : TaskLists) (n : ℕ) (taken : List QueuedTask)
      : Type 0 where
    pub lists : TaskLists
    pub holds : LanesHold u lists
    pub grown : Grown l lists
    pub arrived : List Task
    pub placed : lists ≡ arrive l arrived
    pub of_taken : map (λ t. without_vtime t.qtask) arrived ≡ map without_vtime taken
    pub few : length (in_order lists) ≤ length (in_order l) + n
    pub out : Outputs s u []

  unchanged :
      (s u : Scheduler F32) (l : TaskLists) (n : ℕ)
      → LanesHold u l
      → Outputs s u []
      → Drained s u l n []
  unchanged s u l n h o = record {
    out = o;
    lists = l;
    holds = h;
    grown = λ k. ([], sym (append-nil _));
    arrived = [];
    placed = refl;
    of_taken = refl;
    few = omega arith;
  }

  idle_self : (s : Scheduler F32) → Outputs s s []
  idle_self s =
      idle s s refl refl refl
        (record { trust_same = refl; controller_same = refl; unflagged = λ h. h })

  on_pushed-queued :
      (u : Scheduler F32) (r : Result QueuePush Task) → (on_pushed u r).bpf.queued ≡ u.bpf.queued
  on_pushed-queued u (ok primary_slot) = refl
  on_pushed-queued u (ok deferred_slot) = refl
  on_pushed-queued u (err t) = refl

  set_lane-queued :
      (s : Scheduler F32) (k : Lane) (q : TaskQueue Task)
      → (set_lane s k q).bpf.queued ≡ s.bpf.queued
  set_lane-queued s rt_lane q = refl
  set_lane-queued s boosted_lane q = refl
  set_lane-queued s fair_lane q = refl

  push_task-queued : (s : Scheduler F32) (t : Task) → (push_task s t).bpf.queued ≡ s.bpf.queued
  unfolding push_task
  push_task-queued s t =
      let (r, q) = push (lane s (lane_of t)) t in
      on_pushed-queued (set_lane s (lane_of t) q) r ∙ set_lane-queued s (lane_of t) q

  accept_task-queued :
      (s : Scheduler F32) (task : QueuedTask)
      → (accept_task fp clock s task).bpf.queued ≡ s.bpf.queued
  unfolding accept_task derive_task_policy remember now_ns
  accept_task-queued s task = push_task-queued _ _

  pushed-Drained :
      (s u : Scheduler F32) (l : TaskLists) (t : Task) (task : QueuedTask)
      → without_vtime t.qtask ≡ without_vtime task
      → SameLanes s u
      → Outputs s u []
      → LanesHold s l
      → ((k : Lane) → length (l k) ≤ queue_depth)
      → Drained s (push_task u t) l 1 (task ∷ [])
  pushed-Drained s u l t task e same o h room = record {
    out = then_Outputs s u (push_task u t) [] [] o (push_task-Outputs u t);
    lists = put l (lane_of t) (l (lane_of t) ++ t ∷ []);
    holds = push_task-LanesHold u l t (same-LanesHold s u l same h) (room (lane_of t));
    grown = Grown-put l (lane_of t) t;
    arrived = t ∷ [];
    placed = refl;
    of_taken = ap (λ x. x ∷ []) e;
    few = omega (arith, put-length l (lane_of t) t);
  }

  accept_task-Drained :
      (s : Scheduler F32) (l : TaskLists) (task : QueuedTask)
      → LanesHold s l
      → ((k : Lane) → length (l k) ≤ queue_depth)
      → Drained s (accept_task fp clock s task) l 1 (task ∷ [])
  unfolding accept_task derive_task_policy policy_of task_of remember now_ns track
  accept_task-Drained s l task h room =
      pushed-Drained s _ l _ task refl
        (elim [ rt_lane ↦ refl | boosted_lane ↦ refl | fair_lane ↦ refl ])
        (idle s _ refl refl refl (record {
          trust_same = refl;
          controller_same = refl;
          unflagged = λ x. update-Unflagged s.lifetimes _ _ x (λ e. refl);
        }))
        h room

  one_more :
      (l : TaskLists) (n : ℕ) (s t u v : Scheduler F32) (a b : List QueuedTask)
      → Outputs s t []
      → (d : Drained t u l 1 a) → Drained u v d.lists n b
      → Drained s v l (suc n) (a ++ b)
  one_more l n s t u v a b o d e = record {
    out = then_Outputs s t v [] [] o (then_Outputs t u v [] [] d.out e.out);
    lists = e.lists;
    holds = e.holds;
    grown = Grown-trans l d.lists e.lists d.grown e.grown;
    arrived = d.arrived ++ e.arrived;
    placed =
        e.placed
        ∙ ap (λ m. arrive m e.arrived) d.placed
        ∙ sym (arrive-append l d.arrived e.arrived);
    of_taken =
        map-append (λ t. without_vtime t.qtask) d.arrived e.arrived
        ∙ ap₂ (λ a b. a ++ b) d.of_taken e.of_taken
        ∙ sym (map-append without_vtime a b);
    few = omega (arith, d.few, e.few);
  }

  -- The same, with what the ring buffer was to hand over.
  pub record Batched (s u : Scheduler F32) (l : TaskLists) (n : ℕ) : Type 0 where
    pub taken : List QueuedTask
    pub drained : Drained s u l n taken
    pub untaken : List QueuedTask
    pub split : batch n s.bpf.queued ≡ taken ++ untaken
    pub stops : (untaken ≡ []) ⊎ (has_deferred_tasks u ≡ true)
    pub guarded : has_deferred_tasks s ≡ true → taken ≡ []

  after_dequeue :
      (n : ℕ) (s t : Scheduler F32) (l : TaskLists) (r : Result (Option QueuedTask) ℕ)
      → has_deferred_tasks s ≡ false
      → batch (suc n) s.bpf.queued ≡ cons_task (result_task r) (batch n t.bpf.queued)
      → Outputs s t []
      → LanesHold t l
      → ((k : Lane) → length (l k) ≤ queue_depth)
      → ((u : Scheduler F32) (m : TaskLists)
          → LanesHold u m
          → Batched u (drain_queued_tasks fp clock n u) m n)
      → Batched s
          (elim r as (λ x. Scheduler F32) [
            | ok (some task) ↦ drain_queued_tasks fp clock n (accept_task fp clock t task)
            | ok none ↦ t
            | err e ↦ t
          ])
          l
          (suc n)
  after_dequeue n s t l (ok (some task)) free e o h room ih =
      let d = accept_task-Drained t l task h room in
      let b = ih _ d.lists d.holds in
      record {
        taken = task ∷ b.taken;
        drained = one_more l n s t _ _ (task ∷ []) b.taken o d b.drained;
        untaken = b.untaken;
        split =
            e
            ∙ ap (λ q. task ∷ batch n q) (sym (accept_task-queued t task))
            ∙ ap (λ x. task ∷ x) b.split;
        stops = b.stops;
        guarded = λ x. absurd (ground arith);
      }
  after_dequeue n s t l (ok none) free e o h room ih = record {
    taken = [];
    drained = unchanged s t l (suc n) h o;
    untaken = [];
    split = e;
    stops = inl refl;
    guarded = λ x. refl;
  }
  after_dequeue n s t l (err x) free e o h room ih = record {
    taken = [];
    drained = unchanged s t l (suc n) h o;
    untaken = [];
    split = e;
    stops = inl refl;
    guarded = λ x. refl;
  }

  pub drain_queued_tasks-Batched :
      (n : ℕ) (s : Scheduler F32) (l : TaskLists)
      → LanesHold s l
      → Batched s (drain_queued_tasks fp clock n s) l n
  unfolding drain_queued_tasks batch
  drain_queued_tasks-Batched zero s l h = record {
    taken = [];
    drained = unchanged s s l zero h (idle_self s);
    untaken = [];
    split = refl;
    stops = inl refl;
    guarded = λ x. refl;
  }
  drain_queued_tasks-Batched (suc n) s l h =
      let (taken, refused) = dequeue_task-quiet s.bpf in
      elim (Bool-cases (has_deferred_tasks s)) [
        | inl e ↦
            rw (drain_queued_tasks, e)
              (record {
                taken = [];
                drained = unchanged s s l (suc n) h (idle_self s);
                untaken = batch (suc n) s.bpf.queued;
                split = refl;
                stops = inr e;
                guarded = λ x. refl;
              })
        | inr e ↦
            rw (drain_queued_tasks, e)
              (after_dequeue n s (record s { bpf = (dequeue_task s.bpf).1 }) l
                (dequeue_task s.bpf).0 e (dequeue_task-batch n s.bpf)
                (idle s _ taken refused refl
                  (record { trust_same = refl; controller_same = refl; unflagged = λ h. h }))
                (same-LanesHold s _ l
                  (elim [ rt_lane ↦ refl | boosted_lane ↦ refl | fair_lane ↦ refl ]) h)
                (no_deferred-LanesHold s l h e) (drain_queued_tasks-Batched n))
      ]
