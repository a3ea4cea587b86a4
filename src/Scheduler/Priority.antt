-- ===== src/Scheduler/Priority.antt =====
-- `pop_highest_priority_task` of src/main.rs takes the lanes in strict order.
use mathlib.Core.List.{Perm, perm_middle, perm_append_singleton}
use scx_cognis.Base.{
  ℕ, ◌+◌, ◌≤◌, ◌≡◌, refl, ap, ◌∙◌, Option, none, some, List, [], ◌∷◌, ◌++◌, append_assoc, arith,
  length, All, Bool-cases, inl, inr,
}
use scx_cognis.Scheduler.Features.{queue_is_starved}
use scx_cognis.Scheduler.Hold.{
  TaskLists, put, in_order, LanesHold, same-LanesHold, Frame, pop_lane-cons, pop_lane-nil,
  lane-length,
}
use scx_cognis.Scheduler.Lanes.{
  Lane, rt_lane, boosted_lane, fair_lane, lane_of, pop_lane, front_preempts, pop_rest, pop_boosted,
  after_rt, pop_highest_priority_task,
}
use scx_cognis.Scheduler.Types.{Task, Scheduler, queue_depth, now_ns}
use scx_cognis.TaskQueue.{front}
use scx_cognis.TaskQueue.Fifo.{fifo_front}
use scx_cognis.TaskQueue.Queries.{front_refines}

append-middle :
    (ts : List Task) (t : Task) (r : List Task) → Perm ((ts ++ t ∷ []) ++ r) (t ∷ (ts ++ r))
append-middle ts t r = rw (append_assoc ts (t ∷ []) r) (perm_middle ts r)

module _ {F32 : Type 0} where
  pop_rest-some :
      (p : Option Task × Scheduler F32) (t : Task) → p.0 ≡ some t → pop_rest p ≡ (some t, p.1)
  pop_rest-some (some t', s) t e = ground arith
  pop_rest-some (none, s) t e = cc

  pop_rest-none :
      (p : Option Task × Scheduler F32) → p.0 ≡ none → pop_rest p ≡ pop_lane p.1 fair_lane
  pop_rest-none (some t', s) e = cc
  pop_rest-none (none, s) e = refl

  -- The tests on the front of the boosted lane make no difference: each branch pops that lane.
  pop_boosted-some :
      (s : Scheduler F32) (now : ℕ) (t : Task)
      → (pop_lane s boosted_lane).0 ≡ some t
      → pop_boosted s now ≡ (some t, (pop_lane s boosted_lane).1)
  pop_boosted-some s now t e =
      elim (Bool-cases (front_preempts (front s.boosted_interactive_queue) now)) [
        | inl a ↦ rw a (ground (arith, e))
        | inr a ↦
            rw a
              (elim (Bool-cases
                (queue_is_starved (front s.boosted_interactive_queue) now 12_000_000)) [
                  | inl b ↦ rw b (ground (arith, e))
                  | inr b ↦ rw b (pop_rest-some (pop_lane s boosted_lane) t e)
                ])
      ]

  pop_boosted-none :
      (s : Scheduler F32) (now : ℕ)
      → front s.boosted_interactive_queue ≡ none
      → (pop_lane s boosted_lane).0 ≡ none
      → pop_boosted s now ≡ pop_lane (pop_lane s boosted_lane).1 fair_lane
  unfolding queue_is_starved
  pop_boosted-none s now f e = rw f (pop_rest-none (pop_lane s boosted_lane) e)

  module _ (clock : ℕ → ℕ) where
    after_rt-some :
        (p : Option Task × Scheduler F32) (t : Task)
        → p.0 ≡ some t
        → after_rt clock p ≡ (some t, p.1)
    after_rt-some (some t', s) t e = ground arith
    after_rt-some (none, s) t e = cc

    after_rt-none :
        (p : Option Task × Scheduler F32)
        → p.0 ≡ none
        → after_rt clock p ≡ pop_boosted (now_ns clock p.1).1 (now_ns clock p.1).0
    after_rt-none (some t', s) e = cc
    after_rt-none (none, s) e = refl

    -- What a pop of the task `t` does: the lists after it, in which the lane of `t` has room.
    pub record Popped (s : Scheduler F32) (l : TaskLists) (t : Task) (rest : List Task)
        : Type 0 where
      pub after : TaskLists
      pub result : (pop_highest_priority_task clock s).0 ≡ some t
      pub holds : LanesHold (pop_highest_priority_task clock s).1 after
      pub frame : Frame s (pop_highest_priority_task clock s).1
      pub order : in_order after ≡ rest
      pub room : length (after (lane_of t)) ≤ queue_depth
      pub back : Perm (in_order (put after (lane_of t) (after (lane_of t) ++ t ∷ []))) (t ∷ rest)

    clock-LanesHold :
        (s : Scheduler F32) (l : TaskLists) → LanesHold s l → LanesHold (now_ns clock s).1 l
    unfolding now_ns
    clock-LanesHold s l h =
        same-LanesHold s _ l (elim [ rt_lane ↦ refl | boosted_lane ↦ refl | fair_lane ↦ refl ]) h

    owner :
        (s : Scheduler F32) (l : TaskLists) (k : Lane) (t : Task) (ts : List Task)
        → LanesHold s l
        → l k ≡ t ∷ ts
        → lane_of t ≡ k
    owner s l k t ts h e =
        let owned : All (λ x. lane_of x ≡ k) (t ∷ ts) = rw e at (h.own k) in owned.0

    tail-room :
        (s : Scheduler F32) (l : TaskLists) (k : Lane) (t : Task) (ts : List Task)
        → LanesHold s l
        → l k ≡ t ∷ ts
        → length ts ≤ queue_depth
    tail-room s l k t ts h e =
        let bound : length (t ∷ ts) ≤ queue_depth + 1 = rw e at (lane-length s l h k) in
        omega (arith, bound)

    rt-Popped :
        (s : Scheduler F32) (l : TaskLists) (t : Task) (ts : List Task)
        → LanesHold s l
        → l rt_lane ≡ t ∷ ts
        → Popped s l t (ts ++ (l boosted_lane ++ l fair_lane))
    unfolding pop_highest_priority_task
    rt-Popped s l t ts h e =
        let (got, held, framed) = pop_lane-cons s l rt_lane t ts h e in
        let own = owner s l rt_lane t ts h e in
        let step = after_rt-some (pop_lane s rt_lane) t got in
        record {
          after = put l rt_lane ts;
          result = ap (λ p. p.0) step;
          holds = rw step held;
          frame = rw step framed;
          order = refl;
          room = rw own (tail-room s l rt_lane t ts h e);
          back = rw own (append-middle ts t (l boosted_lane ++ l fair_lane));
        }

    boosted-Popped :
        (s : Scheduler F32) (l : TaskLists) (t : Task) (ts : List Task)
        → LanesHold s l
        → l rt_lane ≡ []
        → l boosted_lane ≡ t ∷ ts
        → Popped s l t (ts ++ l fair_lane)
    unfolding pop_highest_priority_task now_ns
    boosted-Popped s l t ts h e₁ e =
        let (none_rt, held₁, framed₁) = pop_lane-nil s l rt_lane h e₁ in
        let u = (now_ns clock (pop_lane s rt_lane).1).1 in
        let held₂ = clock-LanesHold (pop_lane s rt_lane).1 l held₁ in
        let (got, held, framed) = pop_lane-cons u l boosted_lane t ts held₂ e in
        let own = owner s l boosted_lane t ts h e in
        let step =
          after_rt-none (pop_lane s rt_lane) none_rt
          ∙ pop_boosted-some u (now_ns clock (pop_lane s rt_lane).1).0 t got in
        record {
          after = put l boosted_lane ts;
          result = ap (λ p. p.0) step;
          holds = rw step held;
          frame = rw step (record {
            bpf_same = framed.bpf_same ∙ framed₁.bpf_same;
            local_same = framed.local_same ∙ framed₁.local_same;
            steady = record {
              trust_same = framed.steady.trust_same ∙ framed₁.steady.trust_same;
              controller_same = framed.steady.controller_same ∙ framed₁.steady.controller_same;
              unflagged = λ x. framed.steady.unflagged (framed₁.steady.unflagged x);
            };
          });
          order = rw e₁ refl;
          room = rw own (tail-room s l boosted_lane t ts h e);
          back = rw (own, e₁) (append-middle ts t (l fair_lane));
        }

    fair-Popped :
        (s : Scheduler F32) (l : TaskLists) (t : Task) (ts : List Task)
        → LanesHold s l
        → l rt_lane ≡ []
        → l boosted_lane ≡ []
        → l fair_lane ≡ t ∷ ts
        → Popped s l t ts
    unfolding pop_highest_priority_task now_ns
    fair-Popped s l t ts h e₁ e₂ e =
        let (none_rt, held₁, framed₁) = pop_lane-nil s l rt_lane h e₁ in
        let u = (now_ns clock (pop_lane s rt_lane).1).1 in
        let held₂ = clock-LanesHold (pop_lane s rt_lane).1 l held₁ in
        let (none_boosted, held₃, framed₃) = pop_lane-nil u l boosted_lane held₂ e₂ in
        let top = front_refines _ _ _ (held₂.holds boosted_lane) ∙ ap fifo_front e₂ in
        let (got, held, framed) =
          pop_lane-cons (pop_lane u boosted_lane).1 l fair_lane t ts held₃ e in
        let own = owner s l fair_lane t ts h e in
        let step =
          after_rt-none (pop_lane s rt_lane) none_rt
          ∙ pop_boosted-none u (now_ns clock (pop_lane s rt_lane).1).0 top none_boosted in
        record {
          after = put l fair_lane ts;
          result = ap (λ p. p.0) step ∙ got;
          holds = rw step held;
          frame = rw step (record {
            bpf_same = framed.bpf_same ∙ (framed₃.bpf_same ∙ framed₁.bpf_same);
            local_same = framed.local_same ∙ (framed₃.local_same ∙ framed₁.local_same);
            steady = record {
              trust_same =
                  framed.steady.trust_same
                  ∙ (framed₃.steady.trust_same ∙ framed₁.steady.trust_same);
              controller_same =
                  framed.steady.controller_same
                  ∙ (framed₃.steady.controller_same ∙ framed₁.steady.controller_same);
              unflagged = λ x.
                  framed.steady.unflagged (framed₃.steady.unflagged (framed₁.steady.unflagged x));
            };
          });
          order = rw (e₁, e₂) refl;
          room = rw own (tail-room s l fair_lane t ts h e);
          back = rw (own, e₁, e₂) (perm_append_singleton t ts);
        }

    by-lanes :
        (s : Scheduler F32) (l : TaskLists) (t : Task) (rest r b f : List Task)
        → LanesHold s l
        → l rt_lane ≡ r
        → l boosted_lane ≡ b
        → l fair_lane ≡ f
        → r ++ (b ++ f) ≡ t ∷ rest
        → Popped s l t rest
    by-lanes s l t rest (x ∷ r) b f h e₁ e₂ e₃ e =
        let ex : x ≡ t = cc in
        let er : r ++ (l boosted_lane ++ l fair_lane) ≡ rest = rw (e₂, e₃) cc in
        rw (← er) (rt-Popped s l t r h (e₁ ∙ ap (λ y. y ∷ r) ex))
    by-lanes s l t rest [] (x ∷ b) f h e₁ e₂ e₃ e =
        let ex : x ≡ t = cc in
        let er : b ++ l fair_lane ≡ rest = rw e₃ cc in
        rw (← er) (boosted-Popped s l t b h e₁ (e₂ ∙ ap (λ y. y ∷ b) ex))
    by-lanes s l t rest [] [] f h e₁ e₂ e₃ e = fair-Popped s l t rest h e₁ e₂ (e₃ ∙ e)

    -- Where the lanes hold a task, the one that is popped is the first of the realtime lane,
    -- else of the boosted lane, else of the fair one, whatever the clock and the tests on age
    -- and credit say; the lanes keep the others in order, and a push puts the task back.
    pub pop_strict :
        (s : Scheduler F32) (l : TaskLists) (t : Task) (rest : List Task)
        → LanesHold s l
        → in_order l ≡ t ∷ rest
        → Popped s l t rest
    pop_strict s l t rest h e = by-lanes s l t rest _ _ _ h refl refl refl e
