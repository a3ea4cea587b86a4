-- ===== src/Scheduler/Dispatch.antt =====
-- What `dispatch_task` and the dispatch dispatch_all-Emptied of `schedule` in src/main.rs send, and what they keep.
use mathlib.Core.List.{Perm, map-append}
use mathlib.Core.List.Perm
use scx_cognis.Base.{
  ℕ, zero, suc, ◌≤◌, ◌≡◌, refl, sym, ap, ◌∙◌, true, false, Option, none, some, List, [], ◌∷◌, ◌++◌,
  map, append_assoc, append-nil, arith, ◌==◌, length, Result, ok, err,
}
use scx_cognis.Bpf.{DispatchedTask}
use scx_cognis.Bpf
use scx_cognis.Floats.{Floats}
use scx_cognis.Scheduler.Hold.{
  TaskLists, put, in_order, LanesHold, SameLanes, same-LanesHold, Steady, Frame, Frame-set_lane,
  push_task-LanesHold, tasks_empty-LanesHold,
}
use scx_cognis.Scheduler.Lanes.{
  rt_lane, boosted_lane, fair_lane, lane_of, lane, set_lane, on_pushed, push_task,
  pop_highest_priority_task, tasks_empty,
}
use scx_cognis.Scheduler.Pipeline.{
  to_dispatched, send_task, send_popped, dispatch_task, dispatch_all,
}
use scx_cognis.Scheduler.Priority.{Popped, pop_strict}
use scx_cognis.Scheduler.Types.{Task, Scheduler}
use scx_cognis.TaskQueue.{QueuePush, primary_slot, deferred_slot, push}

module _ {F32 : Type 0} where
  -- The tasks that were sent are `sent`, and nothing else of the output changed.
  pub record Outputs (s u : Scheduler F32) (sent : List Task) : Type 0 where
    pub appended : u.bpf.dispatched ≡ s.bpf.dispatched ++ map (to_dispatched s.percpu_local) sent
    pub same_local : u.percpu_local ≡ s.percpu_local
    pub taking : s.bpf.refusals ≡ [] → u.bpf.refusals ≡ []
    pub steady : Steady s u

  pub idle :
      (s u : Scheduler F32)
      → u.bpf.dispatched ≡ s.bpf.dispatched
      → u.bpf.refusals ≡ s.bpf.refusals
      → u.percpu_local ≡ s.percpu_local
      → Steady s u
      → Outputs s u []
  idle s u e r h k = record {
    appended = e ∙ sym (append-nil _);
    same_local = h;
    taking = λ x. r ∙ x;
    steady = k;
  }

  pushed-Outputs :
      (s u : Scheduler F32) (r : Result QueuePush Task) → Frame s u → Outputs s (on_pushed u r) []
  pushed-Outputs s u (ok primary_slot) f =
      idle s _ (ap (λ b. b.dispatched) f.bpf_same) (ap (λ b. b.refusals) f.bpf_same) f.local_same
        (record {
          trust_same = f.steady.trust_same;
          controller_same = f.steady.controller_same;
          unflagged = f.steady.unflagged;
        })
  pushed-Outputs s u (ok deferred_slot) f =
      idle s _ (ap (λ b. b.dispatched) f.bpf_same) (ap (λ b. b.refusals) f.bpf_same) f.local_same
        (record {
          trust_same = f.steady.trust_same;
          controller_same = f.steady.controller_same;
          unflagged = f.steady.unflagged;
        })
  pushed-Outputs s u (err x) f =
      idle s _ (ap (λ b. b.dispatched) f.bpf_same) (ap (λ b. b.refusals) f.bpf_same) f.local_same
        (record {
          trust_same = f.steady.trust_same;
          controller_same = f.steady.controller_same;
          unflagged = f.steady.unflagged;
        })

  pub push_task-Outputs : (s : Scheduler F32) (t : Task) → Outputs s (push_task s t) []
  unfolding push_task
  push_task-Outputs s t =
      let k = lane_of t in
      let (r, q) = push (lane s k) t in pushed-Outputs s (set_lane s k q) r (Frame-set_lane s k q)

  pub then_Outputs :
      (s u v : Scheduler F32) (a b : List Task)
      → Outputs s u a
      → Outputs u v b
      → Outputs s v (a ++ b)
  then_Outputs s u v a b o w = record {
    appended =
        rw (w.appended, o.appended, o.same_local, map-append (to_dispatched s.percpu_local) a b)
          (append_assoc s.bpf.dispatched _ _);
    same_local = w.same_local ∙ o.same_local;
    taking = λ e. w.taking (o.taking e);
    steady = record {
      trust_same = w.steady.trust_same ∙ o.steady.trust_same;
      controller_same = w.steady.controller_same ∙ o.steady.controller_same;
      unflagged = λ e. w.steady.unflagged (o.steady.unflagged e);
    };
  }

empty : (q : List Task) → length q ≤ 0 → q ≡ []
empty [] h = refl
empty (t ∷ q) h = ground arith

module _ {F32 F64 : Type 0} (fp : Floats F32 F64) (clock : ℕ → ℕ) where
  -- A task is taken, or it is refused and goes back to its lane.
  data Sending (s : Scheduler F32) (t : Task) : Type 0 where
    taken :
        (u : Scheduler F32)
        → send_task fp clock s t ≡ (true, u)
        → SameLanes s u
        → Outputs s u (t ∷ [])
        → Sending s t
    refused :
        (u : Scheduler F32) (e : ℕ) (r : List (Option ℕ))
        → send_task fp clock s t ≡ (false, push_task u t)
        → SameLanes s u
        → Outputs s u []
        → s.bpf.refusals ≡ some e ∷ r
        → Sending s t

  sending : (s : Scheduler F32) (t : Task) → Sending s t
  unfolding send_task Bpf.dispatch_task
  sending s t = go s.bpf.refusals refl
    where
      go : (r : List (Option ℕ)) → s.bpf.refusals ≡ r → Sending s t
      go [] e =
          taken
            (record s {
              bpf = record s.bpf {
                dispatched = s.bpf.dispatched ++ to_dispatched s.percpu_local t ∷ [];
              };
            })
            (rw e refl) (elim [ rt_lane ↦ refl | boosted_lane ↦ refl | fair_lane ↦ refl ])
            (record {
              appended = refl;
              same_local = refl;
              taking = λ x. x;
              steady = record { trust_same = refl; controller_same = refl; unflagged = λ h. h };
            })
      go (none ∷ r) e =
          taken
            (record s {
              bpf = record s.bpf {
                dispatched = s.bpf.dispatched ++ to_dispatched s.percpu_local t ∷ [];
                refusals = r;
              };
            })
            (rw e refl) (elim [ rt_lane ↦ refl | boosted_lane ↦ refl | fair_lane ↦ refl ])
            (record {
              appended = refl;
              same_local = refl;
              taking = λ x. cc;
              steady = record { trust_same = refl; controller_same = refl; unflagged = λ h. h };
            })
      go (some x ∷ r) e =
          refused (record s { bpf = record s.bpf { refusals = r } }) x r (rw e refl)
            (elim [ rt_lane ↦ refl | boosted_lane ↦ refl | fair_lane ↦ refl ])
            (record {
              appended = sym (append-nil _);
              same_local = refl;
              taking = λ x. cc;
              steady = record { trust_same = refl; controller_same = refl; unflagged = λ h. h };
            })
            e

  -- What a number of rounds of the dispatch_all-Emptied does: the first tasks in the order of priority are sent,
  -- and the lanes keep the others.
  pub record Emptied (s u : Scheduler F32) (q : List Task) (fuel : ℕ) : Type 0 where
    pub sent : List Task
    pub rest : List Task
    pub left : TaskLists
    pub split : q ≡ sent ++ rest
    pub holds : LanesHold u left
    pub kept : Perm (in_order left) rest
    pub out : Outputs s u sent
    pub whole : s.bpf.refusals ≡ [] → length q ≤ fuel → rest ≡ []

  stopped :
      (s : Scheduler F32) (l : TaskLists) (q : List Task) (fuel : ℕ)
      → LanesHold s l
      → in_order l ≡ q
      → (length q ≤ fuel → q ≡ [])
      → Emptied s s q fuel
  stopped s l q fuel h e d = record {
    sent = [];
    rest = q;
    left = l;
    split = refl;
    holds = h;
    kept = rw e (Perm.refl q);
    out =
        idle s s refl refl refl
          (record { trust_same = refl; controller_same = refl; unflagged = λ h. h });
    whole = λ x. d;
  }

  -- One more round before the others, when BPF takes the task.
  one_more :
      (s u v : Scheduler F32) (t : Task) (rest : List Task) (fuel : ℕ)
      → Outputs s u (t ∷ [])
      → Emptied u v rest fuel
      → Emptied s v (t ∷ rest) (suc fuel)
  one_more s u v t rest fuel o ih = record {
    sent = t ∷ ih.sent;
    rest = ih.rest;
    left = ih.left;
    split = ap (λ x. t ∷ x) ih.split;
    holds = ih.holds;
    kept = ih.kept;
    out = then_Outputs s u v (t ∷ []) ih.sent o ih.out;
    whole = λ e b. ih.whole (o.taking e) (omega (arith, b));
  }

  send_popped-some :
      (p : Option Task × Scheduler F32) (t : Task)
      → p.0 ≡ some t
      → send_popped fp clock p ≡ send_task fp clock p.1 t
  send_popped-some (none, s) t e = cc
  send_popped-some (some t', s) t e = ap (λ x. send_task fp clock s x) cc

  -- The last round, when BPF refuses the task.
  put_back :
      (s o u : Scheduler F32) (l : TaskLists) (t : Task) (rest : List Task) (x fuel : ℕ)
      → (r : List (Option ℕ)) → (p : Popped clock s l t rest) → LanesHold u p.after
      → Outputs s u []
      → s.bpf.refusals ≡ some x ∷ r
      → Emptied s (push_task u t) (t ∷ rest) fuel
  put_back s o u l t rest x fuel r p h out e = record {
    sent = [];
    rest = t ∷ rest;
    left = put p.after (lane_of t) (p.after (lane_of t) ++ t ∷ []);
    split = refl;
    holds = push_task-LanesHold u p.after t h p.room;
    kept = p.back;
    out = then_Outputs s u (push_task u t) [] [] out (push_task-Outputs u t);
    whole = λ w. cc;
  }

  round-done :
      (fuel : ℕ) (s : Scheduler F32) → tasks_empty s ≡ true → dispatch_all fp clock (suc fuel) s ≡ s
  unfolding dispatch_all
  round-done fuel s e = rw (dispatch_all, e) refl

  round-sent :
      (fuel : ℕ) (s u : Scheduler F32)
      → tasks_empty s ≡ false
      → dispatch_task fp clock s ≡ (true, u)
      → dispatch_all fp clock (suc fuel) s ≡ dispatch_all fp clock fuel u
  unfolding dispatch_all
  round-sent fuel s u e d = ground (arith, e, d)

  round-refused :
      (fuel : ℕ) (s u : Scheduler F32)
      → tasks_empty s ≡ false
      → dispatch_task fp clock s ≡ (false, u)
      → dispatch_all fp clock (suc fuel) s ≡ u
  unfolding dispatch_all
  round-refused fuel s u e d = ground (arith, e, d)

  pub dispatch_all-Emptied :
      (fuel : ℕ) (s : Scheduler F32) (l : TaskLists) (q : List Task)
      → LanesHold s l
      → in_order l ≡ q
      → Emptied s (dispatch_all fp clock fuel s) q fuel
  unfolding dispatch_task dispatch_all
  dispatch_all-Emptied zero s l q h e = stopped s l q zero h e (empty q)
  dispatch_all-Emptied (suc fuel) s l [] h e =
      let none_left : tasks_empty s ≡ true =
        tasks_empty-LanesHold s l h ∙ ap (λ x. length x == 0) e in
      rw (round-done fuel s none_left) (stopped s l [] (suc fuel) h e (λ x. refl))
  dispatch_all-Emptied (suc fuel) s l (t ∷ rest) h e =
      let some_left : tasks_empty s ≡ false = tasks_empty-LanesHold s l h ∙ rw e (ground arith) in
      let p = pop_strict clock s l t rest h e in
      let o = (pop_highest_priority_task clock s).1 in
      let popped = send_popped-some (pop_highest_priority_task clock s) t p.result in
      let quiet =
        idle s o (ap (λ b. b.dispatched) p.frame.bpf_same) (ap (λ b. b.refusals) p.frame.bpf_same)
          p.frame.local_same p.frame.steady in
      elim (sending o t) [
        | taken u sent same out ↦ rw (round-sent fuel s _ some_left (popped ∙ sent)) (
            one_more s u _ t rest fuel (then_Outputs s o u [] (t ∷ []) quiet out) (
              dispatch_all-Emptied fuel u p.after rest (same-LanesHold o u p.after same p.holds)
                p.order))
        | refused u x r sent same out was ↦ rw (round-refused fuel s _ some_left (popped ∙ sent)) (
            put_back s o u l t rest x (suc fuel) r p (same-LanesHold o u p.after same p.holds)
              (then_Outputs s o u [] [] quiet out)
              (sym (ap (λ b. b.refusals) p.frame.bpf_same) ∙ was))
      ]
