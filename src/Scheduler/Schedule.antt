-- ===== src/Scheduler/Schedule.antt =====
-- `schedule` of src/main.rs against the lists of tasks in the lanes.
use mathlib.Core.List.{Perm}
use mathlib.Core.List.{Permᴰ}
use mathlib.Core.Logic.{∥∥₁_elim}
use native.Mathlib.Nat.{ℕ_set}
use scx_cognis.Base.{ℕ, ◌+◌, ◌-◌, ◌≤◌, ◌≡◌, refl, ap, ◌∙◌, List, [], ◌++◌, map, arith, length}
use scx_cognis.Bpf.{notify_complete}
use scx_cognis.Floats.{Floats}
use scx_cognis.Lifetime.Flags.{Unflagged}
use scx_cognis.Policy.{record_sched_event_latency}
use scx_cognis.Scheduler.Dispatch.{idle, then_Outputs, dispatch_all-Emptied}
use scx_cognis.Scheduler.Hold.{TaskLists, in_order, LanesHold, same-LanesHold, tasks_len-LanesHold}
use scx_cognis.Scheduler.Lanes.{rt_lane, boosted_lane, fair_lane, tasks_len}
use scx_cognis.Scheduler.Pipeline.{
  to_dispatched, drain_queued_tasks, dispatch_all, drain_budget, schedule,
}
use scx_cognis.Scheduler.Types.{Task, Scheduler, now_ns}
use scx_cognis.Scheduler.Drain.{Grown, drain_queued_tasks-Batched}

length-permuted : {a b : List Task} → Permᴰ a b → length a ≡ length b
length-permuted Permᴰ.nil = refl
length-permuted (Permᴰ.cons e p) = omega (arith, length-permuted p)
length-permuted (Permᴰ.swap e f) = refl
length-permuted (Permᴰ.trans p q) = length-permuted p ∙ length-permuted q

length-perm : {a b : List Task} → Perm a b → length a ≡ length b
length-perm {a} {b} p = ∥∥₁_elim p (ℕ_set (length a) (length b)) length-permuted

module _ {F32 F64 : Type 0} (fp : Floats F32 F64) (clock : ℕ → ℕ) where
  -- What one call of `schedule` does.
  pub record Scheduled (s u : Scheduler F32) (l : TaskLists) : Type 0 where
    pub queued : TaskLists
    pub grown : Grown l queued
    pub few : length (in_order queued) ≤ length (in_order l) + drain_budget fp clock s
    pub sent : List Task
    pub rest : List Task
    pub split : in_order queued ≡ sent ++ rest
    pub left : TaskLists
    pub holds : LanesHold u left
    pub kept : Perm (in_order left) rest
    pub appended : u.bpf.dispatched ≡ s.bpf.dispatched ++ map (to_dispatched s.percpu_local) sent
    pub pending : u.bpf.bss.nr_scheduled ≡ length rest
    pub whole : s.bpf.refusals ≡ [] → rest ≡ []
    pub trust_same : u.trust ≡ s.trust
    pub unflagged : Unflagged s.lifetimes → Unflagged u.lifetimes
    pub latency : ℕ
    pub controller_same : u.slice_controller ≡ record_sched_event_latency s.slice_controller latency

  pub schedule-Scheduled :
      (s : Scheduler F32) (l : TaskLists) → LanesHold s l → Scheduled s (schedule fp clock s) l
  unfolding schedule now_ns notify_complete
  schedule-Scheduled s l h =
      let s₁ = (now_ns clock s).1 in
      let d =
        (drain_queued_tasks-Batched fp clock (drain_budget fp clock s₁) s₁ l (
          same-LanesHold s s₁ l (elim [ rt_lane ↦ refl | boosted_lane ↦ refl | fair_lane ↦ refl ])
            h)).drained in
      let s₂ = drain_queued_tasks fp clock (drain_budget fp clock s₁) s₁ in
      let n = tasks_len-LanesHold s₂ d.lists d.holds in
      let e =
        dispatch_all-Emptied fp clock (tasks_len s₂) s₂ d.lists (in_order d.lists) d.holds refl in
      let s₃ = dispatch_all fp clock (tasks_len s₂) s₂ in
      let both =
        then_Outputs s s₁ s₃ [] e.sent
          (idle s s₁ refl refl refl
            (record { trust_same = refl; controller_same = refl; unflagged = λ h. h }))
          (then_Outputs s₁ s₂ s₃ [] e.sent d.out e.out) in
      record {
        queued = d.lists;
        grown = d.grown;
        few = d.few;
        sent = e.sent;
        rest = e.rest;
        split = e.split;
        left = e.left;
        holds =
            same-LanesHold s₃ _ e.left
              (elim [ rt_lane ↦ refl | boosted_lane ↦ refl | fair_lane ↦ refl ]) e.holds;
        kept = e.kept;
        appended = both.appended;
        trust_same = both.steady.trust_same;
        unflagged = both.steady.unflagged;
        latency = clock s₃.tick - clock s.tick;
        controller_same =
            ap (λ c. record_sched_event_latency c (clock s₃.tick - clock s.tick))
              both.steady.controller_same;
        pending = tasks_len-LanesHold s₃ e.left e.holds ∙ length-perm e.kept;
        whole = λ x. e.whole (d.out.taking x) (omega (arith, n));
      }
