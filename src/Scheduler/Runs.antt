-- ===== src/Scheduler/Runs.antt =====
-- The start of the scheduler of src/main.rs: `Scheduler::init`.
use scx_cognis.Base.{
  ℕ, ◌≡◌, refl, Bool, false, Option, none, some, [], arith, replicate, All-replicate,
}
use scx_cognis.Bpf.{BpfScheduler}
use scx_cognis.Config.{BpfProfile}
use scx_cognis.Floats.{Floats}
use scx_cognis.Lifetime.{new_lifetimes, default_lifetime}
use scx_cognis.Policy
use scx_cognis.Policy.Bounds
use scx_cognis.Scheduler.Invariant.{IsSound}
use scx_cognis.Scheduler.Lanes.{rt_lane, boosted_lane, fair_lane}
use scx_cognis.Scheduler.Types.{Task, Scheduler, queue_depth}
use scx_cognis.Slots.{table_size}
use scx_cognis.TaskQueue.{TaskQueue, new_queue}
use scx_cognis.TaskQueue.Queries.{new_queue-some, new_queue-Holds}
use scx_cognis.Trust.{new_table}
use scx_cognis.Trust.Lookup.{new_table-IsValid}

module _ {F32 F64 : Type 0} (fp : Floats F32 F64) (clock : ℕ → ℕ) where
  -- The scheduler that `init` makes with the queue `q` for each lane. The six readings of the clock
  -- are those of the instants, of which three are for the terminal and the uptime.
  unfoldable pub init_with : BpfScheduler → BpfProfile → Bool → TaskQueue Task → Scheduler F32
  init_with bpf profile percpu_local q =
      let controller = Policy.new profile.slice_ns in
      record {
        bpf = bpf;
        percpu_local = percpu_local;
        boosted_interactive_queue = q;
        rt_queue = q;
        interactive_queue = q;
        vruntime_now = 0;
        base_slice_ns = profile.slice_ns;
        slice_ns_min = profile.slice_min_ns;
        trust = new_table fp.single;
        slice_controller = controller;
        lifetimes = new_lifetimes;
        last_trust_tick = clock 3;
        last_slice_tick = clock 4;
        last_trust_flush = clock 5;
        label_counts = replicate 5 0;
        total_inference_ns = 0;
        inference_samples = 0;
        assigned_slice_ema_ns = Policy.read_slice_ns controller;
        tick = 6;
      }

  -- `init`, once BPF is set up; an assertion on the capacity of a queue would end it.
  unfoldable pub init : BpfScheduler → BpfProfile → Bool → Option (Scheduler F32)
  init bpf profile percpu_local = elim (new_queue {A = Task} queue_depth) [
    | none ↦ none
    | some q ↦ some (init_with bpf profile percpu_local q)
  ]

  pub init_with-IsSound :
      (bpf : BpfScheduler) (profile : BpfProfile) (percpu_local : Bool) (q : TaskQueue Task)
      → new_queue queue_depth ≡ some q
      → IsSound (init_with bpf profile percpu_local q) (λ k. []) profile.slice_ns
  unfolding init_with new_table new_lifetimes
  init_with-IsSound bpf profile percpu_local q e =
      let holds = new_queue-Holds queue_depth (omega arith) e in
      record {
        lanes = record {
          holds = elim [ rt_lane ↦ holds | boosted_lane ↦ holds | fair_lane ↦ holds ];
          own = λ k. tt;
        };
        controller = Bounds.new-IsValid profile.slice_ns;
        trust = new_table-IsValid fp.single;
        unflagged = All-replicate (λ e. e.cheat_flagged ≡ false) table_size default_lifetime refl;
        no_flags = All-replicate (λ f. f ≡ false) table_size false refl;
      }

  -- The start succeeds, with the invariant and empty lanes.
  pub init-IsSound :
      (bpf : BpfScheduler) (profile : BpfProfile) (percpu_local : Bool)
      → (s : Scheduler F32) × (init bpf profile percpu_local ≡ some s)
        × IsSound s (λ k. []) profile.slice_ns
  unfolding init
  init-IsSound bpf profile percpu_local =
      let (q, e) = new_queue-some {A = Task} queue_depth (omega arith) in
      let s = init_with bpf profile percpu_local q in
      (s, rw (init, e) refl, init_with-IsSound bpf profile percpu_local q e)
