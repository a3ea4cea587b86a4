-- ===== src/Scheduler/Housekeeping.antt =====
-- The work of src/main.rs off the scheduling path: `drain_exited_tasks`, the periodic ticks,
-- `flush_trust_updates`, and the test for work of the loop of `run`.
use scx_cognis.Base.{
  ℕ, zero, suc, ◌-◌, ◌*◌, ◌/◌, max, Bool, true, false, ◌&&◌, ◌||◌, not, Option, none, some, List,
  [], ◌∷◌, ltb, leb, if◌then◌else◌, get_or, ok, err,
}
use scx_cognis.Bpf.{dequeue_exited_pid}
use scx_cognis.Floats.{Floats}
use scx_cognis.Lifetime.{TaskLifetime, default_lifetime, lifetime_find_slot, lifetime_evict}
use scx_cognis.Policy
use scx_cognis.Scheduler.Features.{effective_slice_pressure}
use scx_cognis.Scheduler.Lanes.{tasks_empty}
use scx_cognis.Scheduler.Types.{Scheduler, now_ns, nsec_per_sec}
use scx_cognis.Slots.{is_live}
use scx_cognis.Trust.{ExitObservation, update_on_exit, evict}

-- The observation that an expired lifetime entry gives.
unfoldable pub observation_of : TaskLifetime → ExitObservation
observation_of lt = record {
  slice_underrun = ltb lt.slice_used_ns (lt.slice_assigned_ns / 2);
  preempted = lt.preempted;
  clean_exit = not lt.cheat_flagged;
  cheat_flagged = lt.cheat_flagged;
  fork_count = 0;
  involuntary_ctx_sw = 0;
}

-- An entry whose pid was not seen for two seconds.
unfoldable pub is_stale : ℕ → ℕ → TaskLifetime → Bool
is_stale now pid lt =
    is_live pid && (ltb 0 lt.last_seen_ns && leb (2 * nsec_per_sec) (now - lt.last_seen_ns))

-- The pids of the stale entries, in the order of the table, `room` of them at most.
unfoldable pub stale_pids : ℕ → List ℕ → List TaskLifetime → (room : ℕ) → List ℕ
stale_pids now [] table room = []
stale_pids now (pid ∷ pids) [] room = []
stale_pids now (pid ∷ pids) (lt ∷ table) zero = []
stale_pids now (pid ∷ pids) (lt ∷ table) (suc room) = elim (is_stale now pid lt) [
  | true ↦ pid ∷ stale_pids now pids table room
  | false ↦ stale_pids now pids table (suc room)
]

module _ {F32 F64 : Type 0} (fp : Floats F32 F64) (clock : ℕ → ℕ) where
  unfoldable pub forget_pid : Scheduler F32 → ℕ → Scheduler F32
  forget_pid s pid =
      if is_live pid
      then record s {
        lifetimes = lifetime_evict s.lifetimes pid;
        trust = evict fp.single s.trust pid;
      }
      else s

  -- `drain_exited_tasks` with `n` exits of the batch left.
  unfoldable pub drain_exited_tasks : ℕ → Scheduler F32 → Scheduler F32
  drain_exited_tasks zero s = s
  drain_exited_tasks (suc n) s =
      let s' : Scheduler F32 = record s { bpf = (dequeue_exited_pid s.bpf).1 } in
      elim (dequeue_exited_pid s.bpf).0 [
        | ok (some pid) ↦ drain_exited_tasks n (forget_pid s' pid)
        | ok none ↦ s'
        | err e ↦ s'
      ]

  -- `last.elapsed()`
  unfoldable pub elapsed : ℕ → Scheduler F32 → ℕ × Scheduler F32
  elapsed last s = let (now, s') = now_ns clock s in (now - last, s')

  -- `trust.tick` leaves the table alone, and its result is not used.
  unfoldable pub tick_trust : Scheduler F32 → Scheduler F32
  tick_trust s =
      let (since, s₁) = elapsed s.last_trust_tick s in
      let (t, s₂) = now_ns clock s₁ in
      if ltb since 100_000_000 then s₁ else (now_ns clock (record s₂ { last_trust_tick = t })).1

  unfoldable pub tick_slice_controller : Scheduler F32 → Scheduler F32
  tick_slice_controller s =
      let (since, s₁) = elapsed s.last_slice_tick s in
      let (t, s₂) = now_ns clock s₁ in
      let bss = s.bpf.bss in
      let pressure = effective_slice_pressure bss.nr_running bss.nr_queued bss.nr_scheduled in
      if ltb since 50_000_000 then s₁ else record s₂ {
        last_slice_tick = t;
        slice_controller =
            Policy.update fp.double s.slice_controller pressure (max bss.nr_online_cpus 1);
      }

  -- The exit of a pid that stands at a slot of the lifetime table.
  abbrev pub expire_at : Scheduler F32 → ℕ → Option ℕ → Scheduler F32
  expire_at s pid none = s
  expire_at s pid (some i) = record s {
    lifetimes = lifetime_evict s.lifetimes pid;
    trust =
        update_on_exit fp.single s.trust pid pid
          (observation_of (get_or s.lifetimes.table i default_lifetime)) [];
  }

  unfoldable pub expire_all : List ℕ → Scheduler F32 → Scheduler F32
  expire_all [] s = s
  expire_all (pid ∷ pids) s = expire_all pids (expire_at s pid (lifetime_find_slot s.lifetimes pid))

  unfoldable pub flush_trust_updates : Scheduler F32 → Scheduler F32
  flush_trust_updates s =
      let (since, s₁) = elapsed s.last_trust_flush s in
      let (t, s₂) = now_ns clock s₁ in
      let (now, s₃) = now_ns clock s₂ in
      if ltb since nsec_per_sec
      then s₁
      else expire_all (stale_pids now s.lifetimes.pids s.lifetimes.table 256)
          (record s₃ { last_trust_flush = t })

  unfoldable pub housekeeping : Scheduler F32 → Scheduler F32
  housekeeping s = flush_trust_updates (tick_slice_controller (tick_trust s))

  -- `has_userspace_work`
  unfoldable pub has_userspace_work : Scheduler F32 → Bool
  has_userspace_work s =
      not (tasks_empty s) || (ltb 0 s.bpf.bss.nr_queued || ltb 0 s.bpf.bss.nr_scheduled)
