-- ===== src/Program/Sound.antt =====
-- The invariant of the scheduler over the whole loop of `run` of src/main.rs, with its statistics and
-- its terminal.
use scx_cognis.Base.{ℕ, ◌+◌, ◌≡◌, refl, some, Bool, true, false, List, [], ◌∷◌, leb, if◌then◌else◌}
use scx_cognis.Bpf.{BpfScheduler, BssData}
use scx_cognis.Config.{BpfProfile}
use scx_cognis.Floats.{Floats}
use scx_cognis.Program.{
  Running, TurnInput, RunEnd, exited, bpf_exited, user_quit, work, serve_stats, keep_house, render,
  turn, run, bpf_writes,
}
use scx_cognis.Program.Observers.{at_tick, IsWatched, observers-IsWatched}
use scx_cognis.Scheduler.Hold.{TaskLists}
use scx_cognis.Scheduler.Housekeeping.{elapsed, housekeeping, has_userspace_work}
use scx_cognis.Scheduler.Invariant.{
  IsSound, apart, housekeeping-IsSound, work-IsSound, drain_exited_tasks-IsSound,
}
use scx_cognis.Scheduler.Lanes.{rt_lane, boosted_lane, fair_lane}
use scx_cognis.Scheduler.Pipeline.{schedule}
use scx_cognis.Scheduler.Runs.{init, init-IsSound}
use scx_cognis.Scheduler.Types.{Scheduler, now_ns}

module _ {F32 F64 : Type 0} (fp : Floats F32 F64) (clock : ℕ → ℕ) (base : ℕ) where
  at_tick-IsSound :
      (s : Scheduler F32) (l : TaskLists) (t : ℕ) → IsSound s l base → IsSound (at_tick s t) l base
  at_tick-IsSound s l t h =
      apart fp clock base s (at_tick s t) l
        (elim [ rt_lane ↦ refl | boosted_lane ↦ refl | fair_lane ↦ refl ]) refl refl h.controller h

  bpf_writes-IsSound :
      (counters : BssData) (p : Running F32 F64) (l : TaskLists)
      → IsSound p.sched l base
      → IsSound (bpf_writes fp clock counters p).sched l base
  bpf_writes-IsSound counters p l h =
      apart fp clock base p.sched (bpf_writes fp clock counters p).sched l
        (elim [ rt_lane ↦ refl | boosted_lane ↦ refl | fair_lane ↦ refl ]) refl refl h.controller h

  watched-IsSound :
      (p q : Running F32 F64) (l : TaskLists)
      → IsWatched p q
      → IsSound p.sched l base
      → IsSound q.sched l base
  watched-IsSound p q l (e, k) h = rw e (at_tick-IsSound p.sched l q.sched.tick h)

  if-IsSound :
      (b : Bool) (p q : Running F32 F64) (l : TaskLists)
      → IsSound p.sched l base
      → IsSound q.sched l base
      → IsSound (if b then p else q).sched l base
  if-IsSound true p q l h k = h
  if-IsSound false p q l h k = k

  keep_house-IsSound :
      (p : Running F32 F64) (l : TaskLists)
      → IsSound p.sched l base
      → IsSound (keep_house fp clock p).sched l base
  unfolding keep_house elapsed now_ns
  keep_house-IsSound p l h =
      let t = p.sched.tick in
      let (since, s) = elapsed fp clock p.last_housekeeping p.sched in
      let (now, s') = now_ns clock s in
      if-IsSound (leb 50_000_000 since)
        (record p { sched = housekeeping fp clock s'; last_housekeeping = now })
        (record p { sched = s }) l
        (housekeeping-IsSound fp clock base s' l (at_tick-IsSound p.sched l (t + 1 + 1) h))
        (at_tick-IsSound p.sched l (t + 1) h)

  part-IsSound :
      (p : Running F32 F64) (l : TaskLists)
      → IsSound p.sched l base
      → (l' : TaskLists) × IsSound (work fp clock p).sched l' base
  unfolding work
  part-IsSound p l h =
      let b = has_userspace_work fp clock p.sched in
      let (l', h') = work-IsSound fp clock base p.sched l b h in
      (
        l',
        drain_exited_tasks-IsSound fp clock base 128
            (if b then schedule fp clock p.sched else p.sched) l' h',
      )

  turn-IsSound :
      (i : TurnInput) (p : Running F32 F64) (l : TaskLists)
      → IsSound p.sched l base
      → (l' : TaskLists) × IsSound (turn fp clock i p).sched l' base
  unfolding turn
  turn-IsSound i p l h =
      let p' = bpf_writes fp clock i.counters p in
      let (l', worked) = part-IsSound p' l (bpf_writes-IsSound i.counters p l h) in
      let q = bpf_writes fp clock i.counters_after_work (work fp clock p') in
      let written = bpf_writes-IsSound i.counters_after_work (work fp clock p') l' worked in
      let r = serve_stats fp clock i q in
      let k = keep_house fp clock r in
      let (served, rendered) = observers-IsWatched fp clock i i q k in
      let kept = keep_house-IsSound r l' (watched-IsSound q r l' served written) in
      (l', watched-IsSound k (render fp clock i k) l' rendered kept)

  after_turn :
      (e q : Bool) (p p' : Running F32 F64) (rest : Running F32 F64 × RunEnd) (l l' : TaskLists)
      → IsSound p.sched l base
      → IsSound p'.sched l' base
      → ((m : TaskLists) × IsSound rest.0.sched m base)
      → (m : TaskLists) × IsSound
          (if e then (p, bpf_exited) else if q then (p', user_quit) else rest).0.sched
          m
          base
  after_turn true q p p' rest l l' h h' k = (l, h)
  after_turn false true p p' rest l l' h h' k = (l', h')
  after_turn false false p p' rest l l' h h' k = k

  -- Where the scheduler's invariant holds, it holds when `run` ends and after any number of turns of
  -- its whole loop, whatever BPF hands over, refuses and writes to the counters before each turn and
  -- after its scheduling, whatever the clock, the statistics' client and the user do, and whatever
  -- the floats compute.
  pub run-IsSound :
      (is : List TurnInput) (p : Running F32 F64) (l : TaskLists)
      → IsSound p.sched l base
      → (l' : TaskLists) × IsSound (run fp clock is p).0.sched l' base
  unfolding run
  run-IsSound [] p l h = (l, h)
  run-IsSound (i ∷ is) p l h =
      let p' = turn fp clock i p in
      let (l', h') = turn-IsSound i p l h in
      after_turn (exited i) p'.tui_quit p p' (run fp clock is p') l l' h h'
        (run-IsSound is p' l' h')

module _ {F32 F64 : Type 0} (fp : Floats F32 F64) (clock : ℕ → ℕ) where
  -- `Scheduler::init` succeeds, and its scheduler has the invariant, for the configured slice, when
  -- `run` ends and after any number of turns of its whole loop, whatever BPF hands over, refuses and
  -- writes to the counters before each turn and after its scheduling, whatever the clock, the
  -- statistics' client and the user do, and whatever the floats compute.
  pub init-run-IsSound :
      (bpf : BpfScheduler) (profile : BpfProfile) (percpu_local : Bool) (is : List TurnInput)
      → (p : Running F32 F64)
      → (s : Scheduler F32) × (init fp clock bpf profile percpu_local ≡ some s)
        × ((l : TaskLists) × IsSound
              (run fp clock is (record p { sched = s })).0.sched
              l
              profile.slice_ns)
  init-run-IsSound bpf profile percpu_local is p =
      let (s, e, h) = init-IsSound fp clock bpf profile percpu_local in
      (s, e, run-IsSound fp clock profile.slice_ns is (record p { sched = s }) (λ k. []) h)
