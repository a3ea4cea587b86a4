-- ===== src/Scheduler/Invariant.antt =====
-- The invariant of the scheduler of src/main.rs, over the parts of a turn of the loop of `run`.
use scx_cognis.Base.{
  ℕ, zero, suc, ◌-◌, ◌≡◌, refl, Bool, true, false, Option, none, some, List, [], ◌∷◌, arith,
  if◌then◌else◌, get_or, All, All-get_or, ltb, Bool-cases, inl, inr, Result, ok, err,
}
use scx_cognis.Bpf.{dequeue_exited_pid}
use scx_cognis.Floats.{Floats}
use scx_cognis.Lifetime.{TaskLifetime, default_lifetime, lifetime_find_slot}
use scx_cognis.Lifetime.Flags.{Unflagged, evict-Unflagged}
use scx_cognis.Policy.Bounds
use scx_cognis.Scheduler.Hold.{TaskLists, LanesHold, SameLanes, same-LanesHold}
use scx_cognis.Scheduler.Housekeeping.{
  observation_of, is_stale, stale_pids, forget_pid, drain_exited_tasks, elapsed, tick_trust,
  tick_slice_controller, expire_at, expire_all, flush_trust_updates, housekeeping,
}
use scx_cognis.Scheduler.Lanes.{rt_lane, boosted_lane, fair_lane}
use scx_cognis.Scheduler.Pipeline.{schedule}
use scx_cognis.Scheduler.Schedule.{schedule-Scheduled}
use scx_cognis.Scheduler.Types.{Scheduler, now_ns, nsec_per_sec}
use scx_cognis.Slots.{is_live}
use scx_cognis.Slots.Index.{IsPid}
use scx_cognis.Trust.Lookup
use scx_cognis.Trust.Exit.{update_on_exit-IsValid, evict-IsValid}
use scx_cognis.Trust.Unflagged.{NoFlags, update-NoFlags, evict-NoFlags}

live-IsPid : (pid : ℕ) → is_live pid ≡ true → IsPid pid
live-IsPid pid e = ground arith

stale-live : (now pid : ℕ) (lt : TaskLifetime) → is_stale now pid lt ≡ true → is_live pid ≡ true
unfolding is_stale
stale-live now pid lt e = ground arith

stale_pids-IsPid :
    (now : ℕ) (pids : List ℕ) (table : List TaskLifetime) (room : ℕ)
    → All IsPid (stale_pids now pids table room)
unfolding stale_pids
stale_pids-IsPid now [] table room = tt
stale_pids-IsPid now (pid ∷ pids) [] room = tt
stale_pids-IsPid now (pid ∷ pids) (lt ∷ table) zero = tt
stale_pids-IsPid now (pid ∷ pids) (lt ∷ table) (suc room) =
    elim (Bool-cases (is_stale now pid lt)) [
      | inl e ↦
          rw (stale_pids, e)
            (live-IsPid pid (stale-live now pid lt e), stale_pids-IsPid now pids table room)
      | inr e ↦ rw (stale_pids, e) (stale_pids-IsPid now pids table (suc room))
    ]

module _ {F32 : Type 0} where
  -- The lanes hold the lists and nothing else, the recommended slice is in its bounds for the
  -- configured ceiling `base`, the trust table is well formed, and no entry is flagged.
  pub record IsSound (s : Scheduler F32) (l : TaskLists) (base : ℕ) : Type 0 where
    pub lanes : LanesHold s l
    pub controller : Bounds.IsValid s.slice_controller base
    pub trust : Lookup.IsValid s.trust
    pub unflagged : Unflagged s.lifetimes
    pub no_flags : NoFlags s.trust

module _ {F32 F64 : Type 0} (fp : Floats F32 F64) (clock : ℕ → ℕ) (base : ℕ) where
  forget_pid-IsSound :
      (s : Scheduler F32) (l : TaskLists) (pid : ℕ)
      → IsSound s l base
      → IsSound (forget_pid fp clock s pid) l base
  unfolding forget_pid
  forget_pid-IsSound s l pid h = elim (Bool-cases (is_live pid)) [
    | inl e ↦ rw e record {
      lanes =
          same-LanesHold s _ l (elim [ rt_lane ↦ refl | boosted_lane ↦ refl | fair_lane ↦ refl ])
            h.lanes;
      controller = h.controller;
      trust = evict-IsValid fp.single s.trust h.trust pid (live-IsPid pid e);
      unflagged = evict-Unflagged s.lifetimes pid h.unflagged;
      no_flags = evict-NoFlags fp.single s.trust pid h.no_flags;
    }
    | inr e ↦ rw e h
  ]

  -- A step that touches nothing of the invariant but the slice controller.
  pub apart :
      (s u : Scheduler F32) (l : TaskLists)
      → SameLanes s u
      → u.trust ≡ s.trust
      → u.lifetimes ≡ s.lifetimes
      → Bounds.IsValid u.slice_controller base
      → IsSound s l base
      → IsSound u l base
  apart s u l e t f c h = record {
    lanes = same-LanesHold s u l e h.lanes;
    controller = c;
    trust = rw t h.trust;
    unflagged = rw f h.unflagged;
    no_flags = rw t h.no_flags;
  }

  after_exit :
      (n : ℕ) (s : Scheduler F32) (l : TaskLists) (r : Result (Option ℕ) ℕ)
      → IsSound s l base
      → ((u : Scheduler F32) → IsSound u l base → IsSound (drain_exited_tasks fp clock n u) l base)
      → IsSound
          (elim r as (λ x. Scheduler F32) [
            | ok (some pid) ↦ drain_exited_tasks fp clock n (forget_pid fp clock s pid)
            | ok none ↦ s
            | err e ↦ s
          ])
          l
          base
  after_exit n s l (ok (some pid)) h ih = ih _ (forget_pid-IsSound s l pid h)
  after_exit n s l (ok none) h ih = h
  after_exit n s l (err e) h ih = h

  pub drain_exited_tasks-IsSound :
      (n : ℕ) (s : Scheduler F32) (l : TaskLists)
      → IsSound s l base
      → IsSound (drain_exited_tasks fp clock n s) l base
  unfolding drain_exited_tasks
  drain_exited_tasks-IsSound zero s l h = h
  drain_exited_tasks-IsSound (suc n) s l h =
      after_exit n (record s { bpf = (dequeue_exited_pid s.bpf).1 }) l (dequeue_exited_pid s.bpf).0
        (apart s _ l (elim [ rt_lane ↦ refl | boosted_lane ↦ refl | fair_lane ↦ refl ]) refl refl
          h.controller h)
        (λ u. drain_exited_tasks-IsSound n u l)

  tick_trust-IsSound :
      (s : Scheduler F32) (l : TaskLists)
      → IsSound s l base
      → IsSound (tick_trust fp clock s) l base
  unfolding tick_trust elapsed now_ns
  tick_trust-IsSound s l h =
      elim (Bool-cases (ltb (clock s.tick - s.last_trust_tick) 100_000_000)) [
        | inl e ↦ rw e (
            apart s _ l (elim [ rt_lane ↦ refl | boosted_lane ↦ refl | fair_lane ↦ refl ]) refl refl
              h.controller h)
        | inr e ↦ rw e (
            apart s _ l (elim [ rt_lane ↦ refl | boosted_lane ↦ refl | fair_lane ↦ refl ]) refl refl
              h.controller h)
      ]

  tick_slice_controller-IsSound :
      (s : Scheduler F32) (l : TaskLists)
      → IsSound s l base
      → IsSound (tick_slice_controller fp clock s) l base
  unfolding tick_slice_controller elapsed now_ns
  tick_slice_controller-IsSound s l h =
      elim (Bool-cases (ltb (clock s.tick - s.last_slice_tick) 50_000_000)) [
        | inl e ↦ rw e (
            apart s _ l (elim [ rt_lane ↦ refl | boosted_lane ↦ refl | fair_lane ↦ refl ]) refl refl
              h.controller h)
        | inr e ↦ rw e (
            apart s _ l (elim [ rt_lane ↦ refl | boosted_lane ↦ refl | fair_lane ↦ refl ]) refl refl
              (Bounds.update-IsValid fp.double _ _ h.controller) h)
      ]

  expire_at-IsSound :
      (s : Scheduler F32) (l : TaskLists) (pid : ℕ) (o : Option ℕ)
      → IsPid pid
      → IsSound s l base
      → IsSound (expire_at fp clock s pid o) l base
  unfolding observation_of
  expire_at-IsSound s l pid none p h = h
  expire_at-IsSound s l pid (some i) p h =
      let lt = get_or s.lifetimes.table i default_lifetime in
      let honest =
        All-get_or (λ e. e.cheat_flagged ≡ false) s.lifetimes.table i default_lifetime h.unflagged
          refl in
      record {
        lanes =
            same-LanesHold s _ l (elim [ rt_lane ↦ refl | boosted_lane ↦ refl | fair_lane ↦ refl ])
              h.lanes;
        controller = h.controller;
        trust = update_on_exit-IsValid fp.single s.trust h.trust pid pid p p (observation_of lt) [];
        unflagged = evict-Unflagged s.lifetimes pid h.unflagged;
        no_flags =
            update-NoFlags fp.single s.trust pid pid (observation_of lt) [] h.no_flags honest;
      }

  expire_all-IsSound :
      (pids : List ℕ) (s : Scheduler F32) (l : TaskLists)
      → All IsPid pids
      → IsSound s l base
      → IsSound (expire_all fp clock pids s) l base
  unfolding expire_all
  expire_all-IsSound [] s l p h = h
  expire_all-IsSound (pid ∷ pids) s l p h =
      expire_all-IsSound pids _ l p.1
        (expire_at-IsSound s l pid (lifetime_find_slot s.lifetimes pid) p.0 h)

  flush_trust_updates-IsSound :
      (s : Scheduler F32) (l : TaskLists)
      → IsSound s l base
      → IsSound (flush_trust_updates fp clock s) l base
  unfolding flush_trust_updates elapsed now_ns
  flush_trust_updates-IsSound s l h =
      elim (Bool-cases (ltb (clock s.tick - s.last_trust_flush) nsec_per_sec)) [
        | inl e ↦ rw e (
            apart s _ l (elim [ rt_lane ↦ refl | boosted_lane ↦ refl | fair_lane ↦ refl ]) refl refl
              h.controller h)
        | inr e ↦ rw e (
            expire_all-IsSound _ _ l (stale_pids-IsPid _ s.lifetimes.pids s.lifetimes.table 256) (
              apart s _ l (elim [ rt_lane ↦ refl | boosted_lane ↦ refl | fair_lane ↦ refl ]) refl
                refl h.controller h))
      ]

  schedule-IsSound :
      (s : Scheduler F32) (l : TaskLists)
      → IsSound s l base
      → (l' : TaskLists) × IsSound (schedule fp clock s) l' base
  schedule-IsSound s l h =
      let d = schedule-Scheduled fp clock s l h.lanes in
      (
        d.left,
        record {
          lanes = d.holds;
          controller = rw d.controller_same (Bounds.record-IsValid d.latency h.controller);
          trust = rw d.trust_same h.trust;
          unflagged = d.unflagged h.unflagged;
          no_flags = rw d.trust_same h.no_flags;
        },
      )

  pub housekeeping-IsSound :
      (s : Scheduler F32) (l : TaskLists)
      → IsSound s l base
      → IsSound (housekeeping fp clock s) l base
  unfolding housekeeping
  housekeeping-IsSound s l h =
      flush_trust_updates-IsSound _ l (tick_slice_controller-IsSound _ l (tick_trust-IsSound s l h))

  pub work-IsSound :
      (s : Scheduler F32) (l : TaskLists) (b : Bool)
      → IsSound s l base
      → (l' : TaskLists) × IsSound (if b then schedule fp clock s else s) l' base
  work-IsSound s l true h = schedule-IsSound s l h
  work-IsSound s l false h = (l, h)
