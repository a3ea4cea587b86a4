-- ===== src/Program/Observers.antt =====
-- The statistics and the terminal only watch: what the loop of `run` in src/main.rs does for them
-- leaves the scheduler as it is but for the count of the clock's readings.
use scx_cognis.Base.{
  ℕ, ◌-◌, ◌≡◌, refl, ap, ◌∙◌, Bool, true, false, not, ◌&&◌, Option, none, some, leb, if◌then◌else◌,
  Bool-cases, inl, inr,
}
use scx_cognis.Floats.{Floats}
use scx_cognis.Program.{
  Running, TurnInput, refresh, serve_stats, keep_house, tick_dashboard, polled, refreshed, render,
}
use scx_cognis.Scheduler.Housekeeping.{elapsed, housekeeping}
use scx_cognis.Scheduler.Types.{Scheduler, now_ns}
use scx_cognis.Stats.{get_metrics}
use scx_cognis.Tui.Dashboard.{SharedState}

-- The scheduler after further readings of the clock.
abbrev pub at_tick : {F32 : Type 0} → Scheduler F32 → ℕ → Scheduler F32
at_tick s t = record s { tick = t }

-- A state of the loop whose scheduler is the same but for the readings of the clock.
abbrev pub IsWatched : {F32 F64 : Type 0} → Running F32 F64 → Running F32 F64 → Type 0
IsWatched p q =
    (q.sched ≡ at_tick p.sched q.sched.tick) × (q.last_housekeeping ≡ p.last_housekeeping)

-- The scheduler and the time of the last housekeeping of a loop.
abbrev pub core : {F32 F64 : Type 0} → Running F32 F64 → ℕ × Scheduler F32
core p = (p.last_housekeeping, p.sched)

module _ {F32 F64 : Type 0} (fp : Floats F32 F64) (clock : ℕ → ℕ) where
  serve_stats-IsWatched :
      (i : TurnInput) (p : Running F32 F64) → IsWatched p (serve_stats fp clock i p)
  unfolding serve_stats refresh get_metrics now_ns
  serve_stats-IsWatched i p =
      elim (Bool-cases (p.has_stats_server && (not p.stats_channel_failed && i.request))) [
        | inr idle ↦ rw idle (refl, refl)
        | inl asked ↦ elim (Bool-cases i.answer_taken) [
          | inl taken ↦ rw (asked, taken) (refl, refl)
          | inr lost ↦ rw (asked, lost) (refl, refl)
        ]
      ]

  tick_dashboard-IsWatched :
      (i : TurnInput) (p : Running F32 F64) (state : Option (SharedState F64))
      → IsWatched p (tick_dashboard fp clock i p state)
  unfolding tick_dashboard elapsed now_ns
  tick_dashboard-IsWatched i p none = (refl, refl)
  tick_dashboard-IsWatched i p (some shared) =
      elim (Bool-cases (leb 500_000_000 (clock p.sched.tick - p.last_tui_hist))) [
        | inl due ↦ rw due (refl, refl)
        | inr early ↦ rw early (refl, refl)
      ]

  IsWatched-∙ : (p q r : Running F32 F64) → IsWatched p q → IsWatched q r → IsWatched p r
  IsWatched-∙ p q r (e, h) (f, k) = (f ∙ ap (λ s. at_tick s r.sched.tick) e, k ∙ h)

  refreshed-IsWatched : (i : TurnInput) (p : Running F32 F64) → IsWatched p (refreshed fp clock i p)
  unfolding refreshed refresh get_metrics elapsed now_ns
  refreshed-IsWatched i p = (refl, refl)

  polled-IsWatched : (i : TurnInput) (p : Running F32 F64) → IsWatched p (polled fp clock i p)
  unfolding elapsed now_ns
  polled-IsWatched i p = (refl, refl)

  if-IsWatched :
      (p : Running F32 F64) (b : Bool) (x y : Running F32 F64)
      → IsWatched p x
      → IsWatched p y
      → IsWatched p (if b then x else y)
  if-IsWatched p true x y h k = h
  if-IsWatched p false x y h k = k

  render-IsWatched : (i : TurnInput) (p : Running F32 F64) → IsWatched p (render fp clock i p)
  unfolding render
  render-IsWatched i p =
      let q = refreshed fp clock i p in
      let r = tick_dashboard fp clock i q q.tui_state in
      let due = leb 100_000_000 (elapsed fp clock p.last_tui_render p.sched).0 in
      if-IsWatched p p.has_term (if due then r else polled fp clock i p) p
        (if-IsWatched p due r (polled fp clock i p)
          (IsWatched-∙ p q r (refreshed-IsWatched i p) (tick_dashboard-IsWatched i q q.tui_state))
          (polled-IsWatched i p))
        (refl, refl)

  -- Whatever the environment does, the answers to the statistics' client and the handling of the
  -- terminal change neither a queue, a table or a counter of the scheduler nor the time of the last
  -- housekeeping: of its fields only the count of the clock's readings is another one.
  pub observers-IsWatched :
      (i j : TurnInput) (p q : Running F32 F64)
      → IsWatched p (serve_stats fp clock i p) × IsWatched q (render fp clock j q)
  observers-IsWatched i j p q = (serve_stats-IsWatched i p, render-IsWatched j q)

  -- Either way only these two fields are other ones.
  if-rest :
      (b : Bool) (p : Running F32 F64) (s s' : Scheduler F32) (now : ℕ)
      → (if b then record p { sched = s; last_housekeeping = now } else record p { sched = s' })
        ≡ record p {
          sched =
              (core (
                if b
                then record p { sched = s; last_housekeeping = now }
                else record p { sched = s' })).1;
          last_housekeeping =
              (core (
                if b
                then record p { sched = s; last_housekeeping = now }
                else record p { sched = s' })).0;
        }
  if-rest true p s s' now = refl
  if-rest false p s s' now = refl

  pub keep_house-rest :
      (p : Running F32 F64)
      → keep_house fp clock p ≡ record p {
        sched = (core (keep_house fp clock p)).1;
        last_housekeeping = (core (keep_house fp clock p)).0;
      }
  unfolding keep_house
  keep_house-rest p =
      let (since, s) = elapsed fp clock p.last_housekeeping p.sched in
      let (now, s') = now_ns clock s in
      if-rest (leb 50_000_000 since) p (housekeeping fp clock s') s now
