-- ===== src/Tui/Dashboard/Valid.antt =====
-- The dashboard's state of src/tui/dashboard.rs stays well formed, and a frame of it is drawn without
-- a panic.
use scx_cognis.Base.{
  ℕ, suc, ◌+◌, ◌*◌, ◌^◌, ◌≤◌, ◌<◌, ◌≡◌, refl, sym, ap, ◌∙◌, min, false, some, List, [], ◌∷◌, map,
  arith, ltb, leb, length, take, replicate, length-replicate, Bool-cases, inl, inr,
}
use mathlib.Core.Path.{subst}
use mathlib.Core.Option.{some-injective}
use scx_cognis.Floats.{FloatOps, Floats}
use scx_cognis.Scheduler.Types.{Scheduler}
use scx_cognis.Stats.{Metrics}
use scx_cognis.Trust.{ShameEntry, shame_max}
use scx_cognis.Trust.Report.{worst_actors}
use scx_cognis.Trust.Watchlist.{worst_actors_bound}
use scx_cognis.Tui.Dashboard.{
  DashboardState, SharedState, Drawn, with_lock, zero_entry, push_history, set_watchlist,
  default_state, new_shared_state, draw, drawn_of, tick_tui, wall_entry, fill_watchlist, avg_us,
  update_tui,
}
use scx_cognis.Tui.Gauges.{WallEntry, Gauge, draw_classification, draw_classification-AreGauges}
use scx_cognis.Tui.History.Chart.{LatencyChart, draw_latency_chart, draw_latency_chart-numbered}
use scx_cognis.Tui.History.Recent.{IsRing, new_ring-IsRing, push-IsRing}

pub record IsDashboard {F64 : Type 0} (d : DashboardState F64) : Type 0 where
  pub ring : IsRing d.inference_hist
  pub entries : length d.watchlist_entries ≡ shame_max
  pub shown : d.wall_len ≤ shame_max

module _ {F64 : Type 0} (fl : FloatOps F64) where
  pub default_state-IsDashboard : (m : Metrics) → IsDashboard (default_state fl m)
  default_state-IsDashboard m = record {
    ring = new_ring-IsRing fl;
    entries = length-replicate shame_max (zero_entry fl);
    shown = omega arith;
  }

  push_history-IsDashboard :
      (d : DashboardState F64) → IsDashboard d → IsDashboard (push_history fl d)
  unfolding push_history
  push_history-IsDashboard d v = record {
    ring = push-IsRing fl d.inference_hist d.inference_us v.ring;
    entries = v.entries;
    shown = v.shown;
  }

  tick_tui-IsDashboard :
      (s : SharedState F64) (last since now height : ℕ)
      → IsDashboard s.state
      → IsDashboard (tick_tui fl s last since now height).0.state
  unfolding tick_tui
  tick_tui-IsDashboard s last since now height v = elim (Bool-cases (leb 500_000_000 since)) [
    | inl due ↦ elim (Bool-cases s.is_poisoned) [
      | inl bad ↦ rw (due, bad) v
      | inr good ↦ rw (due, good) (push_history-IsDashboard s.state v)
    ]
    | inr early ↦ rw early v
  ]

  draw-some :
      (d : DashboardState F64) (height : ℕ) (gs : List Gauge) (c : LatencyChart F64)
      → IsDashboard d
      → draw_classification d.metrics ≡ some gs
      → draw_latency_chart fl d.inference_hist ≡ some c
      → draw fl d height ≡ drawn_of fl d height (some gs) (some c)
  unfolding draw
  draw-some d height gs c v e f =
      let fits : ltb (length d.watchlist_entries) d.wall_len ≡ false =
        ground (arith, v.entries, v.shown) in
      rw (fits, e, f) refl

module _ {F32 F64 : Type 0} (fp : Floats F32 F64) where
  length-fill_watchlist :
      (ws : List (WallEntry F64)) (actors : List (ShameEntry F32))
      → length (fill_watchlist fp ws actors) ≡ length ws
  length-fill_watchlist [] actors = refl
  length-fill_watchlist (w ∷ ws) [] = refl
  length-fill_watchlist (w ∷ ws) (a ∷ actors) = ap suc (length-fill_watchlist ws actors)

  take-fill_watchlist :
      (ws : List (WallEntry F64)) (actors : List (ShameEntry F32))
      → length actors ≤ length ws
      → take (length actors) (fill_watchlist fp ws actors) ≡ map (wall_entry fp) actors
  take-fill_watchlist ws [] h = refl
  take-fill_watchlist [] (a ∷ actors) h = absurd (omega arith)
  take-fill_watchlist (w ∷ ws) (a ∷ actors) h =
      ap (λ es. wall_entry fp a ∷ es) (take-fill_watchlist ws actors (omega arith))

  -- The state that `update_tui` writes under the lock.
  abbrev pub updated : Scheduler F32 → Metrics → DashboardState F64 → DashboardState F64
  updated s m d =
      set_watchlist fp.double (record d { metrics = m; inference_us = avg_us fp s })
        (fill_watchlist fp (replicate shame_max (zero_entry fp.double))
          (worst_actors fp.single s.trust))
        (length (worst_actors fp.single s.trust))

  updated-IsDashboard :
      (s : Scheduler F32) (m : Metrics) (d : DashboardState F64)
      → IsDashboard d
      → IsDashboard (updated s m d)
  unfolding set_watchlist
  updated-IsDashboard s m d v =
      let zeros : List (WallEntry F64) = replicate shame_max (zero_entry fp.double) in
      record {
        ring = v.ring;
        entries =
            length-fill_watchlist zeros (worst_actors fp.single s.trust)
            ∙ length-replicate shame_max (zero_entry fp.double);
        shown = omega arith;
      }

  -- What a step of the program does to the dashboard: `update_tui`, or `tick_tui` with what the clock
  -- said.
  pub data DashboardStep : SharedState F64 → SharedState F64 → Type 0 where
    updates :
        (s : Scheduler F32) (m : Metrics) (a b : SharedState F64)
        → update_tui fp s m (some a) ≡ some b
        → DashboardStep a b
    ticks :
        (a : SharedState F64) (last since now height : ℕ)
        → DashboardStep a (tick_tui fp.double a last since now height).0

  pub data Reaches (a : SharedState F64) : SharedState F64 → Type 0 where
    here : Reaches a a
    after : (b c : SharedState F64) → Reaches a b → DashboardStep b c → Reaches a c

  pub update_tui-some :
      (s : Scheduler F32) (m : Metrics) (a : SharedState F64)
      → update_tui fp s m (some a) ≡ some (with_lock a (updated s m))
  unfolding update_tui
  update_tui-some s m a = refl

  with_lock-IsDashboard :
      (s : Scheduler F32) (m : Metrics) (a : SharedState F64)
      → IsDashboard a.state
      → IsDashboard (with_lock a (updated s m)).state
  with_lock-IsDashboard s m a v = elim (Bool-cases a.is_poisoned) [
    | inl bad ↦ rw bad v
    | inr good ↦ rw good (updated-IsDashboard s m a.state v)
  ]

  DashboardStep-IsDashboard :
      (a b : SharedState F64) → IsDashboard a.state → DashboardStep a b → IsDashboard b.state
  DashboardStep-IsDashboard _ _ v (updates s m a b e) =
      let same : with_lock a (updated s m) ≡ b =
        some-injective (with_lock a (updated s m)) b (sym (update_tui-some s m a) ∙ e) in
      subst (λ c. IsDashboard c.state) same (with_lock-IsDashboard s m a v)
  DashboardStep-IsDashboard _ _ v (ticks a last since now height) =
      tick_tui-IsDashboard fp.double a last since now height v

  Reaches-IsDashboard :
      (a b : SharedState F64) → IsDashboard a.state → Reaches a b → IsDashboard b.state
  Reaches-IsDashboard a _ v here = v
  Reaches-IsDashboard a _ v (after b c r st) =
      DashboardStep-IsDashboard b c (Reaches-IsDashboard a b v r) st

  -- After any sequence of `update_tui` and `tick_tui` from `new_shared_state`, `draw` does not panic
  -- while a hundred times the number of classified events fits a `u64`: no slice, no array and no
  -- length of a bar is out of bounds.
  pub draw-reached :
      (m : Metrics) (b : SharedState F64) (height : ℕ)
      → Reaches (new_shared_state fp.double m) b
      → (b.state.metrics.nr_interactive + b.state.metrics.nr_compute + b.state.metrics.nr_iowait
            + b.state.metrics.nr_realtime)
          * 100
        < 2 ^ 64
      → (f : Drawn F64) × (draw fp.double b.state height ≡ some f)
  draw-reached m b height r h =
      let v : IsDashboard b.state =
        Reaches-IsDashboard (new_shared_state fp.double m) b (default_state-IsDashboard fp.double m)
          r in
      let (gs, e, ok_gauges) = draw_classification-AreGauges b.state.metrics h in
      (
        _,
        draw-some fp.double b.state height gs _ v e
            (draw_latency_chart-numbered fp.double b.state.inference_hist v.ring),
      )

  -- After `update_tui` on a state that is not poisoned the entries that `draw` is given are the
  -- worst actors of the trust table in their order, the metrics are those handed over, the latency
  -- is the scheduler's average, and the history is as it was.
  pub update_tui-watchlist :
      (s : Scheduler F32) (m : Metrics) (a b : SharedState F64)
      → a.is_poisoned ≡ false
      → update_tui fp s m (some a) ≡ some b
      → (take b.state.wall_len b.state.watchlist_entries
          ≡ map (wall_entry fp) (worst_actors fp.single s.trust))
        × (b.state.metrics ≡ m)
        × (b.state.inference_us ≡ avg_us fp s)
        × (b.state.inference_hist ≡ a.state.inference_hist)
  unfolding set_watchlist
  update_tui-watchlist s m a b good e =
      let actors = worst_actors fp.single s.trust in
      let zeros : List (WallEntry F64) = replicate shame_max (zero_entry fp.double) in
      let few : length actors ≤ shame_max = worst_actors_bound fp.single s.trust in
      let same : b ≡ record a { state = updated s m a.state } =
        some-injective b (record a { state = updated s m a.state })
          (sym e ∙ update_tui-some s m a ∙ rw good refl) in
      let all : min (length actors) shame_max ≡ length actors = omega (arith, few) in
      rw same (
        ap (λ n. take n (fill_watchlist fp zeros actors)) all
            ∙ take-fill_watchlist zeros actors
                (omega (arith, few, length-replicate shame_max (zero_entry fp.double))),
        refl,
        refl,
        refl,
      )
