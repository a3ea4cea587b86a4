-- ===== src/Tui/Dashboard.antt =====
-- The state of the dashboard in src/tui/dashboard.rs and what fills it: `push_history`,
-- `set_watchlist`, `tick_tui`, `poll_tui_quit` and `draw`, and `update_tui` of src/main.rs.
pub mod Valid
use scx_cognis.Base.{
  ℕ, zero, suc, ◌+◌, ◌-◌, min, Bool, true, false, ◌||◌, Option, none, some, List, [], ◌∷◌, ltb, leb,
  ◌==◌, if◌then◌else◌, length, take, replicate,
}
use scx_cognis.Floats.{FloatOps, Floats, zero_lit}
use scx_cognis.Scheduler.Types.{Scheduler}
use scx_cognis.Stats.{Metrics}
use scx_cognis.Trust.{Comm, no_comm, ShameEntry, shame_max}
use scx_cognis.Trust.Report.{worst_actors}
use scx_cognis.Tui.Gauges.{WallEntry, Gauge, WallRow, load_pct, draw_classification, draw_watchlist}
use scx_cognis.Tui.History.{HistoryRing, new_ring, push}
use scx_cognis.Tui.History.Chart.{LatencyChart, draw_latency_chart}

pub record DashboardState (F64 : Type 0) : Type 0 where
  pub metrics : Metrics
  pub inference_us : F64
  pub inference_hist : HistoryRing F64
  pub watchlist_entries : List (WallEntry F64)
  pub wall_len : ℕ

-- The state behind its mutex, which a panic under the lock would poison.
pub record SharedState (F64 : Type 0) : Type 0 where
  pub is_poisoned : Bool
  pub state : DashboardState F64

-- `if let Ok(mut s) = state.lock() { .. }`
abbrev pub with_lock :
    {F64 : Type 0} → SharedState F64 → (DashboardState F64 → DashboardState F64) → SharedState F64
with_lock shared f = if shared.is_poisoned then shared else record shared { state = f shared.state }

-- What a frame shows of the state.
pub record Drawn (F64 : Type 0) : Type 0 where
  pub load : ℕ
  pub event_mix : List Gauge
  pub under_10us : Bool
  pub latency : LatencyChart F64
  pub watchlist : List (WallRow F64)

-- The keys that `poll_tui_quit` tells apart, and the other outcomes of a read.
pub data KeyCode : Type 0 where
  char : ℕ → KeyCode
  esc other_key : KeyCode

pub data TerminalEvent : Type 0 where
  key : KeyCode → TerminalEvent
  other_event read_error : TerminalEvent

abbrev pub is_quit : TerminalEvent → Bool
is_quit (key (char c)) = c == 113
is_quit (key esc) = true
is_quit (key other_key) = false
is_quit other_event = false
is_quit read_error = false

-- `poll_tui_quit`, with the events that are pending; it returns those it leaves.
unfoldable pub poll_tui_quit : List TerminalEvent → Bool × List TerminalEvent
poll_tui_quit [] = (false, [])
poll_tui_quit (e ∷ es) = let rest = poll_tui_quit es in if is_quit e then (true, es) else rest

module _ {F64 : Type 0} (fl : FloatOps F64) where
  -- `WallEntry::ZERO`
  abbrev pub zero_entry : WallEntry F64
  zero_entry = record { pid = 0; comm = no_comm; trust = zero_lit fl; is_flagged = false }

  unfoldable pub push_history : DashboardState F64 → DashboardState F64
  push_history d = record d { inference_hist = push fl d.inference_hist d.inference_us }

  unfoldable pub set_watchlist : DashboardState F64 → List (WallEntry F64) → ℕ → DashboardState F64
  set_watchlist d entries len = record d {
    watchlist_entries = entries;
    wall_len = min len shame_max;
  }

  -- `DashboardState::default`, with the default metrics.
  abbrev pub default_state : Metrics → DashboardState F64
  default_state metrics = record {
    metrics = metrics;
    inference_us = zero_lit fl;
    inference_hist = new_ring fl;
    watchlist_entries = replicate shame_max zero_entry;
    wall_len = 0;
  }

  -- `new_shared_state`
  abbrev pub new_shared_state : Metrics → SharedState F64
  new_shared_state metrics = record { is_poisoned = false; state = default_state metrics }

  abbrev drawn_of :
      DashboardState F64 → ℕ → Option (List Gauge) → Option (LatencyChart F64) → Option (Drawn F64)
  drawn_of d height none chart = none
  drawn_of d height (some gauges) none = none
  drawn_of d height (some gauges) (some chart) = some (record {
    load = load_pct d.metrics;
    event_mix = gauges;
    under_10us = fl.lt d.inference_us (fl.lit 10 0);
    latency = chart;
    watchlist = draw_watchlist fl height (take d.wall_len d.watchlist_entries);
  })

  -- `draw`, with the height of the watchlist's area; `none` is a panic, also that of the slice of the
  -- entries.
  unfoldable pub draw : DashboardState F64 → (height : ℕ) → Option (Drawn F64)
  draw d height =
      if ltb (length d.watchlist_entries) d.wall_len
      then none
      else drawn_of d height (draw_classification d.metrics)
          (draw_latency_chart fl d.inference_hist)

  -- `tick_tui`, with the time since `last_hist` and the reading of the clock after it, and whether a
  -- frame was drawn: a poisoned lock draws none.
  unfoldable pub tick_tui :
      SharedState F64
      → (last_hist since now height : ℕ) → SharedState F64 × ℕ × Option (Option (Drawn F64))
  tick_tui shared last_hist since now height =
      let due = leb 500_000_000 since in
      let shared' = if due then with_lock shared push_history else shared in
      (
        shared',
        if due then now else last_hist,
        if shared'.is_poisoned then none else some (draw shared'.state height),
      )

module _ {F32 F64 : Type 0} (fp : Floats F32 F64) where
  -- The body of the loop of `update_tui`.
  abbrev pub wall_entry : ShameEntry F32 → WallEntry F64
  wall_entry e = record {
    pid = e.pid;
    comm = e.comm;
    trust = fp.widen e.trust;
    is_flagged = e.is_flagged;
  }

  -- `for (dst, src) in watchlist.iter_mut().zip(actors)`
  abbrev pub fill_watchlist : List (WallEntry F64) → List (ShameEntry F32) → List (WallEntry F64)
  fill_watchlist [] actors = []
  fill_watchlist (w ∷ ws) [] = w ∷ ws
  fill_watchlist (w ∷ ws) (a ∷ actors) = wall_entry a ∷ fill_watchlist ws actors

  abbrev pub avg_us : Scheduler F32 → F64
  avg_us s =
      let fl = fp.double in
      if ltb 0 s.inference_samples
      then fl.div (fl.div (fl.of_u64 s.total_inference_ns) (fl.of_u64 s.inference_samples))
          (fl.lit 1_000 0)
      else zero_lit fl

  -- `update_tui`
  unfoldable pub update_tui :
      Scheduler F32 → Metrics → Option (SharedState F64) → Option (SharedState F64)
  update_tui s metrics none = none
  update_tui s metrics (some shared) =
      let actors = worst_actors fp.single s.trust in
      let watchlist = fill_watchlist (replicate shame_max (zero_entry fp.double)) actors in
      let update : DashboardState F64 → DashboardState F64 = λ d.
        set_watchlist fp.double (record d { metrics = metrics; inference_us = avg_us s }) watchlist
          (length actors) in
      some (with_lock shared update)
