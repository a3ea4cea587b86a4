-- ===== src/Program.antt =====
-- The parts of src/main.rs that hold the program together: the loop of `run` with its statistics
-- client and its dashboard, the start and the end of a scheduler's terminal, and the loop of `main`.
pub mod Observers
pub mod Sound
pub mod Endings
pub mod Session
pub mod MainLoop
pub mod ExitCode
pub mod Tests
use scx_cognis.Base.{
  ℕ, zero, suc, ◌+◌, Bool, true, false, not, ◌&&◌, ◌||◌, Option, none, some, List, [], ◌∷◌, ◌++◌,
  leb, if◌then◌else◌,
}
use scx_cognis.Bpf.{BssData}
use scx_cognis.Floats.{Floats}
use scx_cognis.Scheduler.Housekeeping.{
  drain_exited_tasks, elapsed, housekeeping, has_userspace_work,
}
use scx_cognis.Scheduler.Pipeline.{schedule}
use scx_cognis.Scheduler.Types.{Scheduler, now_ns}
use scx_cognis.Stats.{Metrics, Monitor, get_metrics}
use scx_cognis.Tui.Dashboard.{
  SharedState, Drawn, TerminalEvent, update_tui, tick_tui, poll_tui_quit,
}

-- The scheduler, with the fields of `Scheduler` that the statistics and the terminal use, the time
-- of the last housekeeping, and what was sent to the client and drawn, the newest last. A frame of
-- `none` is a panic.
pub record Running (F32 F64 : Type 0) : Type 0 where
  pub sched : Scheduler F32
  pub last_housekeeping : ℕ
  pub monitor : Monitor
  pub has_stats_server : Bool
  pub stats_channel_failed : Bool
  pub tui_state : Option (SharedState F64)
  pub has_term : Bool
  pub tui_quit : Bool
  pub last_tui_render : ℕ
  pub last_tui_hist : ℕ
  pub sent : List Metrics
  pub frames : List (Option (Drawn F64))

-- What the environment does in a turn: the two parts of `exited`; whether a client's request is
-- there and its answer is taken; the pending key presses; the major page faults of the process at
-- the two places where they are read; the height of the watchlist; and the counters as BPF, which
-- writes them at any time, leaves them before the turn and after its scheduling.
pub record TurnInput : Type 0 where
  pub shutdown : Bool
  pub uei_exited : Bool
  pub request : Bool
  pub answer_taken : Bool
  pub events : List TerminalEvent
  pub faults_at_request : ℕ
  pub faults_at_render : ℕ
  pub height : ℕ
  pub counters : BssData
  pub counters_after_work : BssData

-- `BpfScheduler::exited`
abbrev pub exited : TurnInput → Bool
exited i = i.shutdown || i.uei_exited

-- How a run ends: because BPF exited, because the user quit, or not yet.
pub data RunEnd : Type 0 where
  bpf_exited user_quit not_yet : RunEnd

module _ {F32 F64 : Type 0} (fp : Floats F32 F64) (clock : ℕ → ℕ) where
  -- What BPF writes to the counters that `bss_data` shares.
  abbrev pub bpf_writes : BssData → Running F32 F64 → Running F32 F64
  bpf_writes counters p = record p {
    sched = record p.sched { bpf = record p.sched.bpf { bss = counters } };
  }

  -- The scheduling and the draining of exits.
  unfoldable pub work : Running F32 F64 → Running F32 F64
  work p =
      let s = if has_userspace_work fp clock p.sched then schedule fp clock p.sched else p.sched in
      record p { sched = drain_exited_tasks fp clock 128 s }

  -- `get_metrics` and `update_tui` after it.
  unfoldable pub refresh : Running F32 F64 → (page_faults : ℕ) → Metrics × Running F32 F64
  refresh p page_faults =
      let (m, w, s) = get_metrics fp clock p.monitor p.sched page_faults in
      (m, record p { sched = s; monitor = w; tui_state = update_tui fp s m p.tui_state })

  -- The answer to a request of the statistics' client.
  unfoldable pub serve_stats : TurnInput → Running F32 F64 → Running F32 F64
  serve_stats i p =
      let (m, p') = refresh p i.faults_at_request in
      if p.has_stats_server && (not p.stats_channel_failed && i.request)
      then if i.answer_taken
        then record p' { sent = p'.sent ++ m ∷ [] }
        else record p' { stats_channel_failed = true }
      else p

  unfoldable pub keep_house : Running F32 F64 → Running F32 F64
  keep_house p =
      let (since, s) = elapsed fp clock p.last_housekeeping p.sched in
      let (now, s') = now_ns clock s in
      if leb 50_000_000 since
      then record p { sched = housekeeping fp clock s'; last_housekeeping = now }
      else record p { sched = s }

  abbrev pub add_frame :
      List (Option (Drawn F64)) → Option (Option (Drawn F64)) → List (Option (Drawn F64))
  add_frame frames none = frames
  add_frame frames (some f) = frames ++ f ∷ []

  -- `tick_tui`, where the dashboard has a state; it reads the clock a second time when the history
  -- is due.
  unfoldable pub tick_dashboard :
      TurnInput → Running F32 F64 → Option (SharedState F64) → Running F32 F64
  tick_dashboard i p none = p
  tick_dashboard i p (some shared) =
      let (since, s) = elapsed fp clock p.last_tui_hist p.sched in
      let (now, s') = now_ns clock s in
      let (shared', hist, frame) = tick_tui fp.double shared p.last_tui_hist since now i.height in
      record p {
        sched = if leb 500_000_000 since then s' else s;
        tui_state = some shared';
        last_tui_hist = hist;
        frames = add_frame p.frames frame;
      }

  -- The state once the keys are polled and the time since the last frame is read.
  abbrev pub polled : TurnInput → Running F32 F64 → Running F32 F64
  polled i p = record p {
    sched = (elapsed fp clock p.last_tui_render p.sched).1;
    tui_quit = p.tui_quit || (poll_tui_quit i.events).0;
  }

  -- The state of a frame that is due, with fresh metrics.
  unfoldable pub refreshed : TurnInput → Running F32 F64 → Running F32 F64
  refreshed i p =
      let q = polled i p in
      let (now, s) = now_ns clock q.sched in
      (refresh (record q { sched = s; last_tui_render = now }) i.faults_at_render).1

  -- The handling of the terminal, with its limit of ten frames a second.
  unfoldable pub render : TurnInput → Running F32 F64 → Running F32 F64
  render i p =
      let since = (elapsed fp clock p.last_tui_render p.sched).0 in
      let q = refreshed i p in
      if p.has_term
      then if leb 100_000_000 since then tick_dashboard i q q.tui_state else polled i p
      else p

  -- The body of the loop of `run`, with what BPF writes meanwhile; its sleep is part of what the clock
  -- says.
  unfoldable pub turn : TurnInput → Running F32 F64 → Running F32 F64
  turn i p =
      let q = bpf_writes i.counters_after_work (work (bpf_writes i.counters p)) in
      render i (keep_house (serve_stats i q))

  -- The loop of `run` on what the environment does in its turns.
  unfoldable pub run : List TurnInput → Running F32 F64 → Running F32 F64 × RunEnd
  run [] p = (p, not_yet)
  run (i ∷ is) p =
      let p' = turn i p in
      let rest = run is p' in
      if exited i then (p, bpf_exited) else if p'.tui_quit then (p', user_quit) else rest
