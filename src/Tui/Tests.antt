-- ===== src/Tui/Tests.antt =====
-- Concrete inputs for the theorems on the dashboard of src/tui/dashboard.rs.
use scx_cognis.Base.{
  ◌⊎◌, ◌+◌, ◌*◌, ◌^◌, ◌<◌, ◌≡◌, refl, Bool, true, false, some, List, [], ◌∷◌, map, arith, take,
}
use scx_cognis.Floats.Fixed.{ℤ, fixed_ops, fixed}
use scx_cognis.Scheduler.Runs.{init_with}
use scx_cognis.Scheduler.Tests.{clock, one_queued, desktop_profile, empty_queue}
use scx_cognis.Scheduler.Types.{Scheduler}
use scx_cognis.Stats.Tests.{all_at}
use scx_cognis.Trust.Report.{worst_actors}
use scx_cognis.Tui.Dashboard.{
  SharedState, Drawn, new_shared_state, draw, tick_tui, wall_entry, avg_us, with_lock, push_history,
}
use scx_cognis.Tui.Dashboard.Valid.{
  here, after, ticks, updated, update_tui-some, draw-reached, update_tui-watchlist,
}
use scx_cognis.Tui.Gauges.{
  Gauge, AreGauges, event_total, draw_classification, draw_classification-AreGauges,
}
use scx_cognis.Tui.Terminal.{TerminalOps, Tty, setup_terminal, emergency_restore_terminal}
use scx_cognis.Tui.Terminal.Life.{
  IsTerminal, recording, recorded, NotRaw, none_yet, and_then, setup, emergency-restores,
}

draw_classification-AreGauges_example :
    (gs : List Gauge) × (draw_classification (all_at 4) ≡ some gs)
    × AreGauges (event_total (all_at 4)) (4 ∷ 4 ∷ 4 ∷ 4 ∷ []) gs
draw_classification-AreGauges_example = draw_classification-AreGauges (all_at 4) (omega arith)

abbrev pub fresh : SharedState ℤ
fresh = new_shared_state fixed_ops (all_at 4)

-- A tick after 600 ms.
abbrev ticked : SharedState ℤ
ticked = (tick_tui fixed_ops fresh 0 600_000_000 700_000_000 10).0

ticked_small :
    (ticked.state.metrics.nr_interactive + ticked.state.metrics.nr_compute
        + ticked.state.metrics.nr_iowait + ticked.state.metrics.nr_realtime)
      * 100
    < 2 ^ 64
unfolding tick_tui push_history
ticked_small = omega arith

draw-reached_example : (f : Drawn ℤ) × (draw fixed_ops ticked.state 10 ≡ some f)
draw-reached_example =
    draw-reached fixed (all_at 4) ticked 10
      (after fresh ticked here (ticks fresh 0 600_000_000 700_000_000 10)) ticked_small

abbrev pub started : Scheduler ℤ
started = init_with fixed clock one_queued desktop_profile true empty_queue

abbrev refreshed : SharedState ℤ
refreshed = with_lock fresh (updated fixed started (all_at 5))

update_tui-watchlist_example :
    (take refreshed.state.wall_len refreshed.state.watchlist_entries
      ≡ map (wall_entry fixed) (worst_actors fixed_ops started.trust))
    × (refreshed.state.metrics ≡ all_at 5)
    × (refreshed.state.inference_us ≡ avg_us fixed started)
    × (refreshed.state.inference_hist ≡ fresh.state.inference_hist)
update_tui-watchlist_example =
    update_tui-watchlist fixed started (all_at 5) fresh refreshed refl
      (update_tui-some fixed started (all_at 5) fresh)

-- A terminal whose alternate screen cannot be entered; the state is whether it is in raw mode.
abbrev pub no_screen : TerminalOps Bool
no_screen = record {
  enable_raw_mode = λ s. (true, true);
  disable_raw_mode = λ s. (false, true);
  enter = λ s. (s, false);
  leave = λ s. (s, false);
  flush = λ s. (s, true);
  new_terminal = λ s. (s, true);
  show_cursor = λ s. (s, true);
}

pub no_screen-IsTerminal : IsTerminal no_screen (λ s. s)
no_screen-IsTerminal = record {
  enable_fails = λ s e. absurd (ground arith);
  disable_off = λ s e. refl;
  enter_keeps = λ s. refl;
  leave_keeps = λ s. refl;
  flush_keeps = λ s. refl;
  new_terminal_keeps = λ s. refl;
  show_cursor_keeps = λ s. refl;
}

abbrev pub cooked : Tty Bool
cooked = record { screen = false; is_active = false }

-- The terminal after a set-up whose alternate screen cannot be entered.
abbrev failed_setup : Tty (Bool × Bool)
failed_setup = (setup_terminal (recording no_screen) (recorded cooked)).0

emergency-restores_example :
    ((failed_setup.is_active ≡ true) ⊎ NotRaw (λ s. s) failed_setup)
    × NotRaw (λ s. s) (emergency_restore_terminal (recording no_screen) failed_setup)
emergency-restores_example =
    emergency-restores no_screen (λ s. s) cooked failed_setup no_screen-IsTerminal refl
      (and_then (recorded cooked) failed_setup none_yet (setup (recorded cooked)))
