-- ===== src/Program/Tests.antt =====
-- Concrete inputs for the theorems on the loops of `run` and `main` of src/main.rs.
use scx_cognis.Base.{
  ◌⊎◌, inr, ℕ, zero, suc, ◌+◌, ◌≤◌, ◌≡◌, refl, Bool, true, false, some, List, [], ◌∷◌, arith,
}
use scx_cognis.Bpf.OpsName.Tests.{always, punctual}
use scx_cognis.Config.Restart.{normally, with_error, after_run, runtime_exit_reason, all_rapid}
use scx_cognis.Floats.Fixed.{ℤ, fixed}
use scx_cognis.Program.{Running, TurnInput, user_quit, serve_stats, render, turn, run}
use scx_cognis.Program.Endings.{run-quit}
use scx_cognis.Program.ExitCode.{Fails, panic_count, main_loop-exit_one}
use scx_cognis.Program.MainLoop.{
  Round, exited_with, returned_error, main_loop, no_failures, panicking, main_loop-panics,
}
use scx_cognis.Program.Observers.{IsWatched, observers-IsWatched}
use scx_cognis.Program.Session.{start_terminal, drop_scheduler, drop-is_raw}
use scx_cognis.Program.Sound.{run-IsSound, init-run-IsSound}
use scx_cognis.Scheduler.Features.{starts_with}
use scx_cognis.Scheduler.Hold.{TaskLists}
use scx_cognis.Scheduler.Invariant.{IsSound}
use scx_cognis.Scheduler.Tests.{
  clock, start, start-IsSound, no_tasks, desktop_profile, quiet_bss, one_queued,
}
use scx_cognis.Scheduler.Runs.{init}
use scx_cognis.Scheduler.Types.{Scheduler}
use scx_cognis.Tui.Dashboard.{key, esc, other_event}
use scx_cognis.Tui.Terminal.Life.{recording, recorded, NotRaw}
use scx_cognis.Tui.Tests.{fresh, no_screen, no_screen-IsTerminal, cooked}

-- A loop at its start, with a server and a terminal or without.
abbrev loop_with : Bool → Bool → Running ℤ ℤ
loop_with both failed = record {
  sched = start;
  last_housekeeping = 0;
  monitor = record { init_page_faults = 0; start_time = 0; profile = desktop_profile };
  has_stats_server = both;
  stats_channel_failed = failed;
  tui_state = some fresh;
  has_term = both;
  tui_quit = false;
  last_tui_render = 0;
  last_tui_hist = 0;
  sent = [];
  frames = [];
}

-- A request whose answer is taken, and Esc.
abbrev esc_pressed : TurnInput
esc_pressed = record {
  shutdown = false;
  uei_exited = false;
  request = true;
  answer_taken = true;
  events = other_event ∷ key esc ∷ [];
  faults_at_request = 3;
  faults_at_render = 3;
  height = 12;
  counters = record quiet_bss { nr_queued = 3 };
  counters_after_work = record quiet_bss { nr_queued = 2; nr_running = 9 };
}

observers-IsWatched_example :
    IsWatched (loop_with true false) (serve_stats fixed clock esc_pressed (loop_with true false))
    × IsWatched (loop_with true true) (render fixed clock esc_pressed (loop_with true true))
observers-IsWatched_example =
    observers-IsWatched fixed clock esc_pressed esc_pressed (loop_with true false)
      (loop_with true true)

init-run-IsSound_example :
    (s : Scheduler ℤ) × (init fixed clock one_queued desktop_profile false ≡ some s)
    × ((l : TaskLists) × IsSound
          (run fixed clock (esc_pressed ∷ []) (record (loop_with true false) { sched = s })).0.sched
          l
          1_000_000)
init-run-IsSound_example =
    init-run-IsSound fixed clock one_queued desktop_profile false (esc_pressed ∷ [])
      (loop_with true false)

run-IsSound_example :
    (l : TaskLists) × IsSound
      (run fixed clock (esc_pressed ∷ esc_pressed ∷ []) (loop_with true false)).0.sched
      l
      1_000_000
run-IsSound_example =
    run-IsSound fixed clock 1_000_000 (esc_pressed ∷ esc_pressed ∷ []) (loop_with true false)
      no_tasks start-IsSound

run-quit_example :
    run fixed clock (esc_pressed ∷ esc_pressed ∷ []) (loop_with true false)
    ≡ (turn fixed clock esc_pressed (loop_with true false), user_quit)
run-quit_example =
    run-quit fixed clock esc_pressed (esc_pressed ∷ []) (loop_with true false) (key esc)
      (other_event ∷ []) [] refl refl (inr refl) refl

drop-is_raw_example :
    NotRaw
      (λ s. s)
      (drop_scheduler
        (recording no_screen)
        (start_terminal (recording no_screen) true (recorded cooked)).1
        (start_terminal (recording no_screen) true (recorded cooked)).0
        always
        punctual).0
drop-is_raw_example =
    drop-is_raw no_screen (λ s. s) true cooked always punctual no_screen-IsTerminal refl refl

-- A panic every second.
abbrev seconds : ℕ → ℕ → List ℕ
seconds zero now = []
seconds (suc n) now = now ∷ seconds n (now + 1_000_000_000)

seconds-rapid : all_rapid 0 (seconds 20 1_000_000_000) ≡ true
unfolding all_rapid
seconds-rapid = refl

main_loop-panics_example :
    main_loop no_failures (panicking (0 ∷ seconds 20 1_000_000_000)) ≡ some (exited_with 1)
main_loop-panics_example = main_loop-panics 0 (seconds 20 1_000_000_000) seconds-rapid (omega arith)

-- A restart that BPF asks for, and a round that fails.
abbrev failing : List Round
failing =
    record { shutdown = false; ended = normally true; exec_fails = false }
    ∷ record { shutdown = false; ended = with_error (110 ∷ []); exec_fails = false }
    ∷ []

failing-returns : main_loop no_failures failing ≡ some (returned_error (110 ∷ []))
unfolding main_loop after_run runtime_exit_reason starts_with
failing-returns = refl

main_loop-exit_one_example :
    (21 ≤ 0 + panic_count failing)
    ⊎ ((text : List ℕ) × (returned_error (110 ∷ []) ≡ returned_error text) × Fails text failing)
main_loop-exit_one_example =
    main_loop-exit_one no_failures failing (returned_error (110 ∷ [])) failing-returns refl
