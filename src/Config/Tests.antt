-- ===== src/Config/Tests.antt =====
-- Examples of the options and of the count of failures.
use scx_cognis.Base.{ℕ, ◌≡◌, refl, true, false, none, some, List, [], ◌∷◌}
use scx_cognis.Config.{desktop, Opts, from_opts, enabled_flag_summary, enabled_flags, join_comma}
use scx_cognis.Config.Restart.{
  Failures, runtime_exit_reason, is_watchdog_runtime_exit, all_rapid, trim, trim_start, trim_end,
  occurs_in,
}
use scx_cognis.Scheduler.Features.{codes, starts_with}

abbrev plain : Opts
plain = record {
  slice_us = 0;
  slice_us_min = 0;
  mode = desktop;
  percpu_local = false;
  partial = false;
  exit_dump_len = 0;
  verbose = false;
  tui = false;
  stats = none;
  userspace_fallback = false;
  serve_stats = false;
}

desktop_defaults : from_opts plain ≡ record {
  mode = desktop;
  slice_ns = 1_000_000;
  slice_min_ns = 250_000;
  slice_lag_ns = 40_000_000;
  no_wake_sync = false;
  sticky_tasks = true;
}
unfolding from_opts
desktop_defaults = refl

plain_summary : enabled_flag_summary plain ≡ codes "none"
unfolding enabled_flag_summary enabled_flags
plain_summary = refl

two_flags : enabled_flag_summary (record plain { tui = true; partial = true }) ≡ codes "partial,tui"
unfolding enabled_flag_summary enabled_flags join_comma
two_flags = refl

stall_reason :
    runtime_exit_reason (codes "EXIT: runnable task stall (x) ")
    ≡ some (codes "runnable task stall (x)")
unfolding runtime_exit_reason trim trim_start trim_end starts_with
stall_reason = refl

stall_is_watchdog : is_watchdog_runtime_exit (codes "a runnable task stall") ≡ true
unfolding is_watchdog_runtime_exit occurs_in starts_with
stall_is_watchdog = refl

-- A minimum above the slice.
abbrev raised : Opts
raised = record plain { slice_us = 500; slice_us_min = 700 }

abbrev failed_once : Failures
failed_once = record { rapid_failures = 1; last_failure_at = some 5 }

abbrev two_times : List ℕ
two_times = 10_000_000_000 ∷ 40_000_000_000 ∷ []

near_panics : all_rapid 5 two_times ≡ true
unfolding all_rapid
near_panics = refl

abbrev failed_twenty : Failures
failed_twenty = record { rapid_failures = 20; last_failure_at = some 5 }
