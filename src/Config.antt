-- ===== src/Config.antt =====
-- The options of src/main.rs, the profile that `BpfProfile::from_opts` makes of them, and what the
-- command line says of them.
pub mod Restart
pub mod Tests
use scx_cognis.Base.{
  ℕ, ◌*◌, ◌≤◌, ◌<◌, ◌≡◌, refl, ◌⊎◌, inl, inr, u64_max, max, Bool, true, false, ◌||◌, Option, none,
  some, List, [], ◌∷◌, ◌++◌, arith, ltb, if◌then◌else◌, sat_mul, is_some,
}
use scx_cognis.Scheduler.Features.{codes}
use scx_cognis.Scheduler.Types.{nsec_per_usec}

pub data SchedulerMode : Type 0 where
  desktop server : SchedulerMode

-- `as_str`
abbrev pub as_str : SchedulerMode → List ℕ
as_str desktop = codes "desktop"
as_str server = codes "server"

-- Of the options, those of libbpf and those that end the program at once are left out. An interval
-- in seconds, an `f64`, is given by its bit pattern.
pub record Opts : Type 0 where
  pub slice_us : ℕ
  pub slice_us_min : ℕ
  pub mode : SchedulerMode
  pub percpu_local : Bool
  pub partial : Bool
  pub exit_dump_len : ℕ
  pub verbose : Bool
  pub tui : Bool
  pub stats : Option ℕ
  pub userspace_fallback : Bool
  pub serve_stats : Bool

pub record BpfProfile : Type 0 where
  pub mode : SchedulerMode
  pub slice_ns : ℕ
  pub slice_min_ns : ℕ
  pub slice_lag_ns : ℕ
  pub no_wake_sync : Bool
  pub sticky_tasks : Bool

-- The default slice, least slice and lag of a mode, and its two flags.
abbrev pub defaults : SchedulerMode → ℕ × ℕ × ℕ × Bool × Bool
defaults desktop = (1_000_000, 250_000, 40_000_000, false, true)
defaults server = (8_000_000, 1_000_000, 1_500_000, true, false)

unfoldable pub from_opts : Opts → BpfProfile
from_opts opts =
    let (default_slice_ns, default_min_ns, default_lag_ns, no_wake_sync, sticky_tasks) =
      defaults opts.mode in
    let slice_ns =
      if ltb 0 opts.slice_us then sat_mul opts.slice_us nsec_per_usec else default_slice_ns in
    let slice_min_ns =
      if ltb 0 opts.slice_us_min then sat_mul opts.slice_us_min nsec_per_usec else default_min_ns in
    record {
      mode = opts.mode;
      slice_ns = max slice_ns slice_min_ns;
      slice_min_ns = slice_min_ns;
      slice_lag_ns = default_lag_ns;
      no_wake_sync = no_wake_sync;
      sticky_tasks = sticky_tasks;
    }

-- `is_server`
abbrev pub is_server : BpfProfile → Bool
is_server p = elim p.mode [ desktop ↦ false | server ↦ true ]

-- The `push` of a flag's name under its test.
abbrev pub flag : Bool → List ℕ → List (List ℕ) → List (List ℕ)
flag b name rest = if b then name ∷ rest else rest

-- `join(",")`
unfoldable pub join_comma : List (List ℕ) → List ℕ
join_comma [] = []
join_comma (x ∷ []) = x
join_comma (x ∷ y ∷ rest) = x ++ (44 ∷ join_comma (y ∷ rest))

unfoldable pub enabled_flags : Opts → List (List ℕ)
enabled_flags opts = flag opts.partial (codes "partial") (
    flag opts.percpu_local (codes "percpu_local") (
      flag opts.verbose (codes "verbose") (
        flag opts.tui (codes "tui") (
          flag (is_some opts.stats) (codes "stats") (
            flag opts.userspace_fallback (codes "userspace_fallback")
              (flag opts.serve_stats (codes "serve_stats") []))))))

abbrev pub summary : List (List ℕ) → List ℕ
summary [] = codes "none"
summary (x ∷ rest) = join_comma (x ∷ rest)

unfoldable pub enabled_flag_summary : Opts → List ℕ
enabled_flag_summary opts = summary (enabled_flags opts)

unfoldable pub should_launch_stats_server : Opts → Bool
should_launch_stats_server opts = opts.serve_stats || (is_some opts.stats || opts.tui)

mode-cases : (m : SchedulerMode) → (m ≡ desktop) ⊎ (m ≡ server)
mode-cases desktop = inl refl
mode-cases server = inr refl

-- The slice of a profile is not below its least slice, which is positive, and both fit into 64
-- bits, whatever the options are.
pub from_opts-bounds :
    (opts : Opts)
    → (0 < (from_opts opts).slice_min_ns)
      × ((from_opts opts).slice_min_ns ≤ (from_opts opts).slice_ns)
      × ((from_opts opts).slice_ns ≤ u64_max)
unfolding from_opts
from_opts-bounds opts = elim (mode-cases opts.mode) [
  | inl e ↦ rw e (ground arith)
  | inr e ↦ rw e (ground arith)
]
