-- ===== src/Scheduler/Wake.antt =====
-- The wake-up rules of src/main.rs.
use scx_cognis.Base.{ℕ, ◌/◌, min, max, Bool, ◌&&◌, leb, if◌then◌else◌, clamp}
use scx_cognis.Classifier.{TaskFeatures, TaskLabel}
use scx_cognis.Floats.{FloatOps}
use scx_cognis.Scheduler.Types.{Task, is_wakeful}

abbrev pub wake_boost_min_sleep_ns : ℕ
wake_boost_min_sleep_ns = 750_000

abbrev pub wake_boost_max_sleep_ns : ℕ
wake_boost_max_sleep_ns = 25_000_000

-- `(WAKE_BOOST_MIN_SLEEP_NS..=WAKE_BOOST_MAX_SLEEP_NS).contains(&sleep_ns)`
abbrev pub is_short_sleep : ℕ → Bool
is_short_sleep sleep_ns =
    leb wake_boost_min_sleep_ns sleep_ns && leb sleep_ns wake_boost_max_sleep_ns

-- `a >= b` on floats is `b <= a`.
module _ {F32 : Type 0} (fl : FloatOps F32) where
  unfoldable pub should_wake_boost : Bool → F32 → F32 → ℕ → Bool
  should_wake_boost latency_sensitive exec_ratio cpu_intensity sleep_ns =
      latency_sensitive
      && (is_short_sleep sleep_ns
          && (fl.le (fl.lit 60 2) exec_ratio && fl.le (fl.lit 45 2) cpu_intensity))

  unfoldable pub is_latency_sensitive : TaskLabel → TaskFeatures F32 → ℕ → Bool
  is_latency_sensitive label features sleep_ns =
      is_wakeful label
      && (is_short_sleep sleep_ns
          && (fl.le (fl.lit 55 2) features.exec_ratio
              && fl.le (fl.lit 30 2) features.cpu_intensity))

unfoldable pub should_wake_preempt : Bool → Bool → ℕ → ℕ → Bool
should_wake_preempt wake_boosted latency_sensitive wake_credit_ns queued_ns =
    wake_boosted && (latency_sensitive && (leb 1_000_000 wake_credit_ns && leb queued_ns 6_000_000))

unfoldable pub wake_deadline_credit_ns : Task → ℕ
wake_deadline_credit_ns task =
    if task.wake_boosted then min (max task.wake_credit_ns (task.slice_ns / 2)) 4_000_000 else 0

-- `slice_ns_min` is that of the scheduler.
unfoldable pub interactive_sleep_bonus_ns : ℕ → ℕ → ℕ → ℕ
interactive_sleep_bonus_ns slice_ns_min sleep_ns ref_base =
    if is_short_sleep sleep_ns
    then clamp (sleep_ns / 4) (slice_ns_min / 2) (max ref_base slice_ns_min)
    else 0
