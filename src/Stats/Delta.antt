-- ===== src/Stats/Delta.antt =====
-- What the summary and the difference of the metrics of src/stats.rs say.
use scx_cognis.Base.{
  ℕ, ◌+◌, ◌-◌, ◌*◌, ◌≤◌, ◌<◌, ◌≡◌, refl, ap₂, Bool, true, false, ◌||◌, List, [], ◌∷◌, arith, ltb,
}
use scx_cognis.Floats.{FloatOps}
use scx_cognis.Stats.{
  Metrics, Advice, major_page_faults, dispatch_failures, fallback_active, fallback_congested,
  watchlist_active, tldr, on_load, delta, uptime,
}

-- The counters, of which `delta` takes the difference.
abbrev pub counters : Metrics → List ℕ
counters m =
    m.nr_page_faults ∷ m.nr_user_dispatches ∷ m.nr_kernel_dispatches ∷ m.nr_local_dispatches
    ∷ m.nr_llc_dispatches ∷ m.nr_node_dispatches ∷ m.nr_shared_dispatches ∷ m.nr_xllc_steals
    ∷ m.nr_xnode_steals ∷ m.nr_cancel_dispatches ∷ m.nr_bounce_dispatches ∷ m.nr_failed_dispatches
    ∷ m.nr_sched_congested ∷ m.nr_interactive ∷ m.nr_compute ∷ m.nr_iowait ∷ m.nr_realtime
    ∷ m.nr_unknown ∷ []

abbrev pub sums : List ℕ → List ℕ → List ℕ
sums [] ys = []
sums (x ∷ xs) [] = []
sums (x ∷ xs) (y ∷ ys) = (x + y) ∷ sums xs ys

abbrev pub differences : List ℕ → List ℕ → List ℕ
differences [] ys = []
differences (x ∷ xs) [] = []
differences (x ∷ xs) (y ∷ ys) = (x - y) ∷ differences xs ys

-- No counter has gone back.
abbrev pub Later : List ℕ → List ℕ → Type 0
Later [] ys = Unit
Later (x ∷ xs) [] = 1 ≤ 0
Later (x ∷ xs) (y ∷ ys) = (y ≤ x) × Later xs ys

pub telescope :
    (x y z : List ℕ)
    → Later x y
    → Later y z
    → differences x z ≡ sums (differences x y) (differences y z)
telescope [] y z h k = refl
telescope (a ∷ x) [] z h k = ground arith
telescope (a ∷ x) (b ∷ y) [] h k = refl
telescope (a ∷ x) (b ∷ y) (c ∷ z) h k =
    ap₂ (λ v w. v ∷ w) (omega (arith, h.0, k.0)) (telescope x y z h.1 k.1)

-- Where no counter goes back over three snapshots, what `delta` gives from the first to the
-- third is the sum of what it gives for the two intervals.
pub delta-telescope :
    (m₃ m₂ m₁ : Metrics)
    → Later (counters m₃) (counters m₂)
    → Later (counters m₂) (counters m₁)
    → counters (delta m₃ m₁) ≡ sums (counters (delta m₃ m₂)) (counters (delta m₂ m₁))
unfolding delta
delta-telescope m₃ m₂ m₁ h k = telescope (counters m₃) (counters m₂) (counters m₁) h k

-- The parts of the uptime add up to it, with years of 365 days and months of 30, and each of the
-- lower parts is in its range: there are 12 months at most.
pub uptime-total :
    (n : ℕ)
    → let (years, months, days, hours, minutes, seconds) = uptime n in
      (((years * 365 + months * 30 + days) * 24 + hours) * 60 + minutes) * 60 + seconds ≡ n
      × (months ≤ 12)
      × (days < 30)
      × (hours < 24)
      × (minutes < 60)
      × (seconds < 60)
unfolding uptime
uptime-total n = omega arith

abbrev pub is_alarm : Advice → Bool
is_alarm major_page_faults = true
is_alarm dispatch_failures = true
is_alarm fallback_active = true
is_alarm fallback_congested = true
is_alarm watchlist_active = true
is_alarm advice = false

module _ {F64 : Type 0} (fl : FloatOps F64) where
  -- The summary is one of the five alarms exactly when a page fault, a failed dispatch, work or
  -- congestion in the fallback or a watched pid is counted, whatever the load is.
  pub tldr-is_alarm :
      (m : Metrics)
      → is_alarm (tldr fl m) ≡ (
          ltb 0 m.nr_page_faults
          || (ltb 0 m.nr_failed_dispatches
              || ((ltb 0 m.nr_queued || ltb 0 m.nr_scheduled)
                  || (ltb 0 m.nr_sched_congested
                      || (ltb 0 m.nr_flagged || ltb 0 m.nr_quarantined)))))
  unfolding tldr on_load
  tldr-is_alarm m = ground arith
