-- ===== src/Classifier/Tests.antt =====
-- Examples of the classifier.
use scx_cognis.Base.{◌≡◌, refl}
use scx_cognis.Classifier.{TaskFeatures, compute, real_time, classify}
use scx_cognis.Floats.Fixed.{ℤ, fixed_ops}

-- A task that has used 90 % of its slice, and 10 % of the time since its last sleep.
abbrev busy : TaskFeatures ℤ
busy = record {
  runnable_ratio = fixed_ops.lit 10 2;
  cpu_intensity = fixed_ops.lit 90 2;
  exec_ratio = fixed_ops.lit 10 2;
  weight_norm = fixed_ops.lit 1 2;
  cpu_affinity = fixed_ops.lit 1 0;
}

busy_label : classify fixed_ops busy ≡ compute
unfolding classify
busy_label = refl

-- A kernel thread of the greatest weight with the same load.
abbrev heavy : TaskFeatures ℤ
heavy = record busy { weight_norm = fixed_ops.lit 1 0 }

-- The row of `RealTime`, the last of the table in the documentation, goes before that of `Compute`.
heavy_label : classify fixed_ops heavy ≡ real_time
unfolding classify
heavy_label = refl
