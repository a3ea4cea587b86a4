-- ===== src/Classifier.antt =====
-- src/ai/classifier.rs: the stateless heuristic that labels a task by its features.
pub mod Tests
use scx_cognis.Base.{ℕ, Bool, ◌&&◌, if◌then◌else◌}
use scx_cognis.Floats.{FloatOps}

pub data TaskLabel : Type 0 where
  interactive compute io_wait real_time unknown : TaskLabel

pub record TaskFeatures (F32 : Type 0) : Type 0 where
  pub runnable_ratio : F32
  pub cpu_intensity : F32
  pub exec_ratio : F32
  pub weight_norm : F32
  pub cpu_affinity : F32

unfoldable pub classify : {F32 : Type 0} → FloatOps F32 → TaskFeatures F32 → TaskLabel
classify fl f =
    if fl.lt (fl.lit 95 2) f.weight_norm
    then real_time
    else if fl.lt (fl.lit 85 2) f.cpu_intensity && fl.lt f.exec_ratio (fl.lit 30 2)
    then compute
    else if fl.lt f.cpu_intensity (fl.lit 10 2)
    then io_wait
    else interactive
