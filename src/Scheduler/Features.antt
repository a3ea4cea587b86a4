-- ===== src/Scheduler/Features.antt =====
-- The pure helpers of src/main.rs that look at one task.
use Prim.Native.String.{String}
use Prim.Native.Char.{code}
use scx_cognis.Base.{
  ℕ, ◌-◌, ◌/◌, max, Bool, true, false, ◌&&◌, ◌||◌, List, [], ◌∷◌, ltb, leb, ◌==◌, if◌then◌else◌,
  sat_add, sat_mul, Option, none, some,
}
use scx_cognis.Bpf.Decode.{QueuedTask}
use scx_cognis.Classifier.{TaskFeatures}
use scx_cognis.Floats.{Floats, zero_lit, one_lit, fclamp}
use scx_cognis.Scheduler.Types.{Task}

unfoldable pub effective_slice_pressure : ℕ → ℕ → ℕ → ℕ
effective_slice_pressure nr_running nr_queued nr_scheduled =
    sat_add (sat_add nr_running nr_queued) nr_scheduled

unfoldable pub recent_sleep_gap_ns : ℕ → ℕ → ℕ
recent_sleep_gap_ns prev_stop_ts current_start_ts =
    if prev_stop_ts == 0 then 0 else current_start_ts - prev_stop_ts

unfoldable pub scale_by_weight_inverse : ℕ → ℕ → ℕ
scale_by_weight_inverse weight value = sat_mul value 100 / max weight 1

abbrev pub codes : String → List ℕ
codes String.[] = []
codes (String.◌∷◌ c s) = code c ∷ codes s

-- The bytes before the first NUL.
unfoldable pub until_nul : List ℕ → List ℕ
until_nul [] = []
until_nul (b ∷ bytes) = let rest = until_nul bytes in if b == 0 then [] else b ∷ rest

unfoldable pub contains : ℕ → List ℕ → Bool
contains c [] = false
contains c (b ∷ bytes) = b == c || contains c bytes

unfoldable pub starts_with : List ℕ → List ℕ → Bool
starts_with [] bytes = true
starts_with (p ∷ ps) [] = false
starts_with (p ∷ ps) (b ∷ bytes) = b == p && starts_with ps bytes

unfoldable pub starts_with_any : List (List ℕ) → List ℕ → Bool
unfolding starts_with
starts_with_any [] bytes = false
starts_with_any (p ∷ ps) bytes = starts_with p bytes || starts_with_any ps bytes

abbrev pub kprefixes : List (List ℕ)
kprefixes =
    codes "kswapd"
    ∷ codes "khugepaged"
    ∷ codes "kcompactd"
    ∷ codes "kthreadd"
    ∷ codes "kdevtmpfs"
    ∷ codes "kauditd"
    ∷ codes "kcryptd"
    ∷ codes "kblockd"
    ∷ []

unfoldable pub is_kernel_worker : QueuedTask → Bool
unfolding until_nul contains starts_with_any
is_kernel_worker task =
    let s = until_nul task.comm in contains b'/' s || starts_with_any kprefixes s

unfoldable pub queue_is_starved : Option Task → ℕ → ℕ → Bool
queue_is_starved none now threshold_ns = false
queue_is_starved (some t) now threshold_ns = leb threshold_ns (now - t.timestamp)

module _ {F32 F64 : Type 0} (fp : Floats F32 F64) where
  -- `(n as f64 / d as f64).clamp(0.0, 1.0) as f32`
  abbrev pub fraction : ℕ → ℕ → F32
  fraction n d =
      let fd = fp.double in
      fp.narrow (fclamp fd (fd.div (fd.of_u64 n) (fd.of_u64 d)) (zero_lit fd) (one_lit fd))

  -- `nr_cpus` is an `i32`, by its bit pattern.
  unfoldable pub compute_features : QueuedTask → ℕ → ℕ → ℕ → TaskFeatures F32
  compute_features task base_slice_ns prev_slice_ns nr_cpus =
      let fs = fp.single in
      let burst_ns = task.stop_ts - task.start_ts in
      record {
        runnable_ratio =
            if ltb 0 base_slice_ns then fraction burst_ns base_slice_ns else zero_lit fs;
        cpu_intensity = fraction burst_ns (max prev_slice_ns 1);
        exec_ratio =
            if ltb 0 task.exec_runtime then fraction burst_ns task.exec_runtime else one_lit fs;
        weight_norm =
            fclamp fs (fs.div (fs.of_u64 task.weight) (fs.lit 10_000 0)) (zero_lit fs) (one_lit fs);
        cpu_affinity =
            fclamp fs
              (fs.div (fs.of_u64 task.nr_cpus_allowed) (fs.fmax (fs.of_i32 nr_cpus) (one_lit fs)))
              (zero_lit fs) (one_lit fs);
      }
