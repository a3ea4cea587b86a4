-- ===== src/Trust/Report.antt =====
-- The reports of src/ai/trust.rs on the whole table, and what is derived from a score.
use scx_cognis.Base.{
  ℕ, zero, suc, ◌+◌, Bool, false, ◌&&◌, List, [], ◌∷◌, ◌++◌, ltb, if◌then◌else◌, length, get_or,
  replicate,
}
use scx_cognis.Floats.{FloatOps, Floats, zero_lit, fclamp}
use scx_cognis.Slots.{table_size, pid_empty, is_live}
use scx_cognis.Trust.{TrustTable, ShameEntry, shame_max, trust_threshold, trust_score, no_comm}

-- `slice_factor`, in `f64`.
unfoldable pub slice_factor : {F32 F64 : Type 0} → Floats F32 F64 → TrustTable F32 → ℕ → F64
slice_factor fp t pid =
    let x = trust_score fp.single t pid in
    let d = fp.double in
    if fp.single.le (zero_lit fp.single) x
    then d.lit 1 0
    else fclamp d (d.add (d.lit 1 0) (d.mul (fp.widen x) (d.lit 75 2))) (d.lit 25 2) (d.lit 1 0)

module _ {F32 : Type 0} (fl : FloatOps F32) where
  -- The entry of `worst_actors` for a slot.
  abbrev pub entry_at : TrustTable F32 → ℕ → ShameEntry F32
  entry_at t s = record {
    pid = get_or t.pids s pid_empty;
    trust = get_or t.scores s (zero_lit fl);
    comm = get_or t.comms s no_comm;
    is_flagged = get_or t.flagged s false;
  }

  -- The first entry of `out[..n]` whose trust is greater is overwritten, if there is one.
  unfoldable pub replace_first : ShameEntry F32 → List (ShameEntry F32) → List (ShameEntry F32)
  replace_first e [] = []
  replace_first e (x ∷ xs) = if fl.lt e.trust x.trust then e ∷ xs else x ∷ replace_first e xs

  -- The body of the loop; the list is `out[..n]`.
  unfoldable pub consider : ShameEntry F32 → List (ShameEntry F32) → List (ShameEntry F32)
  unfolding replace_first
  consider e out =
      if is_live e.pid && fl.lt e.trust (trust_threshold fl)
      then if ltb (length out) shame_max then out ++ e ∷ [] else replace_first e out
      else out

  unfoldable pub worst_from : TrustTable F32 → ℕ → ℕ → List (ShameEntry F32) → List (ShameEntry F32)
  worst_from t zero s out = out
  worst_from t (suc n) s out = worst_from t n (s + 1) (consider (entry_at t s) out)

  unfoldable pub worst_actors : TrustTable F32 → List (ShameEntry F32)
  worst_actors t = worst_from t table_size 0 []

  -- The two filters of `quarantined_count` over the zipped arrays.
  unfoldable pub count_below : List ℕ → List F32 → ℕ
  count_below [] scores = 0
  count_below (p ∷ pids) [] = 0
  count_below (p ∷ pids) (x ∷ scores) =
      let rest = count_below pids scores in
      if is_live p && fl.lt x (trust_threshold fl) then suc rest else rest

  unfoldable pub quarantined_count : TrustTable F32 → ℕ
  quarantined_count t = count_below t.pids t.scores

unfoldable pub count_flags : List ℕ → List Bool → ℕ
count_flags [] flags = 0
count_flags (p ∷ pids) [] = 0
count_flags (p ∷ pids) (f ∷ flags) =
    let rest = count_flags pids flags in if is_live p && f then suc rest else rest

unfoldable pub flagged_count : {F32 : Type 0} → TrustTable F32 → ℕ
flagged_count t = count_flags t.pids t.flagged

-- `tick`: no pid is newly flagged.
unfoldable pub tick : {F32 : Type 0} → TrustTable F32 → ℕ → List ℕ × ℕ
tick t now_ns = (replicate 64 0, 0)
