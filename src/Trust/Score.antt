-- ===== src/Trust/Score.antt =====
-- The trust score of src/ai/trust.rs stays between -1 and 1.
use scx_cognis.Base.{
  ℕ, ◌-◌, ◌≤◌, ◌^◌, ◌≡◌, Bool, true, false, not, ◌&&◌, arith, if◌then◌else◌, ltb, Option, none,
  some, List, All, All-set, All-replicate, All-get_or,
}
use scx_cognis.Slots.{table_size, pid_tombstone, find_slot, Place, found, fresh, place}
use scx_cognis.Floats.{FloatOps, IsOrdered, IsRounding, Le, zero_lit, one_lit, minus_one}
use scx_cognis.Trust.{
  ExitObservation, on_underrun, on_clean, on_preempted, on_cheat, on_forks, on_switches, exit_score,
  fork_penalty, TrustTable, new_table, reset_slot, insert_at, observe_slot, blend_tgid,
  update_on_exit, get_or_insert_slot, evict, evict_at, trust_score, score_at,
}

module _ {F : Type 0} (fl : FloatOps F) (o : IsOrdered fl) (r : IsRounding fl) where
  pub record InRange (x : F) : Type 0 where
    pub low : Le fl (minus_one fl) x
    pub high : Le fl x (one_lit fl)

  num_one : Le fl (one_lit fl) (one_lit fl)
  num_one = o.num_right _ _ (o.lit-le-one 0 0 (omega arith))

  num_minus : Le fl (minus_one fl) (minus_one fl)
  num_minus = o.num_left _ _ o.lit_neg

  minus-le-one : Le fl (minus_one fl) (one_lit fl)
  minus-le-one = o.le_trans _ _ _ o.lit_neg (o.lit_nonneg 1 0)

  -- `(x * a + b).min(1.0)` and `(x * a - b).max(-1.0)`, for literals between 0 and 1.
  raise-InRange :
      (x : F) (m n k l : ℕ)
      → InRange x
      → m ≤ 10 ^ k
      → n ≤ 10 ^ l
      → InRange (fl.fmin (fl.add (fl.mul x (fl.lit m k)) (fl.lit n l)) (one_lit fl))
  raise-InRange x m n k l h hm hn = record {
    low = o.le-min _ _ _ (o.le_trans _ _ _ low grows) minus-le-one;
    high = o.min-le-right _ _ (o.num_right _ _ grows) num_one;
  }
    where
      scaled : F
      scaled = fl.mul x (fl.lit m k)

      low : Le fl (minus_one fl) scaled
      low = r.mul_low x _ h.low h.high (o.lit_nonneg m k) (o.lit-le-one m k hm)

      high : Le fl scaled (one_lit fl)
      high = r.mul_high x _ h.low h.high (o.lit_nonneg m k) (o.lit-le-one m k hm)

      grows : Le fl scaled (fl.add scaled (fl.lit n l))
      grows = r.add_grows scaled _ high (o.lit_nonneg n l) (o.lit-le-one n l hn)

  drop-InRange :
      (x c : F)
      → InRange x
      → Le fl (zero_lit fl) c
      → Le fl c (one_lit fl)
      → InRange (fl.fmax (fl.sub x c) (minus_one fl))
  drop-InRange x c h hc h1 = record {
    low = o.max-ge-right _ _ (o.num_left _ _ shrinks) num_minus;
    high = o.max-le _ _ _ (o.le_trans _ _ _ shrinks h.high) minus-le-one;
  }
    where
      shrinks : Le fl (fl.sub x c) x
      shrinks = r.sub_shrinks x c h.low hc h1

  scale-InRange : (x : F) (m k : ℕ) → InRange x → m ≤ 10 ^ k → InRange (fl.mul x (fl.lit m k))
  scale-InRange x m k h hm = record {
    low = r.mul_low x _ h.low h.high (o.lit_nonneg m k) (o.lit-le-one m k hm);
    high = r.mul_high x _ h.low h.high (o.lit_nonneg m k) (o.lit-le-one m k hm);
  }

  drop_lit-InRange :
      (x : F) (n l : ℕ)
      → InRange x
      → n ≤ 10 ^ l
      → InRange (fl.fmax (fl.sub x (fl.lit n l)) (minus_one fl))
  drop_lit-InRange x n l h hn = drop-InRange x _ h (o.lit_nonneg n l) (o.lit-le-one n l hn)

  if-InRange : (b : Bool) {x y : F} → InRange x → InRange y → InRange (if b then x else y)
  if-InRange true hx hy = hx
  if-InRange false hx hy = hy

  module _ (obs : ExitObservation) {x : F} (h : InRange x) where
    underrun-InRange : InRange (on_underrun fl obs x)
    unfolding on_underrun
    underrun-InRange =
        if-InRange obs.slice_underrun (raise-InRange x 95 10 2 2 h (omega arith) (omega arith)) h

    clean-InRange : InRange (on_clean fl obs x)
    unfolding on_clean
    clean-InRange =
        if-InRange (obs.clean_exit && not obs.cheat_flagged)
          (raise-InRange x 97 6 2 2 h (omega arith) (omega arith)) h

    preempted-InRange : InRange (on_preempted fl obs x)
    unfolding on_preempted
    preempted-InRange =
        if-InRange obs.preempted
          (drop_lit-InRange _ 7 2 (scale-InRange x 93 2 h (omega arith)) (omega arith)) h

    cheat-InRange : InRange (on_cheat fl obs x)
    unfolding on_cheat
    cheat-InRange =
        if-InRange obs.cheat_flagged
          (drop_lit-InRange _ 30 2 (scale-InRange x 90 2 h (omega arith)) (omega arith)) h

    forks-InRange : InRange (on_forks fl obs x)
    unfolding on_forks fork_penalty
    forks-InRange =
        if-InRange (ltb 50 obs.fork_count) (drop-InRange x _ h penalty_low penalty_high) h
      where
        raw : F
        raw = fl.mul (fl.of_u64 (obs.fork_count - 50)) (fl.lit 2 3)

        raw_low : Le fl (zero_lit fl) raw
        raw_low = r.mul_nonneg _ _ (o.lit_nonneg 2 3) (o.lit-le-one 2 3 (omega arith))

        num_cap : Le fl (fl.lit 30 2) (fl.lit 30 2)
        num_cap = o.num_right _ _ (o.lit_nonneg 30 2)

        penalty_low : Le fl (zero_lit fl) (fl.fmin raw (fl.lit 30 2))
        penalty_low = o.le-min _ _ _ raw_low (o.lit_nonneg 30 2)

        penalty_high : Le fl (fl.fmin raw (fl.lit 30 2)) (one_lit fl)
        penalty_high =
            o.le_trans _ _ _ (o.min-le-right _ _ (o.num_right _ _ raw_low) num_cap)
              (o.lit-le-one 30 2 (omega arith))

    switches-InRange : InRange (on_switches fl obs x)
    unfolding on_switches
    switches-InRange =
        if-InRange (ltb 1_000 obs.involuntary_ctx_sw) (drop_lit-InRange x 8 2 h (omega arith)) h

  -- Any observation keeps a score between -1 and 1.
  pub exit_score-InRange :
      (obs : ExitObservation) {x : F} → InRange x → InRange (exit_score fl obs x)
  unfolding exit_score
  exit_score-InRange obs h = switches-InRange obs (
      forks-InRange obs
        (cheat-InRange obs (preempted-InRange obs (clean-InRange obs (underrun-InRange obs h)))))

  zero-InRange : InRange (zero_lit fl)
  zero-InRange = record { low = o.lit_neg; high = o.lit-le-one 0 0 (omega arith) }

  -- Every score of the table lies between -1 and 1.
  abbrev pub ScoresInRange : TrustTable F → Type 0
  ScoresInRange t = All InRange t.scores

  pub new_table-ScoresInRange : ScoresInRange (new_table fl)
  unfolding new_table
  new_table-ScoresInRange = All-replicate InRange table_size (zero_lit fl) zero-InRange

  reset_slot-ScoresInRange :
      (t : TrustTable F) (s pid : ℕ) → ScoresInRange t → ScoresInRange (reset_slot fl t s pid)
  unfolding reset_slot
  reset_slot-ScoresInRange t s pid h = All-set InRange t.scores s (zero_lit fl) h zero-InRange

  insert-ScoresInRange :
      (t : TrustTable F) (pid : ℕ) (p : Place)
      → ScoresInRange t
      → ScoresInRange (insert_at fl t pid p)
  insert-ScoresInRange t pid (found s) h = h
  insert-ScoresInRange t pid (fresh s) h = reset_slot-ScoresInRange t s pid h

  observe-ScoresInRange :
      (t : TrustTable F) (s : ℕ) (obs : ExitObservation) (comm : List ℕ)
      → ScoresInRange t
      → ScoresInRange (observe_slot fl t s obs comm)
  unfolding observe_slot
  observe-ScoresInRange t s obs comm h =
      All-set InRange t.scores s _ h
        (exit_score-InRange obs (All-get_or InRange t.scores s (zero_lit fl) h zero-InRange))

  scores-blend : (t : TrustTable F) (tgid s : ℕ) → (blend_tgid fl t tgid s).scores ≡ t.scores
  unfolding blend_tgid
  scores-blend t tgid s = ground arith

  -- With floats that are ordered and round monotonically, `update_on_exit` keeps every score of
  -- a table whose scores lie between -1 and 1 in that range.
  pub update-ScoresInRange :
      (t : TrustTable F) (pid tgid : ℕ) (obs : ExitObservation) (comm : List ℕ)
      → ScoresInRange t
      → ScoresInRange (update_on_exit fl t pid tgid obs comm)
  unfolding update_on_exit get_or_insert_slot
  update-ScoresInRange t pid tgid obs comm h =
      rw scores-blend
        (observe-ScoresInRange _ _ obs comm (insert-ScoresInRange t pid (place t.pids pid) h))

  evict_at-ScoresInRange :
      (t : TrustTable F) (o : Option ℕ) → ScoresInRange t → ScoresInRange (evict_at fl t o)
  evict_at-ScoresInRange t none h = h
  evict_at-ScoresInRange t (some s) h = reset_slot-ScoresInRange t s pid_tombstone h

  pub evict-ScoresInRange :
      (t : TrustTable F) (pid : ℕ) → ScoresInRange t → ScoresInRange (evict fl t pid)
  unfolding evict
  evict-ScoresInRange t pid h = evict_at-ScoresInRange t (find_slot t.pids pid) h

  score_at-InRange : (t : TrustTable F) (o : Option ℕ) → ScoresInRange t → InRange (score_at fl t o)
  score_at-InRange t none h = zero-InRange
  score_at-InRange t (some s) h = All-get_or InRange t.scores s (zero_lit fl) h zero-InRange

  -- With floats that are ordered and round monotonically, the reported score of any pid of a
  -- table whose scores lie between -1 and 1 does so too.
  pub trust_score-InRange :
      (t : TrustTable F) (q : ℕ) → ScoresInRange t → InRange (trust_score fl t q)
  unfolding trust_score
  trust_score-InRange t q h = score_at-InRange t (find_slot t.pids q) h
