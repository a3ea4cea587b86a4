-- ===== src/Trust.antt =====
-- src/ai/trust.rs: `TrustTable`, the fixed table of trust scores and watchlist flags by pid.
-- `f32` is the parameter of Floats.antt; the arrays are lists of `table_size` elements.
pub mod Report
pub mod Score
pub mod Lookup
pub mod Exit
pub mod Flags
pub mod Unflagged
pub mod Watchlist
pub mod Tests
use scx_cognis.Base.{
  ℕ, zero, suc, ◌+◌, ◌-◌, ◌<◌, ◌≤◌, min, Bool, true, false, not, ◌&&◌, Option, none, some, List, [],
  ◌∷◌, ◌++◌, ltb, leb, ◌==◌, if◌then◌else◌, length, get_or, set, replicate, take,
}
use scx_cognis.Floats.{FloatOps, Floats, zero_lit, one_lit, minus_one, fclamp}
use scx_cognis.Slots.{
  table_size, pid_empty, pid_tombstone, is_live, slot, find_slot, Place, found, fresh, place,
  placed, place_index,
}

abbrev pub Comm : Type 0
Comm = List ℕ

abbrev pub no_comm : Comm
no_comm = replicate 16 0

-- `str_to_comm`: at most 15 bytes, padded with NUL to 16.
unfoldable pub str_to_comm : List ℕ → Comm
str_to_comm s = let n = min (length s) 15 in take n s ++ replicate (16 - n) 0

pub record ExitObservation : Type 0 where
  pub slice_underrun : Bool
  pub preempted : Bool
  pub clean_exit : Bool
  pub cheat_flagged : Bool
  pub fork_count : ℕ
  pub involuntary_ctx_sw : ℕ

pub record TrustTable (F32 : Type 0) : Type 0 where
  pub scores : List F32
  pub pids : List ℕ
  pub comms : List Comm
  pub flagged : List Bool
  pub cheat_streak : List ℕ
  pub tgid_scores : List F32

pub record ShameEntry (F32 : Type 0) : Type 0 where
  pub pid : ℕ
  pub trust : F32
  pub comm : Comm
  pub is_flagged : Bool

abbrev pub shame_max : ℕ
shame_max = 20

-- `cheat_streak`, a saturating `u8`, and the flag.
unfoldable pub exit_streak : ExitObservation → ℕ → ℕ
exit_streak obs k = if obs.cheat_flagged then min (k + 1) 255 else 0

unfoldable pub exit_flag : ExitObservation → ℕ → Bool → Bool
exit_flag obs streak old =
    let kept = if obs.cheat_flagged then old else false in if leb 2 streak then true else kept

module _ {F32 : Type 0} (fl : FloatOps F32) where
  -- `TRUST_THRESHOLD`
  abbrev pub trust_threshold : F32
  trust_threshold = fl.neg_lit 35 2

  -- `alloc_zeroed`; a failed allocation ends the start-up, before there is a table.
  unfoldable pub new_table : TrustTable F32
  new_table = record {
    scores = replicate table_size (zero_lit fl);
    pids = replicate table_size pid_empty;
    comms = replicate table_size no_comm;
    flagged = replicate table_size false;
    cheat_streak = replicate table_size 0;
    tgid_scores = replicate table_size (zero_lit fl);
  }

  -- The six assignments to a slot in `get_or_insert_slot` and `evict`.
  unfoldable pub reset_slot : TrustTable F32 → ℕ → ℕ → TrustTable F32
  reset_slot t s pid = record {
    scores = set t.scores s (zero_lit fl);
    pids = set t.pids s pid;
    comms = set t.comms s no_comm;
    flagged = set t.flagged s false;
    cheat_streak = set t.cheat_streak s 0;
    tgid_scores = set t.tgid_scores s (zero_lit fl);
  }

  abbrev pub insert_at : TrustTable F32 → ℕ → Place → TrustTable F32
  insert_at t pid (found s) = t
  insert_at t pid (fresh s) = reset_slot t s pid

  -- The slot of the pid, beside the table in which it has one.
  unfoldable pub get_or_insert_slot : TrustTable F32 → ℕ → ℕ × TrustTable F32
  get_or_insert_slot t pid = let p = place t.pids pid in (place_index p, insert_at t pid p)

  abbrev pub score_at : TrustTable F32 → Option ℕ → F32
  score_at t none = zero_lit fl
  score_at t (some s) = get_or t.scores s (zero_lit fl)

  unfoldable pub trust_score : TrustTable F32 → ℕ → F32
  trust_score t pid = score_at t (find_slot t.pids pid)

  unfoldable pub is_quarantined : TrustTable F32 → ℕ → Bool
  is_quarantined t pid = fl.lt (trust_score t pid) trust_threshold

  abbrev pub flag_at : TrustTable F32 → Option ℕ → Bool
  flag_at t none = false
  flag_at t (some s) = get_or t.flagged s false

  unfoldable pub is_flagged : TrustTable F32 → ℕ → Bool
  is_flagged t pid = flag_at t (find_slot t.pids pid)

  -- The score of `update_on_exit`, signal by signal.
  unfoldable pub on_underrun : ExitObservation → F32 → F32
  on_underrun obs x =
      if obs.slice_underrun
      then fl.fmin (fl.add (fl.mul x (fl.lit 95 2)) (fl.lit 10 2)) (one_lit fl)
      else x

  unfoldable pub on_clean : ExitObservation → F32 → F32
  on_clean obs x =
      if obs.clean_exit && not obs.cheat_flagged
      then fl.fmin (fl.add (fl.mul x (fl.lit 97 2)) (fl.lit 6 2)) (one_lit fl)
      else x

  unfoldable pub on_preempted : ExitObservation → F32 → F32
  on_preempted obs x =
      if obs.preempted
      then fl.fmax (fl.sub (fl.mul x (fl.lit 93 2)) (fl.lit 7 2)) (minus_one fl)
      else x

  unfoldable pub on_cheat : ExitObservation → F32 → F32
  on_cheat obs x =
      if obs.cheat_flagged
      then fl.fmax (fl.sub (fl.mul x (fl.lit 90 2)) (fl.lit 30 2)) (minus_one fl)
      else x

  unfoldable pub fork_penalty : ℕ → F32
  fork_penalty forks = fl.fmin (fl.mul (fl.of_u64 (forks - 50)) (fl.lit 2 3)) (fl.lit 30 2)

  unfoldable pub on_forks : ExitObservation → F32 → F32
  on_forks obs x =
      if ltb 50 obs.fork_count
      then fl.fmax (fl.sub x (fork_penalty obs.fork_count)) (minus_one fl)
      else x

  unfoldable pub on_switches : ExitObservation → F32 → F32
  on_switches obs x =
      if ltb 1_000 obs.involuntary_ctx_sw then fl.fmax (fl.sub x (fl.lit 8 2)) (minus_one fl) else x

  unfoldable pub exit_score : ExitObservation → F32 → F32
  exit_score obs x =
      on_switches obs
        (on_forks obs (on_cheat obs (on_preempted obs (on_clean obs (on_underrun obs x)))))

  -- The blend into the score of the thread group, whose slot is only claimed where it is empty.
  unfoldable pub blend_tgid : TrustTable F32 → ℕ → ℕ → TrustTable F32
  blend_tgid t tgid s =
      let ts = slot tgid in
      let owner = get_or t.pids ts pid_empty in
      let old = if owner == pid_empty then zero_lit fl else get_or t.tgid_scores ts (zero_lit fl) in
      let new =
        fl.add (fl.mul old (fl.lit 8 1)) (fl.mul (get_or t.scores s (zero_lit fl)) (fl.lit 2 1)) in
      if owner == tgid
      then record t { tgid_scores = set t.tgid_scores ts new }
      else if owner == pid_empty
      then record t { pids = set t.pids ts tgid; tgid_scores = set t.tgid_scores ts new }
      else t

  -- The part of `update_on_exit` on the slot `s` of the pid.
  unfoldable pub observe_slot : TrustTable F32 → ℕ → ExitObservation → List ℕ → TrustTable F32
  observe_slot t s obs comm =
      let streak = exit_streak obs (get_or t.cheat_streak s 0) in
      record t {
        comms = if length comm == 0 then t.comms else set t.comms s (str_to_comm comm);
        scores = set t.scores s (exit_score obs (get_or t.scores s (zero_lit fl)));
        cheat_streak = set t.cheat_streak s streak;
        flagged = set t.flagged s (exit_flag obs streak (get_or t.flagged s false));
      }

  unfoldable pub update_on_exit : TrustTable F32 → ℕ → ℕ → ExitObservation → List ℕ → TrustTable F32
  update_on_exit t pid tgid obs comm =
      let (s, t') = get_or_insert_slot t pid in blend_tgid (observe_slot t' s obs comm) tgid s

  abbrev pub evict_at : TrustTable F32 → Option ℕ → TrustTable F32
  evict_at t none = t
  evict_at t (some s) = reset_slot t s pid_tombstone

  unfoldable pub evict : TrustTable F32 → ℕ → TrustTable F32
  evict t pid = evict_at t (find_slot t.pids pid)
