-- ===== src/Lifetime.antt =====
-- The lifetime table of src/main.rs: what the scheduler remembers of each pid, in the same kind of
-- table as src/ai/trust.rs (see Slots.antt).
pub mod Flags
pub mod Lookup
pub mod Tests
pub mod Valid
use scx_cognis.Base.{
  ℕ, Bool, true, false, Option, none, some, List, if◌then◌else◌, get_or, set, replicate,
}
use scx_cognis.Slots.{
  table_size, pid_empty, pid_tombstone, is_live, find_slot, Place, found, fresh, place, placed,
  place_index,
}

-- `interactive_slice_bias_ns`, an `i64`, is only ever set to 0, and is given by its bit pattern.
pub record TaskLifetime : Type 0 where
  pub slice_assigned_ns : ℕ
  pub slice_used_ns : ℕ
  pub preempted : Bool
  pub cheat_flagged : Bool
  pub interactive_slice_credit_ns : ℕ
  pub interactive_slice_bias_ns : ℕ
  pub last_slice_ns : ℕ
  pub last_seen_ns : ℕ
  pub last_stop_ts : ℕ

abbrev pub default_lifetime : TaskLifetime
default_lifetime = record {
  slice_assigned_ns = 0;
  slice_used_ns = 0;
  preempted = false;
  cheat_flagged = false;
  interactive_slice_credit_ns = 0;
  interactive_slice_bias_ns = 0;
  last_slice_ns = 0;
  last_seen_ns = 0;
  last_stop_ts = 0;
}

pub record LifetimeTable : Type 0 where
  pub pids : List ℕ
  pub table : List TaskLifetime

unfoldable pub new_lifetimes : LifetimeTable
new_lifetimes = record {
  pids = replicate table_size pid_empty;
  table = replicate table_size default_lifetime;
}

unfoldable pub lifetime_find_slot : LifetimeTable → ℕ → Option ℕ
lifetime_find_slot t pid = find_slot t.pids pid

abbrev pub insert_at : LifetimeTable → ℕ → Place → LifetimeTable
insert_at t pid (found s) = t
insert_at t pid (fresh s) = record {
  pids = set t.pids s pid;
  table = set t.table s default_lifetime;
}

unfoldable pub lifetime_find_or_insert_slot : LifetimeTable → ℕ → ℕ × LifetimeTable
lifetime_find_or_insert_slot t pid = let p = place t.pids pid in (place_index p, insert_at t pid p)

abbrev pub lifetime_at : LifetimeTable → Option ℕ → Option TaskLifetime
lifetime_at t none = none
lifetime_at t (some s) = some (get_or t.table s default_lifetime)

unfoldable pub lifetime_get : LifetimeTable → ℕ → Option TaskLifetime
unfolding lifetime_find_slot
lifetime_get t pid = if is_live pid then lifetime_at t (lifetime_find_slot t pid) else none

-- A write through the reference of `lifetime_get_mut_or_default`.
unfoldable pub lifetime_update : LifetimeTable → ℕ → (TaskLifetime → TaskLifetime) → LifetimeTable
unfolding lifetime_find_or_insert_slot
lifetime_update t pid f =
    let (s, t') = lifetime_find_or_insert_slot t pid in
    record t' { table = set t'.table s (f (get_or t'.table s default_lifetime)) }

abbrev pub evict_at : LifetimeTable → Option ℕ → LifetimeTable
evict_at t none = t
evict_at t (some s) = record {
  pids = set t.pids s pid_tombstone;
  table = set t.table s default_lifetime;
}

unfoldable pub lifetime_evict : LifetimeTable → ℕ → LifetimeTable
unfolding lifetime_find_slot
lifetime_evict t pid = evict_at t (lifetime_find_slot t pid)
