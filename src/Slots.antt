-- ===== src/Slots.antt =====
-- The open-addressing table of pids that src/ai/trust.rs (`TrustTable`) and src/main.rs (the
-- lifetime table) both write out: Fibonacci hashing, linear probing, tombstones.
-- A pid is the bit pattern of its `i32`, so that `pid as u32` is the identity and `-1` is 2^32 - 1.
pub mod Tests
pub mod Probe
pub mod Index
use scx_cognis.Base.{
  ℕ, zero, suc, ◌+◌, ◌-◌, ◌*◌, ◌/◌, ◌%◌, ◌^◌, Bool, ◌&&◌, Option, none, some, List, ◌==◌,
  if◌then◌else◌, get_or, set, replicate, is_none, unwrap_or, ltb,
}

-- `TRUST_TABLE_SIZE` and `LIFETIME_TABLE_SIZE`.
abbrev pub table_size : ℕ
table_size = 4096

abbrev pub pid_empty : ℕ
pid_empty = 0

abbrev pub pid_tombstone : ℕ
pid_tombstone = 2 ^ 32 - 1

abbrev pub fib32 : ℕ
fib32 = 2_654_435_769

-- `pid > 0` on `i32`.
abbrev pub is_live : ℕ → Bool
is_live pid = ltb 0 pid && ltb pid (2 ^ 31)

-- The top 12 bits of the 32-bit product.
unfoldable pub slot : ℕ → ℕ
slot pid = (pid * fib32) % 2 ^ 32 / 2 ^ 20

-- `(start + step) & (SIZE - 1)`, for a size that is a power of two.
abbrev pub probe_at : ℕ → ℕ → ℕ
probe_at start step = (start + step) % table_size

-- The loop of `find_slot` with `n` steps left, the next of which is `step`.
unfoldable pub find_from : List ℕ → ℕ → ℕ → ℕ → ℕ → Option ℕ
find_from pids pid start zero step = none
find_from pids pid start (suc n) step =
    let s = probe_at start step in
    let cur = get_or pids s pid_empty in
    let rest = find_from pids pid start n (step + 1) in
    if cur == pid then some s else if cur == pid_empty then none else rest

unfoldable pub find_slot : List ℕ → ℕ → Option ℕ
find_slot pids pid = find_from pids pid (slot pid) table_size 0

-- Where `get_or_insert_slot` puts a pid: the slot that it has, or the slot that it is given.
pub data Place : Type 0 where
  found : ℕ → Place
  fresh : ℕ → Place

-- The loop of `get_or_insert_slot`; `tomb` is `first_tombstone`.
unfoldable pub place_from : List ℕ → ℕ → ℕ → ℕ → ℕ → Option ℕ → Place
place_from pids pid start zero step tomb = fresh (unwrap_or tomb start)
place_from pids pid start (suc n) step tomb =
    let s = probe_at start step in
    let cur = get_or pids s pid_empty in
    let marked = place_from pids pid start n (step + 1) (some s) in
    let rest = place_from pids pid start n (step + 1) tomb in
    if cur == pid
    then found s
    else if (cur == pid_tombstone) && is_none tomb
    then marked
    else if cur == pid_empty
    then fresh (unwrap_or tomb s)
    else rest

unfoldable pub place : List ℕ → ℕ → Place
place pids pid = place_from pids pid (slot pid) table_size 0 none

-- The array of pids after `get_or_insert_slot`.
abbrev pub placed : List ℕ → ℕ → Place → List ℕ
placed pids pid (found s) = pids
placed pids pid (fresh s) = set pids s pid

abbrev pub place_index : Place → ℕ
place_index (found s) = s
place_index (fresh s) = s
