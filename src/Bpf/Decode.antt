-- ===== src/Bpf/Decode.antt =====
-- The samples of the two ring buffers, src/bpf.rs: `decode_queued_task` and `decode_exited_pid`,
-- with the layout of `struct queued_task_ctx` in intf.h, little-endian.
pub mod RoundTrip
pub mod Faithful
pub mod Tests
use scx_cognis.Base.{
  ℕ, zero, suc, ◌+◌, ◌*◌, ◌==◌, List, [], ◌∷◌, if◌then◌else◌, length, take, drop, Result, ok, err,
}

-- Signed fields are given by their bit patterns.
pub record QueuedTask : Type 0 where
  pub pid : ℕ
  pub cpu : ℕ
  pub nr_cpus_allowed : ℕ
  pub flags : ℕ
  pub start_ts : ℕ
  pub stop_ts : ℕ
  pub exec_runtime : ℕ
  pub weight : ℕ
  pub vtime : ℕ
  pub enq_cnt : ℕ
  pub comm : List ℕ

abbrev pub eio : ℕ
eio = 5

abbrev pub einval : ℕ
einval = 22

abbrev pub eproto : ℕ
eproto = 71

abbrev pub task_comm_len : ℕ
task_comm_len = 16

-- The number that the first `n` bytes make, least significant first.
unfoldable pub read_le : ℕ → List ℕ → ℕ
read_le zero bytes = 0
read_le (suc n) [] = 0
read_le (suc n) (b ∷ bytes) = b + 256 * read_le n bytes

abbrev pub u32_at : ℕ → List ℕ → ℕ
u32_at i bytes = read_le 4 (drop i bytes)

abbrev pub u64_at : ℕ → List ℕ → ℕ
u64_at i bytes = read_le 8 (drop i bytes)

-- `size_of::<queued_task_ctx>()`: two `s32`, eight `u64`, 16 bytes of name.
abbrev pub queued_task_size : ℕ
queued_task_size = 88

unfoldable pub read_queued_task : List ℕ → QueuedTask
unfolding read_le
read_queued_task data' = record {
  pid = u32_at 0 data';
  cpu = u32_at 4 data';
  nr_cpus_allowed = u64_at 8 data';
  flags = u64_at 16 data';
  start_ts = u64_at 24 data';
  stop_ts = u64_at 32 data';
  exec_runtime = u64_at 40 data';
  weight = u64_at 48 data';
  vtime = u64_at 56 data';
  enq_cnt = u64_at 64 data';
  comm = take task_comm_len (drop 72 data');
}

unfoldable pub decode_queued_task : List ℕ → Result QueuedTask ℕ
unfolding read_queued_task
decode_queued_task data' =
    if length data' == queued_task_size then ok (read_queued_task data') else err einval

unfoldable pub decode_exited_pid : List ℕ → Result ℕ ℕ
unfolding read_le
decode_exited_pid data' = if length data' == 4 then ok (u32_at 0 data') else err einval
