-- ===== src/Bpf/Decode/RoundTrip.antt =====
-- `decode_queued_task` and `decode_exited_pid` of src/bpf.rs read back what the layout of
-- `struct queued_task_ctx` in intf.h makes of a task, and refuse every other length.
use scx_cognis.Base.{
  ℕ, zero, suc, ◌*◌, ◌/◌, ◌%◌, ◌^◌, ◌<◌, ◌≡◌, ◌≢◌, refl, ap, true, List, [], ◌∷◌, ◌++◌, arith, ◌==◌,
  length, take, drop, ok, err, ne→==,
}
use scx_cognis.Bpf.Decode.{
  QueuedTask, einval, task_comm_len, read_le, queued_task_size, read_queued_task,
  decode_queued_task,
}

-- The `n` bytes of a number, least significant first.
abbrev pub write_le : ℕ → ℕ → List ℕ
write_le zero v = []
write_le (suc n) v = (v % 256) ∷ write_le n (v / 256)

-- How many numbers `n` bytes have room for.
abbrev pub room : ℕ → ℕ
room zero = 1
room (suc n) = 256 * room n

read_le-write_le : (n v : ℕ) (rest : List ℕ) → v < room n → read_le n (write_le n v ++ rest) ≡ v
unfolding read_le
read_le-write_le zero v rest h = omega arith
read_le-write_le (suc n) v rest h =
    let ih : read_le n (write_le n (v / 256) ++ rest) ≡ v / 256 =
      read_le-write_le n (v / 256) rest (omega arith) in
    omega (arith, ih)

-- The bytes of a task.
abbrev pub queued_task_bytes : QueuedTask → List ℕ
queued_task_bytes t =
    write_le 4 t.pid
    ++ (write_le 4 t.cpu
        ++ (write_le 8 t.nr_cpus_allowed
            ++ (write_le 8 t.flags
                ++ (write_le 8 t.start_ts
                    ++ (write_le 8 t.stop_ts
                        ++ (write_le 8 t.exec_runtime
                            ++ (write_le 8 t.weight
                                ++ (write_le 8 t.vtime ++ (write_le 8 t.enq_cnt ++ t.comm)))))))))

-- A task whose fields fit their types.
pub record Fits (t : QueuedTask) : Type 0 where
  pub pid : t.pid < 2 ^ 32
  pub cpu : t.cpu < 2 ^ 32
  pub nr_cpus_allowed : t.nr_cpus_allowed < 2 ^ 64
  pub flags : t.flags < 2 ^ 64
  pub start_ts : t.start_ts < 2 ^ 64
  pub stop_ts : t.stop_ts < 2 ^ 64
  pub exec_runtime : t.exec_runtime < 2 ^ 64
  pub weight : t.weight < 2 ^ 64
  pub vtime : t.vtime < 2 ^ 64
  pub enq_cnt : t.enq_cnt < 2 ^ 64
  pub comm : length t.comm ≡ task_comm_len

pub take-all : (n : ℕ) (xs : List ℕ) → length xs ≡ n → take n xs ≡ xs
take-all zero [] h = refl
take-all zero (x ∷ xs) h = absurd (omega arith)
take-all (suc n) [] h = refl
take-all (suc n) (x ∷ xs) h = ap (λ ys. x ∷ ys) (take-all n xs (omega arith))

read_queued_task-bytes : (t : QueuedTask) → Fits t → read_queued_task (queued_task_bytes t) ≡ t
unfolding read_queued_task
read_queued_task-bytes t f =
    let bytes = queued_task_bytes t in
    let pid_read = read_le-write_le 4 t.pid (drop 4 bytes) f.pid in
    let cpu_read = read_le-write_le 4 t.cpu (drop 8 bytes) f.cpu in
    let nr_cpus_allowed_read =
      read_le-write_le 8 t.nr_cpus_allowed (drop 16 bytes) f.nr_cpus_allowed in
    let flags_read = read_le-write_le 8 t.flags (drop 24 bytes) f.flags in
    let start_ts_read = read_le-write_le 8 t.start_ts (drop 32 bytes) f.start_ts in
    let stop_ts_read = read_le-write_le 8 t.stop_ts (drop 40 bytes) f.stop_ts in
    let exec_runtime_read = read_le-write_le 8 t.exec_runtime (drop 48 bytes) f.exec_runtime in
    let weight_read = read_le-write_le 8 t.weight (drop 56 bytes) f.weight in
    let vtime_read = read_le-write_le 8 t.vtime (drop 64 bytes) f.vtime in
    let enq_cnt_read = read_le-write_le 8 t.enq_cnt (drop 72 bytes) f.enq_cnt in
    let comm_read = take-all task_comm_len t.comm f.comm in
    λ i. record {
      pid = pid_read i;
      cpu = cpu_read i;
      nr_cpus_allowed = nr_cpus_allowed_read i;
      flags = flags_read i;
      start_ts = start_ts_read i;
      stop_ts = stop_ts_read i;
      exec_runtime = exec_runtime_read i;
      weight = weight_read i;
      vtime = vtime_read i;
      enq_cnt = enq_cnt_read i;
      comm = comm_read i;
    }

length-bytes : (t : QueuedTask) → Fits t → length (queued_task_bytes t) ≡ queued_task_size
length-bytes t f = omega (arith, f.comm)

==-true : (a b : ℕ) → a ≡ b → (a == b) ≡ true
==-true a b e = ground arith

-- A task whose fields fit their types is decoded from its bytes, and no bytes of another length than
-- theirs are decoded.
pub decode_queued_task-bytes :
    (t : QueuedTask) (other : List ℕ)
    → Fits t
    → length other ≢ queued_task_size
    → (decode_queued_task (queued_task_bytes t) ≡ ok t) × (decode_queued_task other ≡ err einval)
unfolding decode_queued_task
decode_queued_task-bytes t other f ne = (
  rw (==-true (length (queued_task_bytes t)) queued_task_size (length-bytes t f))
      (ap ok (read_queued_task-bytes t f)),
  rw (ne→== (length other) queued_task_size ne) refl,
)
