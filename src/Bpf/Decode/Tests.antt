-- ===== src/Bpf/Decode/Tests.antt =====
-- A concrete task for the round trip of src/bpf.rs.
use scx_cognis.Base.{ℕ, List, Bool, true, ltb, ◌&&◌, ◌≡◌, refl, [], ◌∷◌, replicate, arith, ok, err}
use scx_cognis.Bpf.Decode.{QueuedTask, einval, decode_queued_task}
use scx_cognis.Bpf.Decode.RoundTrip.{Fits, queued_task_bytes, decode_queued_task-bytes}
use scx_cognis.Bpf.Decode.Faithful.{AreBytes, bytes-decode_queued_task}

abbrev one_task : QueuedTask
one_task = record {
  pid = 4_294_967_295;
  cpu = 3;
  nr_cpus_allowed = 8;
  flags = 0;
  start_ts = 1_000_000;
  stop_ts = 900_000;
  exec_runtime = 5_000;
  weight = 100;
  vtime = 70;
  enq_cnt = 2;
  comm = replicate 16 65;
}

one_task-Fits : Fits one_task
one_task-Fits = record {
  pid = omega arith;
  cpu = omega arith;
  nr_cpus_allowed = omega arith;
  flags = omega arith;
  start_ts = omega arith;
  stop_ts = omega arith;
  exec_runtime = omega arith;
  weight = omega arith;
  vtime = omega arith;
  enq_cnt = omega arith;
  comm = refl;
}

decode_queued_task-bytes_example :
    (decode_queued_task (queued_task_bytes one_task) ≡ ok one_task)
    × (decode_queued_task (1 ∷ 2 ∷ []) ≡ err einval)
decode_queued_task-bytes_example =
    decode_queued_task-bytes one_task (1 ∷ 2 ∷ []) one_task-Fits (λ e. absurd (omega arith))

abbrev all_bytes : List ℕ → Bool
all_bytes [] = true
all_bytes (b ∷ bs) = ltb b 256 && all_bytes bs

all_bytes-AreBytes : (xs : List ℕ) → all_bytes xs ≡ true → AreBytes xs
all_bytes-AreBytes [] h = tt
all_bytes-AreBytes (b ∷ bs) h = (ground arith, all_bytes-AreBytes bs (ground arith))

one_task-AreBytes : AreBytes (queued_task_bytes one_task)
one_task-AreBytes = all_bytes-AreBytes (queued_task_bytes one_task) refl

bytes-decode_queued_task_example :
    (queued_task_bytes one_task ≡ queued_task_bytes one_task) × Fits one_task
bytes-decode_queued_task_example =
    bytes-decode_queued_task (queued_task_bytes one_task) one_task one_task-AreBytes
      (decode_queued_task-bytes one_task [] one_task-Fits (λ e. absurd (omega arith))).0
