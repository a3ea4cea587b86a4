-- ===== src/Bpf/Decode/Faithful.antt =====
-- `decode_queued_task` of src/bpf.rs loses nothing of the bytes of a sample.
use scx_cognis.Base.{
  drop-drop, ℕ, zero, suc, ◌*◌, ◌/◌, ◌%◌, ◌<◌, ◌≤◌, ◌+◌, sym, ap₂, ◌≡◌, refl, ap, ◌∙◌, true, false,
  Result, List, [], ◌∷◌, ◌++◌, arith, ◌==◌, length, drop, ok, err, length-take, length-drop, All,
  All-drop, Bool-cases, inl, inr, ==→eq,
}
use mathlib.Core.Path.{subst}
use scx_cognis.Bpf.Decode.{
  QueuedTask, task_comm_len, read_le, queued_task_size, read_queued_task, decode_queued_task,
}
use scx_cognis.Bpf.Decode.RoundTrip.{Fits, write_le, room, queued_task_bytes, take-all}

-- The bytes of a sample.
abbrev pub AreBytes : List ℕ → Type 0
AreBytes xs = All (λ b. b < 256) xs

room_pos : (n : ℕ) → 0 < room n
room_pos zero = omega arith
room_pos (suc n) = omega (arith, room_pos n)

read_le-room : (n : ℕ) (xs : List ℕ) → AreBytes xs → read_le n xs < room n
unfolding read_le
read_le-room zero xs h = omega arith
read_le-room (suc n) [] h = omega (arith, room_pos n)
read_le-room (suc n) (x ∷ xs) (hx, h) = omega (arith, hx, read_le-room n xs h)

at-room : (n i : ℕ) (xs : List ℕ) → AreBytes xs → read_le n (drop i xs) < room n
at-room n i xs h = read_le-room n (drop i xs) (All-drop (λ b. b < 256) i xs h)

read_queued_task-Fits :
    (xs : List ℕ) → AreBytes xs → length xs ≡ queued_task_size → Fits (read_queued_task xs)
unfolding read_queued_task
read_queued_task-Fits xs h l = record {
  pid = at-room 4 0 xs h;
  cpu = at-room 4 4 xs h;
  nr_cpus_allowed = at-room 8 8 xs h;
  flags = at-room 8 16 xs h;
  start_ts = at-room 8 24 xs h;
  stop_ts = at-room 8 32 xs h;
  exec_runtime = at-room 8 40 xs h;
  weight = at-room 8 48 xs h;
  vtime = at-room 8 56 xs h;
  enq_cnt = at-room 8 64 xs h;
  comm = length-take task_comm_len (drop 72 xs) ∙ omega (arith, l, length-drop 72 xs);
}

abbrev task_or : QueuedTask → Result {0, 0} QueuedTask ℕ → QueuedTask
task_or t (ok u) = u
task_or t (err e) = t

decode-fitting :
    (xs : List ℕ)
    → (length xs == queued_task_size) ≡ true
    → ok (read_queued_task xs) ≡ decode_queued_task xs
unfolding decode_queued_task
decode-fitting xs h = rw h refl

task_none :
    (xs : List ℕ) (t : QueuedTask)
    → (length xs == queued_task_size) ≡ false
    → ¬ (decode_queued_task xs ≡ ok t)
unfolding decode_queued_task
task_none xs t h e = ground arith

write_le-read_le :
    (n : ℕ) (xs : List ℕ)
    → AreBytes xs
    → n ≤ length xs
    → write_le n (read_le n xs) ++ drop n xs ≡ xs
unfolding read_le
write_le-read_le zero xs h k = refl
write_le-read_le (suc n) [] h k = absurd (omega arith)
write_le-read_le (suc n) (x ∷ xs) (hx, h) k =
    let low : (x + 256 * read_le n xs) % 256 ≡ x = omega (arith, hx) in
    let high : (x + 256 * read_le n xs) / 256 ≡ read_le n xs = omega (arith, hx) in
    ap₂ (λ y v. y ∷ (write_le n v ++ drop n xs)) low high
    ∙ ap (λ ys. x ∷ ys) (write_le-read_le n xs h (omega arith))

-- The field of `n` bytes from `i` on, before the bytes behind it.
glue :
    (n i : ℕ) (xs rest : List ℕ)
    → AreBytes xs
    → i + n ≤ length xs
    → rest ≡ drop (i + n) xs
    → write_le n (read_le n (drop i xs)) ++ rest ≡ drop i xs
glue n i xs rest h k e =
    ap (λ r. write_le n (read_le n (drop i xs)) ++ r) (e ∙ sym (drop-drop n i xs))
    ∙ write_le-read_le n (drop i xs) (All-drop (λ b. b < 256) i xs h)
        (omega (arith, length-drop i xs))

bytes-read_queued_task :
    (xs : List ℕ)
    → AreBytes xs
    → length xs ≡ queued_task_size
    → queued_task_bytes (read_queued_task xs) ≡ xs
unfolding read_queued_task
bytes-read_queued_task xs h l = glue 4 0 xs _ h (omega (arith, l)) (
    glue 4 4 xs _ h (omega (arith, l)) (
      glue 8 8 xs _ h (omega (arith, l)) (
        glue 8 16 xs _ h (omega (arith, l)) (
          glue 8 24 xs _ h (omega (arith, l)) (
            glue 8 32 xs _ h (omega (arith, l)) (
              glue 8 40 xs _ h (omega (arith, l)) (
                glue 8 48 xs _ h (omega (arith, l)) (
                  glue 8 56 xs _ h (omega (arith, l)) (
                    glue 8 64 xs _ h (omega (arith, l)) (
                      take-all task_comm_len (drop 72 xs)
                        (omega (arith, l, length-drop 72 xs))))))))))))

-- A task that is decoded from bytes has exactly these as its bytes in the layout of
-- `struct queued_task_ctx`, so that no two samples are decoded alike, and each of its fields fits its
-- type: the pid and the CPU 32 bits, the other numbers 64 bits, and the name has 16 bytes.
pub bytes-decode_queued_task :
    (xs : List ℕ) (t : QueuedTask)
    → AreBytes xs
    → decode_queued_task xs ≡ ok t
    → (queued_task_bytes t ≡ xs) × Fits t
bytes-decode_queued_task xs t h e = elim (Bool-cases (length xs == queued_task_size)) [
  | inl same ↦
      let l : length xs ≡ queued_task_size = ==→eq (length xs) queued_task_size same in
      let read : read_queued_task xs ≡ t = ap (task_or t) (decode-fitting xs same ∙ e) in
      (
        ap queued_task_bytes (sym read) ∙ bytes-read_queued_task xs h l,
        subst Fits read (read_queued_task-Fits xs h l),
      )
  | inr other ↦ absurd (task_none xs t other e)
]
