-- ===== src/Bpf/OpsName/Copy.antt =====
-- The first loop of `set_scx_ops_name` of src/bpf.rs copies the name up to the field's roomacity.
use scx_cognis.Base.{
  ℕ, zero, suc, ◌≤◌, ◌<◌, ◌≡◌, refl, ap, ◌∙◌, min, List, [], ◌∷◌, arith, length, set, get_or, take,
  replicate,
}
use scx_cognis.Bpf.OpsName.{copy_bytes}

-- A field of `room + 1` bytes that holds the first `room` bytes of a string, and zeros after them.
abbrev pub c_string : ℕ → List ℕ → List ℕ
c_string zero bs = 0 ∷ []
c_string (suc room) [] = 0 ∷ c_string room []
c_string (suc room) (b ∷ bs) = b ∷ c_string room bs

pub length-c_string : (room : ℕ) (bs : List ℕ) → length (c_string room bs) ≡ suc room
length-c_string zero bs = refl
length-c_string (suc room) [] = omega (arith, length-c_string room [])
length-c_string (suc room) (b ∷ bs) = omega (arith, length-c_string room bs)

pub c_string-nil : (room : ℕ) → replicate (suc room) 0 ≡ c_string room []
c_string-nil zero = refl
c_string-nil (suc room) = ap (λ zs. 0 ∷ zs) (c_string-nil room)

-- Writing the next byte after the first `n`.
set-c_string :
    (room n : ℕ) (bs : List ℕ)
    → n < length bs
    → n < room
    → set (c_string room (take n bs)) n (get_or bs n 0) ≡ c_string room (take (suc n) bs)
set-c_string zero n bs h k = absurd (omega arith)
set-c_string (suc room) n [] h k = absurd (omega arith)
set-c_string (suc room) zero (b ∷ bs) h k = refl
set-c_string (suc room) (suc n) (b ∷ bs) h k =
    ap (λ r. b ∷ r) (set-c_string room n bs (omega arith) (omega arith))

copy_bytes-take :
    (room n : ℕ) (bs : List ℕ)
    → n ≤ length bs
    → n ≤ room
    → copy_bytes (c_string room []) bs n ≡ c_string room (take n bs)
copy_bytes-take room zero bs h k = refl
copy_bytes-take room (suc n) bs h k =
    rw (copy_bytes-take room n bs (omega arith) (omega arith))
      (set-c_string room n bs (omega arith) (omega arith))

min-zero : (b : ℕ) → min 0 (suc b) ≡ 0
min-zero b = omega arith

min-suc : (a b : ℕ) → min (suc a) (suc b) ≡ suc (min a b)
min-suc a b = omega arith

c_string-take :
    (room : ℕ) (bs : List ℕ) → c_string room (take (min (length bs) room) bs) ≡ c_string room bs
c_string-take zero bs = refl
c_string-take (suc room) [] = rw (min-zero room) refl
c_string-take (suc room) (b ∷ bs) =
    rw (min-suc (length bs) room) (ap (λ r. b ∷ r) (c_string-take room bs))

pub copy_bytes_lem :
    (room : ℕ) (bs : List ℕ)
    → copy_bytes (replicate (suc room) 0) bs (min (length bs) room) ≡ c_string room bs
copy_bytes_lem room bs = rw (c_string-nil room) (
    copy_bytes-take room (min (length bs) room) bs (omega arith) (omega arith)
    ∙ c_string-take room bs)
