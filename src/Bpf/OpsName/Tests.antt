-- ===== src/Bpf/OpsName/Tests.antt =====
-- Concrete names for the theorems on the name of the scheduler in src/bpf.rs.
use scx_cognis.Base.{ℕ, ◌*◌, ◌≤◌, ◌≡◌, refl, List, [], ◌∷◌, arith, Result, ok}
use scx_cognis.Bpf.OpsName.{set_scx_ops_name, wait_for_detach, detach_wait_poll}
use scx_cognis.Bpf.OpsName.Copy.{c_string}
use scx_cognis.Bpf.OpsName.Suffix.{set_scx_ops_name-c_string}
use scx_cognis.Bpf.OpsName.Detach.{Waited, wait_for_detach-Waited}

-- "ab", "_1" and a field of 5 bytes.
set_scx_ops_name-c_string_example :
    set_scx_ops_name (95 ∷ 49 ∷ []) (1 ∷ 2 ∷ 3 ∷ 4 ∷ 5 ∷ []) (97 ∷ 98 ∷ [])
    ≡ (c_string 4 (97 ∷ 98 ∷ 95 ∷ 49 ∷ []), ok tt)
set_scx_ops_name-c_string_example =
    set_scx_ops_name-c_string (95 ∷ 49 ∷ []) (1 ∷ 2 ∷ 3 ∷ 4 ∷ 5 ∷ []) (97 ∷ 98 ∷ []) 4 refl refl
      (refl, (refl, tt))

-- "cognis_x", with a line end.
abbrev cognis_x : List ℕ
cognis_x = 99 ∷ 111 ∷ 103 ∷ 110 ∷ 105 ∷ 115 ∷ 95 ∷ 120 ∷ 10 ∷ []

-- The name is there at every poll.
abbrev pub always : ℕ → Result (List ℕ) ℕ
always k = ok cognis_x

abbrev pub punctual : ℕ → ℕ
punctual k = k * detach_wait_poll

punctual-le : (j : ℕ) → j * detach_wait_poll ≤ punctual j
punctual-le j = omega arith

wait_for_detach-Waited_example : Waited always punctual 0 (wait_for_detach always punctual 0 51)
wait_for_detach-Waited_example = wait_for_detach-Waited always punctual punctual-le
