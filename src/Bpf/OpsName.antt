-- ===== src/Bpf/OpsName.antt =====
-- The name of the scheduler in src/bpf.rs: `set_scx_ops_name` writes it for the kernel, and
-- `current_root_ops_name` and `wait_for_detach` read it back from sysfs until it is gone. A string
-- is the list of its characters' codes, a name field the list of its bytes.
pub mod Copy
pub mod Suffix
pub mod Detach
pub mod Tests
use scx_cognis.Base.{
  ℕ, zero, suc, ◌+◌, ◌-◌, ◌*◌, ◌^◌, min, Bool, true, false, not, ◌&&◌, ◌||◌, Option, none, some,
  List, [], ◌∷◌, ◌++◌, ltb, leb, ◌==◌, if◌then◌else◌, length, set, get_or, replicate, Result, ok,
  err,
}
use scx_cognis.Config.Restart.{trim}
use scx_cognis.Scheduler.Features.{codes, starts_with}

pub data NameError : Type 0 where
  not_ascii : NameError

abbrev pub is_ascii : List ℕ → Bool
is_ascii [] = true
is_ascii (c ∷ cs) = ltb c 128 && is_ascii cs

-- `for i in 0..n { name_field[i] = bytes[i] }`
abbrev pub copy_bytes : List ℕ → List ℕ → ℕ → List ℕ
copy_bytes field bytes zero = field
copy_bytes field bytes (suc i) = set (copy_bytes field bytes i) i (get_or bytes i 0)

-- The locals of the second loop: the field, `i`, `found_null` and the bytes from `bytes_idx` on.
pub record Suffixing : Type 0 where
  pub name_field : List ℕ
  pub i : ℕ
  pub found_null : Bool
  pub bytes : List ℕ

-- One turn of the loop: the locals after it, and whether it goes on.
abbrev pub put_byte : Suffixing → Bool → List ℕ → Suffixing × Bool
put_byte s false bytes = (record s { i = s.i + 1; found_null = false }, true)
put_byte s true [] = (record s { found_null = true }, false)
put_byte s true (b ∷ bytes) = (
  record { name_field = set s.name_field s.i b; i = s.i + 1; found_null = true; bytes = bytes },
  true,
)

unfoldable pub suffix_turn : Suffixing → Suffixing × Bool
suffix_turn s =
    if ltb s.i (length s.name_field - 1)
    then put_byte s (s.found_null || get_or s.name_field s.i 0 == 0) s.bytes
    else (s, false)

-- The loop, with at most as many turns as `fuel`.
unfoldable pub suffix_loop : ℕ → Suffixing → Suffixing
suffix_loop zero s = s
suffix_loop (suc fuel) s =
    let (s', more) = suffix_turn s in elim more [ true ↦ suffix_loop fuel s' | false ↦ s' ]

-- `name_field[i] = 0`
abbrev pub terminate : Suffixing → List ℕ
terminate s = set s.name_field s.i 0

-- `set_scx_ops_name`, with `version_suffix` for what `scx_utils` returns: the field after it and its
-- result. Each turn of the loop but the last raises `i`, so the field's length is fuel enough.
unfoldable pub set_scx_ops_name : List ℕ → List ℕ → List ℕ → List ℕ × Result {0, 0} Unit NameError
set_scx_ops_name version_suffix name_field src =
    if is_ascii src
    then (
      let n = min (length src) (length name_field - 1) in
          let zeros : List ℕ = replicate (length name_field) 0 in
          terminate (
            suffix_loop (length name_field) (record {
              name_field = copy_bytes zeros src n;
              i = 0;
              found_null = false;
              bytes = version_suffix;
            })),
      ok tt,
    )
    else (name_field, err not_ascii)

abbrev owned_name : List ℕ → Option (List ℕ)
owned_name [] = none
owned_name (c ∷ cs) = some (c ∷ cs)

-- `current_root_ops_name`, with what reading the file returned.
unfoldable pub current_root_ops_name : Result (List ℕ) ℕ → Option (List ℕ)
current_root_ops_name (err e) = none
current_root_ops_name (ok content) = owned_name (trim content)

-- `DETACH_WAIT_TIMEOUT` and `DETACH_WAIT_POLL`, in nanoseconds.
abbrev pub detach_wait_timeout : ℕ
detach_wait_timeout = 500 * 10 ^ 6

abbrev pub detach_wait_poll : ℕ
detach_wait_poll = 10 * 10 ^ 6

-- A poll: the loop's answer, or nothing when it sleeps and polls again.
abbrev pub detach_poll : Option (List ℕ) → ℕ → Option (Option (List ℕ))
detach_poll none elapsed = some none
detach_poll (some name) elapsed =
    if starts_with (codes "cognis_") name
    then if leb detach_wait_timeout elapsed then some (some name) else none
    else some none

-- `wait_for_detach` from its poll number `k` on: `reads k` is what the file holds at that poll,
-- `elapsed k` the time since the start. `none` is out of fuel.
unfoldable pub wait_for_detach :
    (ℕ → Result (List ℕ) ℕ) → (ℕ → ℕ) → ℕ → ℕ → Option (Option (List ℕ))
wait_for_detach reads elapsed k zero = none
wait_for_detach reads elapsed k (suc fuel) =
    elim (detach_poll (current_root_ops_name (reads k)) (elapsed k)) [
      | some answer ↦ some answer
      | none ↦ wait_for_detach reads elapsed (k + 1) fuel
    ]
