-- ===== src/Program/MainLoop.antt =====
-- The restart loop of `main` in src/main.rs, over the runs of the scheduler that it starts.
use scx_cognis.Base.{
  ℕ, ◌+◌, ◌≤◌, ◌<◌, ◌≡◌, refl, ap, ◌∙◌, Bool, true, false, Option, none, some, List, [], ◌∷◌, arith,
  ltb, length, Bool-cases, inl, inr,
}
use scx_cognis.Config.Restart.{
  Failures, Turn, again, finished, returns_error, exits, re_executes, Ended, with_panic, is_rapid,
  next_failures, after_run, all_rapid,
}

-- What a round of the loop meets: the shutdown flag at its start, how the run of the scheduler ends,
-- and whether the new program that a panic asks for cannot be started.
pub record Round : Type 0 where
  pub shutdown : Bool
  pub ended : Ended
  pub exec_fails : Bool

-- How the process ends: `main` returns, with an error or not; it calls `exit` with a code; or it is
-- replaced by a new program. `exit_code` says what the parent process sees.
pub data Exit : Type 0 where
  returned replaced : Exit
  returned_error : List ℕ → Exit
  exited_with : ℕ → Exit

-- The exit code: a `main` that returns `Err` ends with code 1, as `exit(1)` does.
abbrev pub exit_code : Exit → Option ℕ
exit_code returned = some 0
exit_code (returned_error text) = some 1
exit_code (exited_with n) = some n
exit_code replaced = none

-- The arms of `match loop_result`, with how the loop goes on.
abbrev pub after_turn : (Failures → Option Exit) → Bool → Turn → Option Exit
after_turn go_on exec_fails (again g) = go_on g
after_turn go_on exec_fails finished = some returned
after_turn go_on exec_fails (returns_error e) = some (returned_error e)
after_turn go_on exec_fails (exits n) = some (exited_with n)
after_turn go_on true (re_executes g) = go_on g
after_turn go_on false (re_executes g) = some replaced

-- The loop from the counts `f` on; `none` is a loop that is still running after its rounds.
unfoldable pub main_loop : Failures → List Round → Option Exit
main_loop f [] = none
main_loop f (r ∷ rounds) = elim r.shutdown [
  | true ↦ some returned
  | false ↦ after_turn (λ g. main_loop g rounds) r.exec_fails (after_run f r.ended)
]

-- The counts at the start.
abbrev pub no_failures : Failures
no_failures = record { rapid_failures = 0; last_failure_at = none }

-- Rounds of which each ends with a panic at its time, and whose restart fails.
abbrev pub panicking : List ℕ → List Round
panicking [] = []
panicking (now ∷ times) =
    record { shutdown = false; ended = with_panic now; exec_fails = true } ∷ panicking times

pub panic_exits :
    (f : Failures) (now : ℕ)
    → 20 < (next_failures f now).rapid_failures
    → after_run f (with_panic now) ≡ exits 1
unfolding after_run
panic_exits f now h = ground arith

pub panic_restarts :
    (f : Failures) (now : ℕ)
    → (next_failures f now).rapid_failures ≤ 20
    → after_run f (with_panic now) ≡ re_executes (next_failures f now)
unfolding after_run
panic_restarts f now h = ground arith

pub main_loop-round :
    (f : Failures) (d : Ended) (x : Bool) (rounds : List Round) (t : Turn)
    → after_run f d ≡ t
    → main_loop f (record { shutdown = false; ended = d; exec_fails = x } ∷ rounds)
      ≡ after_turn (λ g. main_loop g rounds) x t
unfolding main_loop
main_loop-round f d x rounds t e = ap (after_turn (λ g. main_loop g rounds) x) e

next_failures-rapid :
    (f : Failures) (prev now : ℕ)
    → f.last_failure_at ≡ some prev
    → is_rapid (some prev) now ≡ true
    → f.rapid_failures ≤ 20
    → (next_failures f now).rapid_failures ≡ f.rapid_failures + 1
unfolding next_failures
next_failures-rapid f prev now e r h = rw (e, r) (omega arith)

next_failures-last : (f : Failures) (now : ℕ) → (next_failures f now).last_failure_at ≡ some now
unfolding next_failures
next_failures-last f now = refl

panicking-exits :
    (f : Failures) (prev : ℕ) (times : List ℕ)
    → f.last_failure_at ≡ some prev
    → f.rapid_failures ≤ 20
    → all_rapid prev times ≡ true
    → 20 < f.rapid_failures + length times
    → main_loop f (panicking times) ≡ some (exited_with 1)
unfolding all_rapid
panicking-exits f prev [] e k r h = absurd (omega arith)
panicking-exits f prev (now ∷ times) e k r h =
    let near : is_rapid (some prev) now ≡ true = ground arith in
    let far : all_rapid now times ≡ true = ground arith in
    let g = next_failures f now in
    let count : g.rapid_failures ≡ f.rapid_failures + 1 = next_failures-rapid f prev now e near k in
    elim (Bool-cases (ltb 20 g.rapid_failures)) [
      | inl over ↦
          main_loop-round f (with_panic now) true (panicking times) (exits 1)
            (panic_exits f now (ground arith))
      | inr under ↦
          let few : g.rapid_failures ≤ 20 = ground arith in
          main_loop-round f (with_panic now) true (panicking times) (re_executes g)
            (panic_restarts f now few)
          ∙ panicking-exits g now times (next_failures-last f now) few far (omega (arith, count))
    ]

next_failures-first : (now : ℕ) → (next_failures no_failures now).rapid_failures ≡ 1
unfolding next_failures
next_failures-first now = refl

-- When the scheduler panics at least 21 times, each panic at most 30 seconds after the one before it,
-- the new program can never be started and no shutdown is asked for, `main` exits with code 1.
pub main_loop-panics :
    (first : ℕ) (times : List ℕ)
    → all_rapid first times ≡ true
    → 20 ≤ length times
    → main_loop no_failures (panicking (first ∷ times)) ≡ some (exited_with 1)
main_loop-panics first times r h =
    let g = next_failures no_failures first in
    let one = next_failures-first first in
    main_loop-round no_failures (with_panic first) true (panicking times) (re_executes g)
      (panic_restarts no_failures first (omega (arith, one)))
    ∙ panicking-exits g first times (next_failures-last no_failures first) (omega (arith, one)) r
        (omega (arith, one))
