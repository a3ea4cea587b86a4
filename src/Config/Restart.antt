-- ===== src/Config/Restart.antt =====
-- How `main` of src/main.rs goes on after a run of the scheduler: the reasons of a runtime exit and
-- the count of rapid failures.
use scx_cognis.Base.{
  ℕ, ◌+◌, ◌-◌, ◌≤◌, ◌^◌, ◌≡◌, refl, min, Bool, true, false, ◌&&◌, ◌||◌, Option, none, some, List,
  [], ◌∷◌, arith, ltb, leb, ◌==◌, if◌then◌else◌, drop, length, Bool-cases, inl, inr,
}
use scx_cognis.Scheduler.Features.{codes, starts_with}

-- `char::is_whitespace`, on code points.
abbrev pub is_whitespace : ℕ → Bool
is_whitespace c =
    (leb 9 c && leb c 13)
    || (c == 32
        || (c == 133
            || (c == 160
                || (c == 5760
                    || ((leb 8192 c && leb c 8202)
                        || (c == 8232
                            || (c == 8233 || (c == 8239 || (c == 8287 || c == 12288)))))))))

unfoldable pub trim_start : List ℕ → List ℕ
trim_start [] = []
trim_start (c ∷ cs) = let rest = trim_start cs in if is_whitespace c then rest else c ∷ cs

-- A character in front of a text whose end is trimmed.
abbrev pub keep : ℕ → List ℕ → List ℕ
keep c [] = if is_whitespace c then [] else c ∷ []
keep c (d ∷ rest) = c ∷ d ∷ rest

unfoldable pub trim_end : List ℕ → List ℕ
trim_end [] = []
trim_end (c ∷ cs) = keep c (trim_end cs)

unfoldable pub trim : List ℕ → List ℕ
trim s = trim_end (trim_start s)

-- The reason in the text of an error, which is that of a runtime exit when it starts with `EXIT:`.
unfoldable pub runtime_exit_reason : List ℕ → Option (List ℕ)
runtime_exit_reason s = if starts_with (codes "EXIT:") s then some (trim (drop 5 s)) else none

-- `str::contains`
unfoldable pub occurs_in : List ℕ → List ℕ → Bool
occurs_in p [] = starts_with p []
occurs_in p (c ∷ cs) = starts_with p (c ∷ cs) || occurs_in p cs

unfoldable pub is_watchdog_runtime_exit : List ℕ → Bool
is_watchdog_runtime_exit reason =
    occurs_in (codes "runnable task stall") reason
    || occurs_in (codes "watchdog failed to check in") reason

-- `rapid_failures` and `last_failure_at`.
pub record Failures : Type 0 where
  pub rapid_failures : ℕ
  pub last_failure_at : Option ℕ

-- What a turn of the loop of `main` comes to. A panic replaces the process by a new one; where that
-- fails, the loop goes on.
pub data Turn : Type 0 where
  again : Failures → Turn
  finished : Turn
  returns_error : List ℕ → Turn
  exits : ℕ → Turn
  re_executes : Failures → Turn

-- How a run of the scheduler ended: normally, with the wish to restart or not; with an error; or
-- with a panic, at a time.
pub data Ended : Type 0 where
  normally : Bool → Ended
  with_error : List ℕ → Ended
  with_panic : ℕ → Ended

abbrev pub is_rapid : Option ℕ → ℕ → Bool
is_rapid none now = false
is_rapid (some prev) now = leb (now - prev) 30_000_000_000

unfoldable pub next_failures : Failures → ℕ → Failures
next_failures f now = record {
  rapid_failures =
      if is_rapid f.last_failure_at now then min (f.rapid_failures + 1) (2 ^ 32 - 1) else 1;
  last_failure_at = some now;
}

abbrev pub after_error : List ℕ → Option (List ℕ) → Turn
after_error e none = returns_error e
after_error e (some reason) = exits 86

unfoldable pub after_run : Failures → Ended → Turn
after_run f (normally true) = again f
after_run f (normally false) = finished
after_run f (with_error e) = after_error e (runtime_exit_reason e)
after_run f (with_panic now) =
    let g = next_failures f now in if ltb 20 g.rapid_failures then exits 1 else re_executes g

-- A panic after each of the times, all in one process.
unfoldable pub panics : Failures → List ℕ → Failures
panics f [] = f
panics f (now ∷ rest) = panics (next_failures f now) rest

-- Each panic comes at most 30 seconds after the one before it.
unfoldable pub all_rapid : ℕ → List ℕ → Bool
all_rapid prev [] = true
all_rapid prev (now ∷ rest) = is_rapid (some prev) now && all_rapid now rest

next_rapid :
    (f : Failures) (prev now : ℕ)
    → f.last_failure_at ≡ some prev
    → is_rapid (some prev) now ≡ true
    → (next_failures f now).rapid_failures ≡ min (f.rapid_failures + 1) (2 ^ 32 - 1)
unfolding next_failures
next_rapid f prev now e r = rw e (ground arith)

next_late :
    (f : Failures) (prev now : ℕ)
    → f.last_failure_at ≡ some prev
    → is_rapid (some prev) now ≡ false
    → (next_failures f now).rapid_failures ≡ 1
unfolding next_failures
next_late f prev now e r = rw e (ground arith)

next_last : (f : Failures) (now : ℕ) → (next_failures f now).last_failure_at ≡ some now
unfolding next_failures
next_last f now = refl

-- After a first panic, further panics in one process, each at most 30 seconds after the one
-- before it, are all counted, up to the largest 32-bit number.
pub rapid-panics :
    (f : Failures) (prev : ℕ) (times : List ℕ)
    → f.rapid_failures ≤ 2 ^ 32 - 1
    → f.last_failure_at ≡ some prev
    → all_rapid prev times ≡ true
    → (panics f times).rapid_failures ≡ min (f.rapid_failures + length times) (2 ^ 32 - 1)
unfolding panics all_rapid
rapid-panics f prev [] h e r = omega (arith, h)
rapid-panics f prev (now ∷ rest) h e r =
    let near : is_rapid (some prev) now ≡ true = ground arith in
    let far : all_rapid now rest ≡ true = ground arith in
    let step = next_rapid f prev now e near in
    let ih =
      rapid-panics (next_failures f now) now rest (omega (arith, step)) (next_last f now) far in
    omega (arith, ih, step)

-- After a panic that was not the first in its process, the program gives up with the code 1
-- exactly when the panic came within 30 seconds and at least 20 rapid ones are counted; else it
-- is executed again.
pub after_run-panic :
    (f : Failures) (prev now : ℕ)
    → f.last_failure_at ≡ some prev
    → f.rapid_failures ≤ 2 ^ 32 - 1
    → after_run f (with_panic now) ≡ (
        if leb (now - prev) 30_000_000_000 && leb 20 f.rapid_failures
        then exits 1
        else re_executes (next_failures f now))
unfolding after_run
after_run-panic f prev now e h = elim (Bool-cases (is_rapid (some prev) now)) [
  | inl r ↦ ground (arith, next_rapid f prev now e r)
  | inr r ↦ ground (arith, next_late f prev now e r)
]
