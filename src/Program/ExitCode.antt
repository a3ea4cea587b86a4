-- ===== src/Program/ExitCode.antt =====
-- When the restart loop of `main` in src/main.rs ends the process with exit code 1.
use scx_cognis.Base.{
  ◌⊎◌, ◌++◌, ℕ, suc, ◌+◌, ◌≤◌, ◌≡◌, refl, sym, ap, ◌∙◌, Bool, true, false, Option, none, some, List,
  [], ◌∷◌, arith, ltb, if◌then◌else◌, Bool-cases, inl, inr, Option-cases,
}
use scx_cognis.Config.Restart.{
  Failures, returns_error, exits, re_executes, Ended, normally, with_error, with_panic,
  next_failures, after_run, runtime_exit_reason,
}
use scx_cognis.Program.MainLoop.{
  Round, Exit, returned, replaced, returned_error, exited_with, exit_code, after_turn, main_loop,
  main_loop-round, panic_exits, panic_restarts,
}

abbrev pub is_panic : Ended → Bool
is_panic (normally b) = false
is_panic (with_error e) = false
is_panic (with_panic now) = true

-- How many rounds end with a panic.
abbrev pub panic_count : List Round → ℕ
panic_count [] = 0
panic_count (r ∷ rounds) =
    let rest = panic_count rounds in if is_panic r.ended then suc rest else rest

next_failures_bound :
    (f : Failures) (now : ℕ) → (next_failures f now).rapid_failures ≤ f.rapid_failures + 1
unfolding next_failures
next_failures_bound f now = ground arith

error_returns :
    (f : Failures) (text : List ℕ)
    → runtime_exit_reason text ≡ none
    → after_run f (with_error text) ≡ returns_error text
unfolding after_run
error_returns f text e = rw e refl

error_exits :
    (f : Failures) (text reason : List ℕ)
    → runtime_exit_reason text ≡ some reason
    → after_run f (with_error text) ≡ exits 86
unfolding after_run
error_exits f text reason e = rw e refl

panic_goes :
    (g : Failures) (x : Bool) (rounds : List Round)
    → ((h : Failures)
        → main_loop h rounds ≡ some (exited_with 1)
        → 21 ≤ h.rapid_failures + panic_count rounds)
    → after_turn (λ h. main_loop h rounds) x (re_executes g) ≡ some (exited_with 1)
    → 21 ≤ g.rapid_failures + panic_count rounds
panic_goes g true rounds ih e = ih g e
panic_goes g false rounds ih e = absurd (ground arith)

-- An exit with code 1 in a round means a further panic.
exit_one-round :
    (f : Failures) (s : Bool) (d : Ended) (x : Bool) (rounds : List Round)
    → ((g : Failures)
        → main_loop g rounds ≡ some (exited_with 1)
        → 21 ≤ g.rapid_failures + panic_count rounds)
    → main_loop f (record { shutdown = s; ended = d; exec_fails = x } ∷ rounds)
      ≡ some (exited_with 1)
    → 21
      ≤ f.rapid_failures + panic_count (record { shutdown = s; ended = d; exec_fails = x } ∷ rounds)
unfolding main_loop after_run
exit_one-round f true d x rounds ih e = absurd (ground arith)
exit_one-round f false (normally true) x rounds ih e = ih f e
exit_one-round f false (normally false) x rounds ih e = absurd (ground arith)
exit_one-round f false (with_error text) x rounds ih e =
    elim (Option-cases (runtime_exit_reason text)) [
      | inl plain ↦
          let r =
            main_loop-round f (with_error text) x rounds (returns_error text)
              (error_returns f text plain) in
          let no : some (returned_error text) ≡ some (exited_with 1) = sym r ∙ e in
          absurd (ground arith)
      | inr (reason, exit) ↦
          let r =
            main_loop-round f (with_error text) x rounds (exits 86)
              (error_exits f text reason exit) in
          let no : some (exited_with 86) ≡ some (exited_with 1) = sym r ∙ e in absurd (ground arith)
    ]
exit_one-round f false (with_panic now) x rounds ih e =
    let g = next_failures f now in
    let bound = next_failures_bound f now in
    elim (Bool-cases (ltb 20 g.rapid_failures)) [
      | inl over ↦ ground (arith, bound)
      | inr under ↦
          let few : g.rapid_failures ≤ 20 = ground arith in
          let r =
            main_loop-round f (with_panic now) x rounds (re_executes g)
              (panic_restarts f now few) in
          let goes : after_turn (λ h. main_loop h rounds) x (re_executes g) ≡ some (exited_with 1) =
            sym r ∙ e in
          omega (arith, bound, panic_goes g x rounds ih goes)
    ]

-- Where `main` calls `exit(1)`, the rapid failures that were counted before and the rounds that ended
-- with a panic are together at least 21.
main_loop-exits :
    (f : Failures) (rounds : List Round)
    → main_loop f rounds ≡ some (exited_with 1)
    → 21 ≤ f.rapid_failures + panic_count rounds
unfolding main_loop
main_loop-exits f [] e = absurd (ground arith)
main_loop-exits f (r ∷ rounds) e =
    exit_one-round f r.shutdown r.ended r.exec_fails rounds (λ g. main_loop-exits g rounds) e

-- A round of these ended with an error of this text, which tells of no runtime exit.
pub record Fails (text : List ℕ) (rounds : List Round) : Type 0 where
  pub plain : runtime_exit_reason text ≡ none
  pub before : List Round
  pub round : Round
  pub after : List Round
  pub split : rounds ≡ before ++ round ∷ after
  pub ended : round.ended ≡ with_error text

Fails-later :
    (text : List ℕ) (r : Round) (rounds : List Round) → Fails text rounds → Fails text (r ∷ rounds)
Fails-later text r rounds h = record {
  plain = h.plain;
  before = r ∷ h.before;
  round = h.round;
  after = h.after;
  split = ap (λ rs. r ∷ rs) h.split;
  ended = h.ended;
}

error_text : Option Exit → List ℕ
error_text (some (returned_error text)) = text
error_text (some returned) = []
error_text (some replaced) = []
error_text (some (exited_with n)) = []
error_text none = []

returned_error-text : (a b : List ℕ) → some (returned_error a) ≡ some (returned_error b) → a ≡ b
unfolding error_text
returned_error-text a b e = ap error_text e

panic-Fails :
    (f : Failures) (now : ℕ) (x : Bool) (rounds : List Round) (text : List ℕ)
    → ((g : Failures) → main_loop g rounds ≡ some (returned_error text) → Fails text rounds)
    → main_loop f (record { shutdown = false; ended = with_panic now; exec_fails = x } ∷ rounds)
      ≡ some (returned_error text)
    → Fails text rounds
panic-Fails f now x rounds text ih e =
    let g = next_failures f now in
    elim (Bool-cases (ltb 20 g.rapid_failures)) [
      | inl over ↦
          let r =
            main_loop-round f (with_panic now) x rounds (exits 1)
              (panic_exits f now (ground arith)) in
          let no : some (exited_with 1) ≡ some (returned_error text) = sym r ∙ e in
          absurd (ground arith)
      | inr under ↦
          let r =
            main_loop-round f (with_panic now) x rounds (re_executes g)
              (panic_restarts f now (ground arith)) in
          goes x (sym r ∙ e)
    ]
  where
    goes :
        (y : Bool)
        → after_turn (λ h. main_loop h rounds) y (re_executes (next_failures f now))
          ≡ some (returned_error text)
        → Fails text rounds
    goes true k = ih (next_failures f now) k
    goes false k = absurd (ground arith)

error_round :
    (f : Failures) (s : Bool) (d : Ended) (x : Bool) (rounds : List Round) (text : List ℕ)
    → ((g : Failures) → main_loop g rounds ≡ some (returned_error text) → Fails text rounds)
    → main_loop f (record { shutdown = s; ended = d; exec_fails = x } ∷ rounds)
      ≡ some (returned_error text)
    → Fails text (record { shutdown = s; ended = d; exec_fails = x } ∷ rounds)
unfolding main_loop after_run
error_round f true d x rounds text ih e = absurd (ground arith)
error_round f false (normally true) x rounds text ih e = Fails-later text _ rounds (ih f e)
error_round f false (normally false) x rounds text ih e = absurd (ground arith)
error_round f false (with_error said) x rounds text ih e =
    elim (Option-cases (runtime_exit_reason said)) [
      | inl plain ↦
          let r =
            main_loop-round f (with_error said) x rounds (returns_error said)
              (error_returns f said plain) in
          let same : said ≡ text = returned_error-text said text (sym r ∙ e) in
          record {
            plain = ap runtime_exit_reason (sym same) ∙ plain;
            before = [];
            round = record { shutdown = false; ended = with_error said; exec_fails = x };
            after = rounds;
            split = refl;
            ended = ap with_error same;
          }
      | inr (reason, exit) ↦
          let r =
            main_loop-round f (with_error said) x rounds (exits 86)
              (error_exits f said reason exit) in
          let no : some (exited_with 86) ≡ some (returned_error text) = sym r ∙ e in
          absurd (ground arith)
    ]
error_round f false (with_panic now) x rounds text ih e =
    Fails-later text _ rounds (panic-Fails f now x rounds text ih e)

main_loop-Fails :
    (f : Failures) (rounds : List Round) (text : List ℕ)
    → main_loop f rounds ≡ some (returned_error text)
    → Fails text rounds
unfolding main_loop
main_loop-Fails f [] text e = absurd (ground arith)
main_loop-Fails f (r ∷ rounds) text e =
    error_round f r.shutdown r.ended r.exec_fails rounds text (λ g. main_loop-Fails g rounds text) e

-- Where the process ends with exit code 1, either the rapid failures that were counted before and the
-- rounds that ended with a panic are together at least 21, or `main` returned the error of a round,
-- whose text tells of no runtime exit of sched_ext.
pub main_loop-exit_one :
    (f : Failures) (rounds : List Round) (x : Exit)
    → main_loop f rounds ≡ some x
    → exit_code x ≡ some 1
    → (21 ≤ f.rapid_failures + panic_count rounds)
      ⊎ ((text : List ℕ) × (x ≡ returned_error text) × Fails text rounds)
main_loop-exit_one f rounds returned e c = absurd (ground arith)
main_loop-exit_one f rounds replaced e c = absurd (ground arith)
main_loop-exit_one f rounds (returned_error text) e c =
    inr (text, refl, main_loop-Fails f rounds text e)
main_loop-exit_one f rounds (exited_with n) e c =
    let one : n ≡ 1 = ground arith in
    inl (main_loop-exits f rounds (e ∙ ap (λ k. some (exited_with k)) one))
