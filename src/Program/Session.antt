-- ===== src/Program/Session.antt =====
-- The terminal over the life of a `Scheduler` of src/main.rs: `init` sets it up, and `drop` restores it
-- and waits until the kernel has let go of the scheduler.
use scx_cognis.Base.{
  ℕ, ◌≡◌, refl, Bool, true, false, Option, List, Result, if◌then◌else◌, Bool-cases, inl, inr, arith,
}
use scx_cognis.Bpf.OpsName.{wait_for_detach}
use scx_cognis.Tui.Terminal.{
  TerminalOps, Tty, setup_terminal, restore_terminal, restore_stdout_terminal,
}
use scx_cognis.Tui.Terminal.Life.{
  IsTerminal, IsCleared, recording, recorded, left_raw, NotRaw, left_raw-NotRaw,
  recording-IsCleared, setup-IsGuarded, restore-is_raw,
}

module _ {S : Type 0} (ops : TerminalOps S) where
  -- `tui_term` of `init`, where `opts.tui` asks for it: whether there is a terminal.
  unfoldable pub start_terminal : (tui : Bool) → Tty S → Tty S × Bool
  start_terminal tui t = if tui then setup_terminal ops t else (t, false)

  -- `drop`: the terminal after it, and the name that is still attached. The polls of
  -- `wait_for_detach` are at most 51.
  unfoldable pub drop_scheduler :
      (has_term : Bool)
      → Tty S
      → (reads : ℕ → Result (List ℕ) ℕ) → (elapsed : ℕ → ℕ) → Tty S × Option (Option (List ℕ))
  drop_scheduler has_term t reads elapsed =
      (if has_term then (restore_terminal ops t).0 else t, wait_for_detach reads elapsed 0 51)

  restore_stdout-inactive :
      (t : Tty S) → t.is_active ≡ false → (restore_stdout_terminal ops t).0.is_active ≡ false
  unfolding restore_stdout_terminal
  restore_stdout-inactive t h =
      let s₁ = (ops.disable_raw_mode t.screen).0 in
      let s₂ = (ops.leave s₁).0 in
      elim (Bool-cases (ops.leave s₁).1) [
        | inr bad ↦ rw bad h
        | inl good ↦ elim (Bool-cases (ops.flush s₂).1) [
          | inl good' ↦ rw (good, good') refl
          | inr bad ↦ rw (good, bad) h
        ]
      ]

  -- A set-up that fails leaves the flag off.
  setup-inactive :
      (t : Tty S)
      → t.is_active ≡ false
      → (setup_terminal ops t).1 ≡ false
      → (setup_terminal ops t).0.is_active ≡ false
  unfolding setup_terminal
  setup-inactive t h =
      let s₁ = (ops.enable_raw_mode t.screen).0 in
      let s₂ = (ops.enter s₁).0 in
      let s₃ = (ops.new_terminal s₂).0 in
      elim (Bool-cases (ops.enable_raw_mode t.screen).1) [
        | inr bad ↦ rw bad (λ e. h)
        | inl raw ↦ elim (Bool-cases (ops.enter s₁).1) [
          | inr bad ↦ rw (raw, bad) (λ e. h)
          | inl entered ↦ elim (Bool-cases (ops.new_terminal s₂).1) [
            | inr bad ↦
                rw (raw, entered, bad) (λ e. restore_stdout-inactive (record t { screen = s₃ }) h)
            | inl made ↦ rw (raw, entered, made) (λ e. absurd (ground arith))
          ]
        ]
      ]

  dropped-is_raw :
      (is_raw : S → Bool) (b : Bool) (t : Tty S)
      → IsCleared ops is_raw
      → (b ≡ false → is_raw t.screen ≡ false)
      → is_raw (if b then (restore_terminal ops t).0 else t).screen ≡ false
  dropped-is_raw is_raw true t v h = restore-is_raw ops is_raw t v
  dropped-is_raw is_raw false t v h = h refl

  started-is_raw :
      (is_raw : S → Bool) (tui : Bool) (t : Tty S)
      → IsCleared ops is_raw
      → t.is_active ≡ false
      → is_raw t.screen ≡ false
      → (start_terminal tui t).1 ≡ false
      → is_raw (start_terminal tui t).0.screen ≡ false
  unfolding start_terminal
  started-is_raw is_raw true t v idle off e =
      setup-IsGuarded ops is_raw t v (λ h. off) (setup-inactive t idle e)
  started-is_raw is_raw false t v idle off e = off

-- Given what crossterm documents of raw mode: a scheduler that starts on a terminal that is neither in
-- raw mode nor marked as active leaves it out of raw mode when it is dropped, whether the dashboard
-- was asked for or not, whichever call of its set-up failed, and whatever the wait for the kernel
-- meets, unless a call of `disable_raw_mode` itself has failed.
pub drop-is_raw :
    {S : Type 0} (ops : TerminalOps S) (is_raw : S → Bool) (tui : Bool) (t : Tty S)
    → (reads : ℕ → Result (List ℕ) ℕ) (elapsed : ℕ → ℕ) → IsTerminal ops is_raw
    → t.is_active ≡ false
    → is_raw t.screen ≡ false
    → NotRaw is_raw
        (drop_scheduler
          (recording ops)
          (start_terminal (recording ops) tui (recorded t)).1
          (start_terminal (recording ops) tui (recorded t)).0
          reads
          elapsed).0
unfolding drop_scheduler
drop-is_raw ops is_raw tui t reads elapsed v idle off =
    let c = recording-IsCleared ops is_raw v in
    let p = left_raw is_raw in
    let s = start_terminal (recording ops) tui (recorded t) in
    left_raw-NotRaw is_raw (if s.1 then (restore_terminal (recording ops) s.0).0 else s.0) (
      dropped-is_raw (recording ops) p s.1 s.0 c
        (started-is_raw (recording ops) p tui (recorded t) c idle (rw off refl)))
