-- ===== src/Tui/Terminal.antt =====
-- The terminal's life in src/tui/dashboard.rs: `setup_terminal`, `restore_terminal`,
-- `restore_stdout_terminal` and `emergency_restore_terminal`. The calls of crossterm and ratatui are
-- a parameter: functions on the state of the terminal that return whether they succeed.
pub mod Life
use scx_cognis.Base.{ℕ, Bool, true, false, if◌then◌else◌, ◌≡◌}

pub record TerminalOps (S : Type 0) : Type 0 where
  pub enable_raw_mode : S → S × Bool
  pub disable_raw_mode : S → S × Bool
  -- `execute!(stdout, EnterAlternateScreen, EnableMouseCapture)`
  pub enter : S → S × Bool
  -- `execute!(stdout, LeaveAlternateScreen, DisableMouseCapture, Show)`
  pub leave : S → S × Bool
  pub flush : S → S × Bool
  pub new_terminal : S → S × Bool
  pub show_cursor : S → S × Bool

-- The terminal, and `TUI_TERMINAL_ACTIVE`.
pub record Tty (S : Type 0) : Type 0 where
  pub screen : S
  pub is_active : Bool

module _ {S : Type 0} (ops : TerminalOps S) where
  -- `restore_stdout_terminal`, with whether it succeeds.
  unfoldable pub restore_stdout_terminal : Tty S → Tty S × Bool
  restore_stdout_terminal t =
      let (s₁, raw_ok) = ops.disable_raw_mode t.screen in
      let (s₂, leave_ok) = ops.leave s₁ in
      let (s₃, flush_ok) = ops.flush s₂ in
      if leave_ok
      then if flush_ok
        then (record { screen = s₃; is_active = false }, true)
        else (record t { screen = s₃ }, false)
      else (record t { screen = s₂ }, false)

  -- `restore_terminal`
  unfoldable pub restore_terminal : Tty S → Tty S × Bool
  restore_terminal t =
      let (t', ok) = restore_stdout_terminal t in
      let (s, cursor_ok) = ops.show_cursor t'.screen in
      if ok then (record t' { screen = s }, cursor_ok) else (t', false)

  -- `emergency_restore_terminal`
  unfoldable pub emergency_restore_terminal : Tty S → Tty S
  emergency_restore_terminal t = if t.is_active then (restore_stdout_terminal t).0 else t

  -- `setup_terminal`
  unfoldable pub setup_terminal : Tty S → Tty S × Bool
  setup_terminal t =
      let (s₁, raw_ok) = ops.enable_raw_mode t.screen in
      let (s₂, enter_ok) = ops.enter s₁ in
      let (s₃, terminal_ok) = ops.new_terminal s₂ in
      if raw_ok
      then if enter_ok
        then if terminal_ok
          then (record { screen = s₃; is_active = true }, true)
          else ((restore_stdout_terminal (record t { screen = s₃ })).0, false)
        else (record t { screen = (ops.disable_raw_mode s₂).0 }, false)
      else (record t { screen = s₁ }, false)
