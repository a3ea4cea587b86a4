-- ===== src/Tui/Terminal/Life.antt =====
-- The terminal of src/tui/dashboard.rs is not left in raw mode.
use scx_cognis.Base.{
  ◌&&◌, ◌||◌, not, ap, ◌⊎◌, ◌≡◌, refl, ◌∙◌, Bool, true, false, if◌then◌else◌, Bool-cases, inl, inr,
  arith,
}
use scx_cognis.Tui.Terminal.{
  TerminalOps, Tty, restore_stdout_terminal, restore_terminal, emergency_restore_terminal,
  setup_terminal,
}

-- What crossterm documents of raw mode: the call that enables it may fail, and then leaves the mode
-- as it is, the one that disables it does so when it succeeds, and the others do not touch it.
pub record IsTerminal {S : Type 0} (ops : TerminalOps S) (is_raw : S → Bool) : Type 0 where
  pub enable_fails :
      (s : S) → (ops.enable_raw_mode s).1 ≡ false → is_raw (ops.enable_raw_mode s).0 ≡ is_raw s
  pub disable_off :
      (s : S) → (ops.disable_raw_mode s).1 ≡ true → is_raw (ops.disable_raw_mode s).0 ≡ false
  pub enter_keeps : (s : S) → is_raw (ops.enter s).0 ≡ is_raw s
  pub leave_keeps : (s : S) → is_raw (ops.leave s).0 ≡ is_raw s
  pub flush_keeps : (s : S) → is_raw (ops.flush s).0 ≡ is_raw s
  pub new_terminal_keeps : (s : S) → is_raw (ops.new_terminal s).0 ≡ is_raw s
  pub show_cursor_keeps : (s : S) → is_raw (ops.show_cursor s).0 ≡ is_raw s

-- What the calls do to a test that no `disable_raw_mode` leaves true.
pub record IsCleared {S : Type 0} (ops : TerminalOps S) (is_raw : S → Bool) : Type 0 where
  pub enable_fails :
      (s : S) → (ops.enable_raw_mode s).1 ≡ false → is_raw (ops.enable_raw_mode s).0 ≡ is_raw s
  pub disable_off : (s : S) → is_raw (ops.disable_raw_mode s).0 ≡ false
  pub enter_keeps : (s : S) → is_raw (ops.enter s).0 ≡ is_raw s
  pub leave_keeps : (s : S) → is_raw (ops.leave s).0 ≡ is_raw s
  pub flush_keeps : (s : S) → is_raw (ops.flush s).0 ≡ is_raw s
  pub new_terminal_keeps : (s : S) → is_raw (ops.new_terminal s).0 ≡ is_raw s
  pub show_cursor_keeps : (s : S) → is_raw (ops.show_cursor s).0 ≡ is_raw s

-- The same calls, which also record whether a `disable_raw_mode` has failed; the source discards its
-- result.
abbrev carry : {S : Type 0} → (S → S × Bool) → S × Bool → (S × Bool) × Bool
carry f (s, b) = (((f s).0, b), (f s).1)

abbrev pub recording : {S : Type 0} → TerminalOps S → TerminalOps (S × Bool)
recording ops = record {
  enable_raw_mode = carry ops.enable_raw_mode;
  disable_raw_mode = λ p. (
    ((ops.disable_raw_mode p.0).0, p.1 || not (ops.disable_raw_mode p.0).1),
    (ops.disable_raw_mode p.0).1,
  );
  enter = carry ops.enter;
  leave = carry ops.leave;
  flush = carry ops.flush;
  new_terminal = carry ops.new_terminal;
  show_cursor = carry ops.show_cursor;
}

-- A terminal of which no failure is recorded yet.
abbrev pub recorded : {S : Type 0} → Tty S → Tty (S × Bool)
recorded t = record { screen = (t.screen, false); is_active = t.is_active }

-- The terminal is in raw mode although no `disable_raw_mode` has failed.
abbrev pub left_raw : {S : Type 0} → (S → Bool) → S × Bool → Bool
left_raw is_raw p = is_raw p.0 && not p.1

-- It is not in raw mode, or a `disable_raw_mode` has failed.
abbrev pub NotRaw : {S : Type 0} → (S → Bool) → Tty (S × Bool) → Type 0
NotRaw is_raw t = (is_raw t.screen.0 ≡ false) ⊎ (t.screen.1 ≡ true)

pub left_raw-NotRaw :
    {S : Type 0} (is_raw : S → Bool) (t : Tty (S × Bool))
    → left_raw is_raw t.screen ≡ false
    → NotRaw is_raw t
left_raw-NotRaw is_raw t h = ground arith

disable-left :
    (raw ok failed : Bool) → (ok ≡ true → raw ≡ false) → (raw && not (failed || not ok)) ≡ false
disable-left raw true failed h = rw (h refl) refl
disable-left raw false failed h = ground arith

pub recording-IsCleared :
    {S : Type 0} (ops : TerminalOps S) (is_raw : S → Bool)
    → IsTerminal ops is_raw
    → IsCleared (recording ops) (left_raw is_raw)
recording-IsCleared ops is_raw v = record {
  enable_fails = λ p e. ap (λ r. r && not p.1) (v.enable_fails p.0 e);
  disable_off = λ p.
      disable-left (is_raw (ops.disable_raw_mode p.0).0) (ops.disable_raw_mode p.0).1 p.1
        (v.disable_off p.0);
  enter_keeps = λ p. ap (λ r. r && not p.1) (v.enter_keeps p.0);
  leave_keeps = λ p. ap (λ r. r && not p.1) (v.leave_keeps p.0);
  flush_keeps = λ p. ap (λ r. r && not p.1) (v.flush_keeps p.0);
  new_terminal_keeps = λ p. ap (λ r. r && not p.1) (v.new_terminal_keeps p.0);
  show_cursor_keeps = λ p. ap (λ r. r && not p.1) (v.show_cursor_keeps p.0);
}

module _ {S : Type 0} (ops : TerminalOps S) (is_raw : S → Bool) where
  -- One call of the program on its terminal.
  pub data Call : Tty S → Tty S → Type 0 where
    setup : (t : Tty S) → Call t (setup_terminal ops t).0
    restore : (t : Tty S) → Call t (restore_terminal ops t).0
    restore_stdout : (t : Tty S) → Call t (restore_stdout_terminal ops t).0
    emergency : (t : Tty S) → Call t (emergency_restore_terminal ops t)

  pub data Calls (t : Tty S) : Tty S → Type 0 where
    none_yet : Calls t t
    and_then : (u v : Tty S) → Calls t u → Call u v → Calls t v

  restore_stdout-is_raw :
      (t : Tty S) → IsCleared ops is_raw → is_raw (restore_stdout_terminal ops t).0.screen ≡ false
  unfolding restore_stdout_terminal
  restore_stdout-is_raw t v =
      let s₁ = (ops.disable_raw_mode t.screen).0 in
      let s₂ = (ops.leave s₁).0 in
      let left : is_raw s₂ ≡ false = v.leave_keeps s₁ ∙ v.disable_off t.screen in
      let flushed : is_raw (ops.flush s₂).0 ≡ false = v.flush_keeps s₂ ∙ left in
      elim (Bool-cases (ops.leave s₁).1) [
        | inl good ↦ elim (Bool-cases (ops.flush s₂).1) [
          | inl good' ↦ rw (good, good') flushed
          | inr bad ↦ rw (good, bad) flushed
        ]
        | inr bad ↦ rw bad left
      ]

  pub restore-is_raw :
      (t : Tty S) → IsCleared ops is_raw → is_raw (restore_terminal ops t).0.screen ≡ false
  unfolding restore_terminal
  restore-is_raw t v =
      let t' = (restore_stdout_terminal ops t).0 in
      let off : is_raw t'.screen ≡ false = restore_stdout-is_raw t v in
      elim (Bool-cases (restore_stdout_terminal ops t).1) [
        | inl good ↦ rw good (v.show_cursor_keeps t'.screen ∙ off)
        | inr bad ↦ rw bad off
      ]

  -- The terminal is in raw mode only while the flag says that it is active.
  abbrev pub IsGuarded : Tty S → Type 0
  IsGuarded t = t.is_active ≡ false → is_raw t.screen ≡ false

  pub setup-IsGuarded :
      (t : Tty S) → IsCleared ops is_raw → IsGuarded t → IsGuarded (setup_terminal ops t).0
  unfolding setup_terminal
  setup-IsGuarded t v g =
      let s₁ = (ops.enable_raw_mode t.screen).0 in
      let s₂ = (ops.enter s₁).0 in
      let s₃ = (ops.new_terminal s₂).0 in
      elim (Bool-cases (ops.enable_raw_mode t.screen).1) [
        | inr bad ↦ rw bad (λ h. v.enable_fails t.screen bad ∙ g h)
        | inl raw ↦ elim (Bool-cases (ops.enter s₁).1) [
          | inr bad ↦ rw (raw, bad) (λ h. v.disable_off s₂)
          | inl entered ↦ elim (Bool-cases (ops.new_terminal s₂).1) [
            | inr bad ↦
                rw (raw, entered, bad) (λ h. restore_stdout-is_raw (record t { screen = s₃ }) v)
            | inl made ↦ rw (raw, entered, made) (λ h. absurd (ground arith))
          ]
        ]
      ]

  if-is_raw :
      (b : Bool) (x y : Tty S)
      → is_raw x.screen ≡ false
      → (b ≡ false → is_raw y.screen ≡ false)
      → is_raw (if b then x else y).screen ≡ false
  if-is_raw true x y h g = h
  if-is_raw false x y h g = g refl

  emergency-IsGuarded :
      (t : Tty S)
      → IsCleared ops is_raw
      → IsGuarded t
      → is_raw (emergency_restore_terminal ops t).screen ≡ false
  unfolding emergency_restore_terminal
  emergency-IsGuarded t v g =
      if-is_raw t.is_active (restore_stdout_terminal ops t).0 t (restore_stdout-is_raw t v) g

  Call-IsGuarded : (t u : Tty S) → IsCleared ops is_raw → IsGuarded t → Call t u → IsGuarded u
  Call-IsGuarded _ _ v g (setup t) = setup-IsGuarded t v g
  Call-IsGuarded _ _ v g (restore t) = λ h. restore-is_raw t v
  Call-IsGuarded _ _ v g (restore_stdout t) = λ h. restore_stdout-is_raw t v
  Call-IsGuarded _ _ v g (emergency t) = λ h. emergency-IsGuarded t v g

  Calls-IsGuarded : (t u : Tty S) → IsCleared ops is_raw → IsGuarded t → Calls t u → IsGuarded u
  Calls-IsGuarded t _ v g none_yet = g
  Calls-IsGuarded t _ v g (and_then u w r c) = Call-IsGuarded u w v (Calls-IsGuarded t u v g r) c

-- Given what crossterm documents of raw mode: from a terminal that is not in raw mode, and after any
-- calls in any order, of which any may fail at any point, `TUI_TERMINAL_ACTIVE` is set or the
-- terminal is not in raw mode, and after `emergency_restore_terminal`, the call of the panic hook,
-- it is not, in both cases unless a call of `disable_raw_mode` itself has failed.
pub emergency-restores :
    {S : Type 0} (ops : TerminalOps S) (is_raw : S → Bool) (t : Tty S) (u : Tty (S × Bool))
    → IsTerminal ops is_raw
    → is_raw t.screen ≡ false
    → Calls (recording ops) (left_raw is_raw) (recorded t) u
    → ((u.is_active ≡ true) ⊎ NotRaw is_raw u)
      × NotRaw is_raw (emergency_restore_terminal (recording ops) u)
emergency-restores ops is_raw t u v h r =
    let c = recording-IsCleared ops is_raw v in
    let p = left_raw is_raw in
    let g : IsGuarded (recording ops) p u =
      Calls-IsGuarded (recording ops) p (recorded t) u c (λ a. rw h refl) r in
    (
      elim (Bool-cases u.is_active) [
        | inl active ↦ inl active
        | inr idle ↦ inr (left_raw-NotRaw is_raw u (g idle))
      ],
      left_raw-NotRaw is_raw (emergency_restore_terminal (recording ops) u)
          (emergency-IsGuarded (recording ops) p u c g),
    )
