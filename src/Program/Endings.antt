-- ===== src/Program/Endings.antt =====
-- How the loop of `run` in src/main.rs ends, and when it stops answering the statistics' client.
use scx_cognis.Base.{
  ◌++◌, ◌⊎◌, ℕ, ◌≡◌, refl, ap, ◌∙◌, Bool, true, false, not, ◌&&◌, ◌||◌, Option, none, some, List,
  [], ◌∷◌, leb, if◌then◌else◌, Bool-cases, inl, inr, arith,
}
use scx_cognis.Floats.{Floats}
use scx_cognis.Program.{
  Running, TurnInput, exited, bpf_exited, user_quit, work, refresh, serve_stats, keep_house,
  tick_dashboard, polled, refreshed, render, turn, run, bpf_writes,
}
use scx_cognis.Program.Observers.{keep_house-rest}
use scx_cognis.Scheduler.Housekeeping.{elapsed}
use scx_cognis.Stats.{Metrics}
use scx_cognis.Tui.Dashboard.{SharedState, TerminalEvent, key, char, esc, is_quit, poll_tui_quit}

-- What the client has got, and whether there is a server, a broken channel and a terminal.
abbrev pub contact : {F32 F64 : Type 0} → Running F32 F64 → Bool × Bool × Bool × List Metrics
contact p = (p.has_stats_server, p.stats_channel_failed, p.has_term, p.sent)

-- The press of a key that quits: `q`, whose code is 113, or Esc.
abbrev pub IsQuitKey : TerminalEvent → Type 0
IsQuitKey e = (e ≡ key (char 113)) ⊎ (e ≡ key esc)

poll_quits :
    (before after : List TerminalEvent) (e : TerminalEvent)
    → IsQuitKey e
    → (poll_tui_quit (before ++ e ∷ after)).0 ≡ true
unfolding poll_tui_quit
poll_quits [] after e (inl q) = rw q refl
poll_quits [] after e (inr q) = rw q refl
poll_quits (b ∷ before) after e q = elim (Bool-cases (is_quit b)) [
  | inl quits ↦ rw quits refl
  | inr other ↦ rw other (poll_quits before after e q)
]

module _ {F32 F64 : Type 0} (fp : Floats F32 F64) (clock : ℕ → ℕ) where
  work-contact : (p : Running F32 F64) → contact (work fp clock p) ≡ contact p
  unfolding work
  work-contact p = refl

  keep_house-contact : (p : Running F32 F64) → contact (keep_house fp clock p) ≡ contact p
  keep_house-contact p = ap contact (keep_house-rest fp clock p)

  serve_stats-term :
      (i : TurnInput) (p : Running F32 F64) → (serve_stats fp clock i p).has_term ≡ p.has_term
  unfolding serve_stats refresh
  serve_stats-term i p =
      elim (Bool-cases (p.has_stats_server && (not p.stats_channel_failed && i.request))) [
        | inr idle ↦ rw idle refl
        | inl asked ↦ elim (Bool-cases i.answer_taken) [
          | inl taken ↦ rw (asked, taken) refl
          | inr lost ↦ rw (asked, lost) refl
        ]
      ]

  tick_dashboard-contact :
      (i : TurnInput) (p : Running F32 F64) (state : Option (SharedState F64))
      → (contact (tick_dashboard fp clock i p state) ≡ contact p)
        × ((tick_dashboard fp clock i p state).tui_quit ≡ p.tui_quit)
  unfolding tick_dashboard
  tick_dashboard-contact i p none = (refl, refl)
  tick_dashboard-contact i p (some shared) = (refl, refl)

  refreshed-contact :
      (i : TurnInput) (p : Running F32 F64)
      → (contact (refreshed fp clock i p) ≡ contact p)
        × ((refreshed fp clock i p).tui_quit ≡ (p.tui_quit || (poll_tui_quit i.events).0))
  unfolding refreshed refresh
  refreshed-contact i p = (refl, refl)

  if-quit :
      (b : Bool) (x y : Running F32 F64) (q : Bool)
      → x.tui_quit ≡ q
      → y.tui_quit ≡ q
      → (if b then x else y).tui_quit ≡ q
  if-quit true x y q h k = h
  if-quit false x y q h k = k

  render-quit :
      (i : TurnInput) (p : Running F32 F64)
      → p.has_term ≡ true
      → (poll_tui_quit i.events).0 ≡ true
      → (render fp clock i p).tui_quit ≡ true
  unfolding render
  render-quit i p h k =
      let q = refreshed fp clock i p in
      let r = tick_dashboard fp clock i q q.tui_state in
      let due = leb 100_000_000 (elapsed fp clock p.last_tui_render p.sched).0 in
      let said : (p.tui_quit || (poll_tui_quit i.events).0) ≡ true = ground arith in
      ap (λ b. (if b then if due then r else polled fp clock i p else p).tui_quit) h
      ∙ if-quit due r (polled fp clock i p) true
          ((tick_dashboard-contact i q q.tui_state).1 ∙ (refreshed-contact i p).1 ∙ said) said

  turn-quit :
      (i : TurnInput) (p : Running F32 F64)
      → p.has_term ≡ true
      → (poll_tui_quit i.events).0 ≡ true
      → (turn fp clock i p).tui_quit ≡ true
  unfolding turn
  turn-quit i p h k =
      let p' = bpf_writes fp clock i.counters p in
      let q = bpf_writes fp clock i.counters_after_work (work fp clock p') in
      let r = serve_stats fp clock i q in
      let there : (keep_house fp clock r).has_term ≡ true =
        ap (λ c. c.2) (keep_house-contact r)
        ∙ serve_stats-term i q
        ∙ ap (λ c. c.2) (work-contact p')
        ∙ h in
      render-quit i (keep_house fp clock r) there k

  second :
      {A : Type 0} (e q : Bool) (x y z : A)
      → e ≡ false
      → q ≡ true
      → (if e then x else if q then y else z) ≡ y
  second true q x y z h k = absurd (ground arith)
  second false true x y z h k = refl
  second false false x y z h k = absurd (ground arith)

  -- With a terminal, a press of `q` or of Esc anywhere among the pending events ends the loop of `run`
  -- in the turn that finds it pending, whether a frame is due or not, unless BPF exited before.
  pub run-quit :
      (i : TurnInput) (is : List TurnInput) (p : Running F32 F64) (e : TerminalEvent)
      → (before after : List TerminalEvent) → exited i ≡ false
      → p.has_term ≡ true
      → IsQuitKey e
      → i.events ≡ before ++ e ∷ after
      → run fp clock (i ∷ is) p ≡ (turn fp clock i p, user_quit)
  unfolding run
  run-quit i is p key_event before after running h quits pending =
      let p' = turn fp clock i p in
      let k : (poll_tui_quit i.events).0 ≡ true =
        ap (λ es. (poll_tui_quit es).0) pending ∙ poll_quits before after key_event quits in
      second (exited i) p'.tui_quit (p, bpf_exited) (p', user_quit) (run fp clock is p') running
        (turn-quit i p h k)
