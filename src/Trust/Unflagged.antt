-- ===== src/Trust/Unflagged.antt =====
-- Exits that report no cheating leave no flag in the table of src/ai/trust.rs.
use scx_cognis.Base.{
  ℕ, ◌≡◌, refl, Bool, false, Option, none, some, List, inl, inr, All, All-set, All-get_or, get_or,
  arith, ◌==◌, Bool-cases,
}
use scx_cognis.Floats.{FloatOps}
use scx_cognis.Slots.{Place, found, fresh, place, slot, find_slot, pid_empty}
use scx_cognis.Trust.{
  TrustTable, ExitObservation, reset_slot, insert_at, get_or_insert_slot, is_flagged, flag_at,
  exit_streak, exit_flag, blend_tgid, observe_slot, update_on_exit, evict_at, evict,
}

abbrev pub NoFlags : {F : Type 0} → TrustTable F → Type 0
NoFlags t = All (λ f. f ≡ false) t.flagged

module _ {F : Type 0} (fl : FloatOps F) where
  reset-NoFlags : (t : TrustTable F) (s pid : ℕ) → NoFlags t → NoFlags (reset_slot fl t s pid)
  unfolding reset_slot
  reset-NoFlags t s pid h = All-set (λ f. f ≡ false) t.flagged s false h refl

  insert-NoFlags :
      (t : TrustTable F) (pid : ℕ) (p : Place) → NoFlags t → NoFlags (insert_at fl t pid p)
  insert-NoFlags t pid (found s) h = h
  insert-NoFlags t pid (fresh s) h = reset-NoFlags t s pid h

  clean_flag :
      (obs : ExitObservation) (k : ℕ) (b : Bool)
      → obs.cheat_flagged ≡ false
      → exit_flag obs (exit_streak obs k) b ≡ false
  unfolding exit_flag exit_streak
  clean_flag obs k b e = ground arith

  observe-NoFlags :
      (t : TrustTable F) (s : ℕ) (obs : ExitObservation) (comm : List ℕ)
      → NoFlags t
      → obs.cheat_flagged ≡ false
      → NoFlags (observe_slot fl t s obs comm)
  unfolding observe_slot
  observe-NoFlags t s obs comm h e =
      All-set (λ f. f ≡ false) t.flagged s _ h
        (clean_flag obs (get_or t.cheat_streak s 0) (get_or t.flagged s false) e)

  blend-NoFlags : (t : TrustTable F) (tgid s : ℕ) → NoFlags t → NoFlags (blend_tgid fl t tgid s)
  unfolding blend_tgid
  blend-NoFlags t tgid s h = elim (Bool-cases (get_or t.pids (slot tgid) pid_empty == tgid)) [
    | inl own ↦ rw own h
    | inr other ↦ rw other (elim (Bool-cases (get_or t.pids (slot tgid) pid_empty == pid_empty)) [
      | inl e ↦ rw e h
      | inr n ↦ rw n h
    ])
  ]

  pub update-NoFlags :
      (t : TrustTable F) (pid tgid : ℕ) (obs : ExitObservation) (comm : List ℕ)
      → NoFlags t
      → obs.cheat_flagged ≡ false
      → NoFlags (update_on_exit fl t pid tgid obs comm)
  unfolding update_on_exit get_or_insert_slot
  update-NoFlags t pid tgid obs comm h e =
      blend-NoFlags _ tgid _
        (observe-NoFlags _ _ obs comm (insert-NoFlags t pid (place t.pids pid) h) e)

  evict_at-NoFlags : (t : TrustTable F) (o : Option ℕ) → NoFlags t → NoFlags (evict_at fl t o)
  evict_at-NoFlags t none h = h
  evict_at-NoFlags t (some s) h = reset-NoFlags t s _ h

  pub evict-NoFlags : (t : TrustTable F) (pid : ℕ) → NoFlags t → NoFlags (evict fl t pid)
  unfolding evict
  evict-NoFlags t pid h = evict_at-NoFlags t (find_slot t.pids pid) h

  flag_at-NoFlags : (t : TrustTable F) (o : Option ℕ) → NoFlags t → flag_at fl t o ≡ false
  flag_at-NoFlags t none h = refl
  flag_at-NoFlags t (some s) h = All-get_or (λ f. f ≡ false) t.flagged s false h refl

  pub is_flagged-NoFlags : (t : TrustTable F) (pid : ℕ) → NoFlags t → is_flagged fl t pid ≡ false
  unfolding is_flagged
  is_flagged-NoFlags t pid h = flag_at-NoFlags t (find_slot t.pids pid) h
