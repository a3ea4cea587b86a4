-- ===== src/Trust/Flags.antt =====
-- When a pid of src/ai/trust.rs is flagged on the watchlist.
use scx_cognis.Base.{ℕ, ◌≡◌, ◌&&◌, List, arith, ◌∙◌, ap}
use scx_cognis.Floats.{FloatOps}
use scx_cognis.Slots.Index.{IsPid}
use scx_cognis.Trust.{
  TrustTable, ExitObservation, is_flagged, update_on_exit, exit_streak, exit_flag,
}
use scx_cognis.Trust.Lookup.{IsValid, Entry, view, exit_entry, is_flagged-view}
use scx_cognis.Trust.Exit.{update_on_exit-IsValid, view-update_self}

module _ {F : Type 0} (fl : FloatOps F) where
  two_exits :
      (e : Entry F) (obs₁ obs₂ : ExitObservation)
      → (exit_entry fl obs₂ (exit_entry fl obs₁ e)).flag
        ≡ (obs₁.cheat_flagged && obs₂.cheat_flagged)
  unfolding exit_streak exit_flag
  two_exits e obs₁ obs₂ = ground arith

  -- After two exits of a pid it is flagged in a well-formed table exactly when both were
  -- adverse, whatever the table said of it before: the flag is set by the second adverse exit
  -- in a row, and one clean exit clears it.
  pub is_flagged-update_twice :
      (t : TrustTable F) (pid tgid₁ tgid₂ : ℕ) (obs₁ obs₂ : ExitObservation) (comm₁ comm₂ : List ℕ)
      → IsValid t
      → IsPid pid
      → IsPid tgid₁
      → IsPid tgid₂
      → is_flagged fl
          (update_on_exit fl (update_on_exit fl t pid tgid₁ obs₁ comm₁) pid tgid₂ obs₂ comm₂)
          pid
        ≡ (obs₁.cheat_flagged && obs₂.cheat_flagged)
  is_flagged-update_twice t pid tgid₁ tgid₂ obs₁ obs₂ comm₁ comm₂ v p g₁ g₂ =
      is_flagged-view fl _ pid
      ∙ ap (λ (e : Entry F). e.flag)
          (view-update_self fl _ (update_on_exit-IsValid fl t v pid tgid₁ p g₁ obs₁ comm₁) pid tgid₂
              p g₂ obs₂ comm₂
            ∙ ap (exit_entry fl obs₂) (view-update_self fl t v pid tgid₁ p g₁ obs₁ comm₁))
      ∙ two_exits (view fl t pid) obs₁ obs₂
