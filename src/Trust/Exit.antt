-- ===== src/Trust/Exit.antt =====
-- `update_on_exit` and `evict` of src/ai/trust.rs against the map of Lookup.antt.
use scx_cognis.Base.{
  ℕ, ◌<◌, ◌≡◌, ◌≢◌, refl, sym, ap, ◌∙◌, inl, inr, Option, none, some, List, arith, ◌==◌, length,
  get_or, set, get_or-set_self, Bool-cases, ==→eq,
}
use scx_cognis.Floats.{FloatOps}
use scx_cognis.Slots.{
  table_size, pid_empty, pid_tombstone, slot, find_slot, Place, found, fresh, place, place_index,
}
use scx_cognis.Slots.Probe.{
  find_slot-home_empty, find_slot-home, find_slot-found, slot-lt, IsFree, place-room,
}
use scx_cognis.Slots.Index.{
  IsPid, IsIndexed, find_slot_sound, find_slot-set, set-IsIndexed, tomb-IsIndexed,
  find_slot-tomb_self, find_slot-tomb_other,
}
use scx_cognis.Trust.{
  TrustTable, ExitObservation, reset_slot, get_or_insert_slot, blend_tgid, observe_slot,
  update_on_exit, evict, evict_at,
}
use scx_cognis.Trust.Lookup.{
  IsValid, neutral, entry_in, view, exit_entry, view-eq, other_slot, entry-reset_ne, reset-IsValid,
  insert-IsValid, find_slot-insert, view-insert_self, view-insert_other, observe-IsValid,
  pids-observe, view-observe_self, view-observe_other,
}

module _ {F : Type 0} (fl : FloatOps F) where
  module _ (t : TrustTable F) (v : IsValid t) (tgid s : ℕ) (g : IsPid tgid) where
    ts-lt : slot tgid < length t.pids
    ts-lt = omega (arith, slot-lt tgid, v.index.sized)

    claim-IsIndexed :
        get_or t.pids (slot tgid) pid_empty ≡ pid_empty → IsIndexed (set t.pids (slot tgid) tgid)
    claim-IsIndexed e =
        set-IsIndexed v.index (slot tgid) tgid (slot-lt tgid) (omega (arith, g.positive))
          (λ _.
            find_slot-home (set t.pids (slot tgid) tgid) tgid
              (get_or-set_self t.pids (slot tgid) tgid pid_empty ts-lt))
          (λ _. find_slot-home_empty t.pids tgid (omega (arith, g.positive)) e)

    pub blend-IsValid : IsValid (blend_tgid fl t tgid s)
    unfolding blend_tgid
    blend-IsValid = elim (Bool-cases (get_or t.pids (slot tgid) pid_empty == tgid)) [
      | inl own ↦ rw own record {
        index = v.index;
        scores_sized = v.scores_sized;
        flagged_sized = v.flagged_sized;
        streaks_sized = v.streaks_sized;
      }
      | inr other ↦ elim (Bool-cases (get_or t.pids (slot tgid) pid_empty == pid_empty)) [
        | inr taken ↦ rw (other, taken) v
        | inl free ↦
            rw (other, free)
              record {
                index = claim-IsIndexed (==→eq _ _ free);
                scores_sized = v.scores_sized;
                flagged_sized = v.flagged_sized;
                streaks_sized = v.streaks_sized;
              }
      ]
    ]

    claim-find :
        (q : ℕ)
        → IsPid q
        → (q ≡ tgid → find_slot t.pids q ≢ none)
        → get_or t.pids (slot tgid) pid_empty ≡ pid_empty
        → find_slot (set t.pids (slot tgid) tgid) q ≡ find_slot t.pids q
    claim-find q pq known e =
        find_slot-set v.index q (slot tgid) tgid pq (slot-lt tgid) (omega (arith, e, pq.positive))
          (omega (arith, g.positive))
          (λ same.
            known (sym same)
              (find_slot-home_empty t.pids q (omega (arith, pq.positive)) (rw (← same) e)))

    -- The blend does not touch the entry of a pid, unless it enters the group itself.
    pub view-blend :
        (q : ℕ)
        → IsPid q
        → (q ≡ tgid → find_slot t.pids q ≢ none)
        → view fl (blend_tgid fl t tgid s) q ≡ view fl t q
    unfolding blend_tgid
    view-blend q pq known = elim (Bool-cases (get_or t.pids (slot tgid) pid_empty == tgid)) [
      | inl own ↦ rw own (view-eq fl t _ q refl (λ e f. refl))
      | inr other ↦ elim (Bool-cases (get_or t.pids (slot tgid) pid_empty == pid_empty)) [
        | inr taken ↦ rw (other, taken)
        | inl free ↦
            rw (other, free)
              (view-eq fl t _ q (claim-find q pq known (==→eq _ _ free)) (λ e f. refl))
      ]
    ]

  module _ (t : TrustTable F) (v : IsValid t) (pid tgid : ℕ) (p : IsPid pid) (g : IsPid tgid)
      (obs : ExitObservation) (comm : List ℕ) where
    t₁ : TrustTable F
    t₁ = (get_or_insert_slot fl t pid).1

    s₁ : ℕ
    s₁ = (get_or_insert_slot fl t pid).0

    t₂ : TrustTable F
    t₂ = observe_slot fl t₁ s₁ obs comm

    valid₂ : IsValid t₂
    unfolding t₁ t₂ s₁
    valid₂ = observe-IsValid fl _ (insert-IsValid fl t v pid p) _ obs comm

    find₁ : find_slot t₁.pids pid ≡ some s₁
    unfolding t₁ s₁
    find₁ = find_slot-insert fl t v pid p

    find₂ : find_slot t₂.pids pid ≡ some s₁
    unfolding t₂
    find₂ = rw (pids-observe fl t₁ (unfold t₁ in insert-IsValid fl t v pid p) s₁ obs comm) find₁

    -- `update_on_exit` keeps a table well formed, for any pid and thread group.
    pub update_on_exit-IsValid : IsValid (update_on_exit fl t pid tgid obs comm)
    unfolding update_on_exit t₁ t₂ s₁
    update_on_exit-IsValid = blend-IsValid t₂ valid₂ tgid s₁ g

    -- In a well-formed table, after `update_on_exit` the entry of the pid is its old one, or a
    -- neutral one if the table did not know it, moved by the observation.
    pub view-update_self :
        view fl (update_on_exit fl t pid tgid obs comm) pid ≡ exit_entry fl obs (view fl t pid)
    unfolding update_on_exit t₁ t₂ s₁
    view-update_self =
        view-blend t₂ valid₂ tgid s₁ g pid p (λ _ e. cc (e, find₂))
        ∙ view-observe_self fl t₁ (insert-IsValid fl t v pid p) s₁ obs comm pid find₁
        ∙ ap (exit_entry fl obs) (view-insert_self fl t v pid p)

    -- The entry of any other pid is as before, unless the table was full and its slot was given to
    -- the new pid.
    pub view-update_other :
        (q : ℕ)
        → IsPid q
        → q ≢ pid
        → q ≢ tgid
        → get_or t.pids (place_index (place t.pids pid)) pid_empty ≢ q
        → view fl (update_on_exit fl t pid tgid obs comm) q ≡ view fl t q
    unfolding update_on_exit t₁ t₂ s₁
    view-update_other q pq ne ng kept =
        view-blend t₂ valid₂ tgid s₁ g q pq (λ same. absurd (ng same))
        ∙ view-observe_other fl t₁ (insert-IsValid fl t v pid p) s₁ obs comm q
            (λ same. ne (sym same ∙ (find_slot_sound t₁.pids pid s₁ find₁).1))
        ∙ view-insert_other fl t v pid p q pq ne kept

    -- In a well-formed table with a free slot, `update_on_exit` leaves the entry of every pid
    -- as it is but those of the pid and of its thread group.
    pub view-update_room :
        (q slot_free : ℕ)
        → IsPid q
        → q ≢ pid
        → q ≢ tgid
        → slot_free < table_size
        → IsFree (get_or t.pids slot_free pid_empty)
        → view fl (update_on_exit fl t pid tgid obs comm) q ≡ view fl t q
    view-update_room q slot_free pq ne ng h free =
        view-update_other q pq ne ng (go (place t.pids pid) refl)
      where
        go : (r : Place) → place t.pids pid ≡ r → get_or t.pids (place_index r) pid_empty ≢ q
        go (found d) e same =
            ne (sym same ∙ (find_slot_sound t.pids pid d (find_slot-found t.pids pid d e)).1)
        go (fresh d) e same =
            ground (arith, place-room t.pids pid slot_free d h free e, pq.positive, pq.small)

  module _ (t : TrustTable F) (v : IsValid t) (pid : ℕ) (p : IsPid pid) where
    pub evict-IsValid : IsValid (evict fl t pid)
    unfolding evict
    evict-IsValid = go (find_slot t.pids pid) refl
      where
        go : (o : Option ℕ) → find_slot t.pids pid ≡ o → IsValid (evict_at fl t o)
        go none e = v
        go (some d) e =
            reset-IsValid fl t d pid_tombstone v
              (tomb-IsIndexed v.index d (find_slot_sound t.pids pid d e).0)

    -- After `evict` a well-formed table says of the pid what it says of an unknown one.
    pub view-evict_self : view fl (evict fl t pid) pid ≡ neutral fl
    unfolding evict view reset_slot
    view-evict_self = go (find_slot t.pids pid) refl
      where
        go :
            (o : Option ℕ)
            → find_slot t.pids pid ≡ o
            → entry_in fl (evict_at fl t o) (find_slot (evict_at fl t o).pids pid) ≡ neutral fl
        go none e = rw e
        go (some d) e = rw (find_slot-tomb_self v.index pid d p e)

    -- `evict` leaves the entries of the other pids of a well-formed table as they are.
    pub view-evict_other : (q : ℕ) → IsPid q → q ≢ pid → view fl (evict fl t pid) q ≡ view fl t q
    unfolding evict
    view-evict_other q pq ne = go (find_slot t.pids pid) refl
      where
        go : (o : Option ℕ) → find_slot t.pids pid ≡ o → view fl (evict_at fl t o) q ≡ view fl t q
        go none e = refl
        go (some d) e =
            view-eq fl t _ q (unfold reset_slot in find_slot-tomb_other v.index pid q d pq ne e)
              (λ e' f. entry-reset_ne fl t d pid_tombstone e' (
                other_slot fl t q d e' f
                  (λ same. ne (sym same ∙ (find_slot_sound t.pids pid d e).1))))
