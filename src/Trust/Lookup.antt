-- ===== src/Trust/Lookup.antt =====
-- The trust table of src/ai/trust.rs as a map from pids: what an exit and an eviction do to the
-- entry of the pid, and that they leave the entries of the others alone.
use scx_cognis.Base.{
  ℕ, ◌<◌, ◌≡◌, ◌≢◌, refl, ◌∙◌, Bool, false, inl, inr, Option, none, some, List, arith, length,
  get_or, set, length-set, length-replicate, get_or-set_self, get_or-set_ne, get_or-replicate,
  Option-cases,
}
use scx_cognis.Floats.{FloatOps, zero_lit}
use scx_cognis.Slots.{
  table_size, pid_empty, find_slot, Place, found, fresh, place, placed, place_index,
}
use scx_cognis.Slots.Probe.{find_slot-place_self, find_slot-fresh, find_slot-absent, place-lt}
use scx_cognis.Slots.Index.{
  IsPid, IsIndexed, zeroed-IsIndexed, find_slot_sound, placed-IsIndexed, find_slot-placed_other,
}
use scx_cognis.Trust.{
  TrustTable, ExitObservation, new_table, reset_slot, insert_at, get_or_insert_slot, trust_score,
  is_flagged, exit_score, exit_streak, exit_flag, observe_slot,
}

-- The invariant: the index of pids, and six arrays of one size.
pub record IsValid {F : Type 0} (t : TrustTable F) : Type 0 where
  pub index : IsIndexed t.pids
  pub scores_sized : length t.scores ≡ table_size
  pub flagged_sized : length t.flagged ≡ table_size
  pub streaks_sized : length t.cheat_streak ≡ table_size

-- What the table says of one pid.
pub record Entry (F : Type 0) : Type 0 where
  pub score : F
  pub streak : ℕ
  pub flag : Bool

module _ {F : Type 0} (fl : FloatOps F) where
  abbrev pub neutral : Entry F
  neutral = record { score = zero_lit fl; streak = 0; flag = false }

  abbrev pub entry_in : TrustTable F → Option ℕ → Entry F
  entry_in t none = neutral
  entry_in t (some s) = record {
    score = get_or t.scores s (zero_lit fl);
    streak = get_or t.cheat_streak s 0;
    flag = get_or t.flagged s false;
  }

  -- The table as a map.
  unfoldable pub view : TrustTable F → ℕ → Entry F
  view t pid = entry_in t (find_slot t.pids pid)

  pub trust_score-view : (t : TrustTable F) (pid : ℕ) → trust_score fl t pid ≡ (view t pid).score
  unfolding trust_score view
  trust_score-view t pid = ground arith

  pub is_flagged-view : (t : TrustTable F) (pid : ℕ) → is_flagged fl t pid ≡ (view t pid).flag
  unfolding is_flagged view
  is_flagged-view t pid = ground arith

  -- What an exit does to the entry of its pid.
  abbrev pub exit_entry : ExitObservation → Entry F → Entry F
  exit_entry obs e = record {
    score = exit_score fl obs e.score;
    streak = exit_streak obs e.streak;
    flag = exit_flag obs (exit_streak obs e.streak) e.flag;
  }

  pub new_table-IsValid : IsValid (new_table fl)
  unfolding new_table
  new_table-IsValid = record {
    index = zeroed-IsIndexed;
    scores_sized = length-replicate table_size (zero_lit fl);
    flagged_sized = length-replicate table_size false;
    streaks_sized = length-replicate {0} {A = ℕ} table_size 0;
  }

  -- A new table says nothing of any pid.
  pub view-new_table : (q : ℕ) → IsPid q → view (new_table fl) q ≡ neutral
  unfolding view new_table
  view-new_table q p = elim (Option-cases (find_slot (new_table fl).pids q)) [
    | inl e ↦ rw e
    | inr (t, e) ↦ absurd (
        omega (
          arith,
          p.positive,
          (find_slot_sound (new_table fl).pids q t e).1,
          get_or-replicate {0} {A = ℕ} table_size t pid_empty,
        ))
  ]

  -- Two tables give a pid one entry if they find it in one slot and agree on that slot.
  pub view-eq :
      (t u : TrustTable F) (q : ℕ)
      → find_slot u.pids q ≡ find_slot t.pids q
      → ((e : ℕ) → find_slot t.pids q ≡ some e → entry_in u (some e) ≡ entry_in t (some e))
      → view u q ≡ view t q
  unfolding view
  view-eq t u q same agree = rw same (go (find_slot t.pids q) agree)
    where
      go :
          (o : Option ℕ)
          → ((e : ℕ) → o ≡ some e → entry_in u (some e) ≡ entry_in t (some e))
          → entry_in u o ≡ entry_in t o
      go none h = refl
      go (some e) h = h e refl

  pub other_slot :
      (t : TrustTable F) (q d e : ℕ)
      → find_slot t.pids q ≡ some e
      → get_or t.pids d pid_empty ≢ q
      → e ≢ d
  other_slot t q d e f ne same = ne (rw (← same) ((find_slot_sound t.pids q e f).1))

  pub entry-reset_self :
      (t : TrustTable F) (d pid : ℕ)
      → IsValid t
      → d < table_size
      → entry_in (reset_slot fl t d pid) (some d) ≡ neutral
  unfolding reset_slot
  entry-reset_self t d pid v h = ground (
    arith,
    get_or-set_self t.scores d (zero_lit fl) (zero_lit fl),
    get_or-set_self {0} {A = ℕ} t.cheat_streak d 0 0,
    get_or-set_self t.flagged d false false,
  )

  pub entry-reset_ne :
      (t : TrustTable F) (d pid e : ℕ)
      → e ≢ d
      → entry_in (reset_slot fl t d pid) (some e) ≡ entry_in t (some e)
  unfolding reset_slot
  entry-reset_ne t d pid e ne = ground (
    arith,
    get_or-set_ne t.scores d e (zero_lit fl) (zero_lit fl),
    get_or-set_ne {0} {A = ℕ} t.cheat_streak d e 0 0,
    get_or-set_ne t.flagged d e false false,
  )

  pub reset-IsValid :
      (t : TrustTable F) (d pid : ℕ)
      → IsValid t
      → IsIndexed (set t.pids d pid)
      → IsValid (reset_slot fl t d pid)
  unfolding reset_slot
  reset-IsValid t d pid v ix = record {
    index = ix;
    scores_sized = length-set t.scores d (zero_lit fl) ∙ v.scores_sized;
    flagged_sized = length-set t.flagged d false ∙ v.flagged_sized;
    streaks_sized = length-set t.cheat_streak d 0 ∙ v.streaks_sized;
  }

  -- `get_or_insert_slot`: the pid has the slot, with the entry that it had; the invariant holds.
  module _ (t : TrustTable F) (v : IsValid t) (pid : ℕ) (p : IsPid pid) where
    pub insert-IsValid : IsValid (get_or_insert_slot fl t pid).1
    unfolding get_or_insert_slot
    insert-IsValid = go (place t.pids pid) (placed-IsIndexed v.index pid p)
      where
        go : (r : Place) → IsIndexed (placed t.pids pid r) → IsValid (insert_at fl t pid r)
        go (found s) ix = v
        go (fresh d) ix = reset-IsValid t d pid v ix

    pids-insert : (r : Place) → (insert_at fl t pid r).pids ≡ placed t.pids pid r
    unfolding reset_slot
    pids-insert (found s) = refl
    pids-insert (fresh d) = refl

    pub find_slot-insert :
        find_slot (get_or_insert_slot fl t pid).1.pids pid ≡ some (get_or_insert_slot fl t pid).0
    unfolding get_or_insert_slot
    find_slot-insert =
        rw (pids-insert (place t.pids pid)) (find_slot-place_self t.pids pid v.index.sized)

    pub view-insert_self : view (get_or_insert_slot fl t pid).1 pid ≡ view t pid
    unfolding get_or_insert_slot view
    view-insert_self = go (place t.pids pid) refl
      where
        go :
            (r : Place)
            → place t.pids pid ≡ r
            → entry_in (insert_at fl t pid r) (find_slot (insert_at fl t pid r).pids pid)
              ≡ entry_in t (find_slot t.pids pid)
        go (found s) e = refl
        go (fresh d) e =
            rw
              (
                pids-insert (fresh d),
                find_slot-fresh t.pids pid d v.index.sized e,
                find_slot-absent t.pids pid d e,
              )
              (entry-reset_self t d pid v (place-lt t.pids pid d e))

    pub view-insert_other :
        (q : ℕ)
        → IsPid q
        → q ≢ pid
        → get_or t.pids (place_index (place t.pids pid)) pid_empty ≢ q
        → view (get_or_insert_slot fl t pid).1 q ≡ view t q
    unfolding get_or_insert_slot
    view-insert_other q pq ne kept =
        go (place t.pids pid) (find_slot-placed_other v.index pid q p pq ne kept) kept
      where
        go :
            (r : Place)
            → find_slot (placed t.pids pid r) q ≡ find_slot t.pids q
            → get_or t.pids (place_index r) pid_empty ≢ q
            → view (insert_at fl t pid r) q ≡ view t q
        go (found s) same k = refl
        go (fresh d) same k =
            view-eq t (insert_at fl t pid (fresh d)) q (rw (pids-insert (fresh d)) same)
              (λ e f. entry-reset_ne t d pid e (other_slot t q d e f k))

  -- The exit observation, in the slot of the pid.
  module _ (t : TrustTable F) (v : IsValid t) (s : ℕ) (obs : ExitObservation) (comm : List ℕ) where
    pub observe-IsValid : IsValid (observe_slot fl t s obs comm)
    unfolding observe_slot
    observe-IsValid = record {
      index = v.index;
      scores_sized = length-set t.scores s _ ∙ v.scores_sized;
      flagged_sized = length-set t.flagged s _ ∙ v.flagged_sized;
      streaks_sized = length-set t.cheat_streak s _ ∙ v.streaks_sized;
    }

    pub pids-observe : (observe_slot fl t s obs comm).pids ≡ t.pids
    unfolding observe_slot
    pids-observe = refl

    pub view-observe_self :
        (pid : ℕ)
        → find_slot t.pids pid ≡ some s
        → view (observe_slot fl t s obs comm) pid ≡ exit_entry obs (view t pid)
    unfolding observe_slot view
    view-observe_self pid e =
        let h : s < table_size = (find_slot_sound t.pids pid s e).0 in
        rw e (
          ground (
            arith,
            get_or-set_self t.scores s (exit_score fl obs (get_or t.scores s (zero_lit fl)))
                (zero_lit fl),
            get_or-set_self {0} {A = ℕ} t.cheat_streak s
                (exit_streak obs (get_or t.cheat_streak s 0)) 0,
            get_or-set_self t.flagged s
                (exit_flag obs (exit_streak obs (get_or t.cheat_streak s 0))
                  (get_or t.flagged s false))
                false,
          ))

    pub view-observe_other :
        (q : ℕ) → get_or t.pids s pid_empty ≢ q → view (observe_slot fl t s obs comm) q ≡ view t q
    unfolding observe_slot
    view-observe_other q k = view-eq t (observe_slot fl t s obs comm) q refl (λ e f.
        let ne : e ≢ s = other_slot t q s e f k in
        ground (
          arith,
          get_or-set_ne t.scores s e (exit_score fl obs (get_or t.scores s (zero_lit fl)))
              (zero_lit fl),
          get_or-set_ne {0} {A = ℕ} t.cheat_streak s e (exit_streak obs (get_or t.cheat_streak s 0))
              0,
          get_or-set_ne t.flagged s e
              (exit_flag obs (exit_streak obs (get_or t.cheat_streak s 0))
                (get_or t.flagged s false))
              false,
        ))
