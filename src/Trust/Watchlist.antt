-- ===== src/Trust/Watchlist.antt =====
-- `worst_actors` and the counters of src/ai/trust.rs: which pids the watchlist reports, and how many.
use scx_cognis.Base.{
  ℕ, zero, suc, ◌+◌, ◌≤◌, ◌<◌, ◌≡◌, refl, ap, ◌∙◌, Bool, true, ◌&&◌, List, [], ◌∷◌, ◌++◌, arith,
  ltb, if◌then◌else◌, length, get_or, min, All, All-append, length-append, append-nil, append_assoc,
  Bool-cases, inl, inr, sym,
}
use scx_cognis.Floats.{FloatOps, zero_lit}
use scx_cognis.Slots.{table_size, pid_empty, is_live}
use scx_cognis.Trust.{TrustTable, ShameEntry, shame_max, trust_threshold}
use scx_cognis.Trust.Report.{
  entry_at, replace_first, consider, worst_from, worst_actors, count_below, quarantined_count,
}

-- How many of the `n` numbers from `s` on pass a test.
count_true : (ℕ → Bool) → ℕ → ℕ → ℕ
count_true f zero s = 0
count_true f (suc n) s = let rest = count_true f n (s + 1) in if f s then suc rest else rest

count_true-shift :
    (f : ℕ → Bool) (n s : ℕ) → count_true f n (suc s) ≡ count_true (λ i. f (suc i)) n s
unfolding count_true
count_true-shift f zero s = refl
count_true-shift f (suc n) s =
    let step : count_true f n (suc s + 1) ≡ count_true (λ i. f (suc i)) n (s + 1) =
      rw (suc_add_one s) (count_true-shift f n (s + 1)) in
    ap (λ k. if f (suc s) then suc k else k) step
  where
    suc_add_one : (s : ℕ) → suc s + 1 ≡ suc (s + 1)
    suc_add_one s = omega arith

module _ {F : Type 0} (fl : FloatOps F) where
  -- A live pid whose trust is below the threshold.
  abbrev pub is_bad : ShameEntry F → Bool
  is_bad e = is_live e.pid && fl.lt e.trust (trust_threshold fl)

  -- The entry of a slot of the table, of a live pid below the threshold.
  pub record IsReported (t : TrustTable F) (e : ShameEntry F) : Type 0 where
    pub at_slot : ℕ
    pub in_table : at_slot < table_size
    pub same : e ≡ entry_at fl t at_slot
    pub bad : is_bad e ≡ true

  All-replace_first {κ} :
      (P : ShameEntry F → Type κ) (e : ShameEntry F) (out : List (ShameEntry F))
      → P e
      → All P out
      → All P (replace_first fl e out)
  unfolding replace_first
  All-replace_first P e [] p h = tt
  All-replace_first P e (x ∷ xs) p h = elim (Bool-cases (fl.lt e.trust x.trust)) [
    | inl y ↦ rw y (p, h.1)
    | inr n ↦ rw n (h.0, All-replace_first P e xs p h.1)
  ]

  length-replace_first :
      (e : ShameEntry F) (out : List (ShameEntry F)) → length (replace_first fl e out) ≡ length out
  unfolding replace_first
  length-replace_first e [] = refl
  length-replace_first e (x ∷ xs) = ground (arith, length-replace_first e xs)

  consider-IsReported :
      (t : TrustTable F) (s : ℕ) (out : List (ShameEntry F))
      → s < table_size
      → All (IsReported t) out
      → All (IsReported t) (consider fl (entry_at fl t s) out)
  unfolding consider
  consider-IsReported t s out h all = elim (Bool-cases (is_bad (entry_at fl t s))) [
    | inr good ↦ rw good all
    | inl bad ↦ rw bad (elim (Bool-cases (ltb (length out) shame_max)) [
      | inl room ↦ rw room (All-append (IsReported t) out _ all (here bad, tt))
      | inr full ↦ rw full (All-replace_first (IsReported t) (entry_at fl t s) out (here bad) all)
    ])
  ]
    where
      here : is_bad (entry_at fl t s) ≡ true → IsReported t (entry_at fl t s)
      here bad = record { at_slot = s; in_table = h; same = refl; bad = bad }

  worst_from-IsReported :
      (t : TrustTable F) (n s : ℕ) (out : List (ShameEntry F))
      → s + n ≤ table_size
      → All (IsReported t) out
      → All (IsReported t) (worst_from fl t n s out)
  unfolding worst_from
  worst_from-IsReported t zero s out h all = all
  worst_from-IsReported t (suc n) s out h all =
      worst_from-IsReported t n (s + 1) _ (omega arith)
        (consider-IsReported t s out (omega arith) all)

  -- Every entry of the watchlist is that of a live pid in the table whose score is below the
  -- threshold.
  pub worst_actors-IsReported : (t : TrustTable F) → All (IsReported t) (worst_actors fl t)
  unfolding worst_actors
  worst_actors-IsReported t = worst_from-IsReported t table_size 0 [] (omega arith) tt

  -- The slots from `s` on that are to be reported.
  count_bad : TrustTable F → ℕ → ℕ → ℕ
  count_bad t zero s = 0
  count_bad t (suc n) s =
      let rest = count_bad t n (s + 1) in if is_bad (entry_at fl t s) then suc rest else rest

  length-consider :
      (e : ShameEntry F) (out : List (ShameEntry F))
      → length out ≤ shame_max
      → length (consider fl e out) ≡ min shame_max (length out + (if is_bad e then 1 else 0))
  unfolding consider
  length-consider e out h = ground (arith, length-replace_first e out, length-append out (e ∷ []))

  length-worst_from :
      (t : TrustTable F) (n s : ℕ) (out : List (ShameEntry F))
      → length out ≤ shame_max
      → length (worst_from fl t n s out) ≡ min shame_max (length out + count_bad t n s)
  unfolding worst_from count_bad
  length-worst_from t zero s out h = omega arith
  length-worst_from t (suc n) s out h = ground (
    arith,
    length-consider (entry_at fl t s) out,
    length-worst_from t n (s + 1) (consider fl (entry_at fl t s) out),
  )

  -- The entries to report, in the order of the slots, with no limit.
  unfoldable pub all_bad : TrustTable F → ℕ → ℕ → List (ShameEntry F)
  all_bad t zero s = []
  all_bad t (suc n) s =
      let rest = all_bad t n (s + 1) in
      if is_bad (entry_at fl t s) then entry_at fl t s ∷ rest else rest

  length-all_bad : (t : TrustTable F) (n s : ℕ) → length (all_bad t n s) ≡ count_bad t n s
  unfolding all_bad count_bad
  length-all_bad t zero s = refl
  length-all_bad t (suc n) s = ground (arith, length-all_bad t n (s + 1))

  worst_from-all_bad :
      (t : TrustTable F) (n s : ℕ) (out : List (ShameEntry F))
      → length out + count_bad t n s ≤ shame_max
      → worst_from fl t n s out ≡ out ++ all_bad t n s
  unfolding worst_from count_bad all_bad consider
  worst_from-all_bad t zero s out h = sym (append-nil out)
  worst_from-all_bad t (suc n) s out h = ground (
    arith,
    worst_from-all_bad t n (s + 1) (consider fl (entry_at fl t s) out),
    length-append out (entry_at fl t s ∷ []),
    append_assoc out (entry_at fl t s ∷ []) (all_bad t n (s + 1)),
  )

  is_bad_in : List ℕ → List F → ℕ → Bool
  is_bad_in pids scores i =
      is_live (get_or pids i pid_empty)
      && fl.lt (get_or scores i (zero_lit fl)) (trust_threshold fl)

  count_below-count_true :
      (pids : List ℕ) (scores : List F)
      → length pids ≡ length scores
      → count_below fl pids scores ≡ count_true (is_bad_in pids scores) (length pids) 0
  unfolding count_below count_true is_bad_in
  count_below-count_true [] scores h = refl
  count_below-count_true (p ∷ ps) [] h = absurd (omega arith)
  count_below-count_true (p ∷ ps) (x ∷ xs) h =
      ap (λ k. if is_bad_in (p ∷ ps) (x ∷ xs) 0 then suc k else k)
        (count_below-count_true ps xs (omega arith)
          ∙ sym (first (length ps) ∙ count_true-shift (is_bad_in (p ∷ ps) (x ∷ xs)) (length ps) 0))
    where
      first :
          (n : ℕ)
          → count_true (is_bad_in (p ∷ ps) (x ∷ xs)) n (0 + 1)
            ≡ count_true (is_bad_in (p ∷ ps) (x ∷ xs)) n 1
      first n = refl

  count_bad-count_true :
      (t : TrustTable F) (n s : ℕ) → count_bad t n s ≡ count_true (is_bad_in t.pids t.scores) n s
  unfolding count_bad count_true is_bad_in
  count_bad-count_true t zero s = refl
  count_bad-count_true t (suc n) s =
      ap (λ k. if is_bad (entry_at fl t s) then suc k else k) (count_bad-count_true t n (s + 1))

  count_bad-quarantined :
      (t : TrustTable F)
      → length t.pids ≡ table_size
      → length t.scores ≡ table_size
      → count_bad t table_size 0 ≡ quarantined_count fl t
  unfolding quarantined_count
  count_bad-quarantined t hp hs =
      count_bad-count_true t table_size 0
      ∙ sym (
          count_below-count_true t.pids t.scores (hp ∙ sym hs)
          ∙ ap (λ n. count_true (is_bad_in t.pids t.scores) n 0) hp)

  -- The watchlist has as many entries as `quarantined_count` counts, but at most `shame_max`.
  pub worst_actors_bound : (t : TrustTable F) → length (worst_actors fl t) ≤ shame_max
  unfolding worst_actors
  worst_actors_bound t = omega (arith, length-worst_from t table_size 0 [] (omega arith))

  pub length-worst_actors :
      (t : TrustTable F)
      → length t.pids ≡ table_size
      → length t.scores ≡ table_size
      → length (worst_actors fl t) ≡ min shame_max (quarantined_count fl t)
  unfolding worst_actors
  length-worst_actors t hp hs =
      omega
        (arith, length-worst_from t table_size 0 [] (omega arith), count_bad-quarantined t hp hs)

  -- Where the arrays have `table_size` slots and at most `shame_max` pids are below the
  -- threshold, the watchlist is complete: it is the list of all of them, in the order of their
  -- slots.
  pub worst_actors_complete :
      (t : TrustTable F)
      → length t.pids ≡ table_size
      → length t.scores ≡ table_size
      → quarantined_count fl t ≤ shame_max
      → worst_actors fl t ≡ all_bad t table_size 0
  unfolding worst_actors
  worst_actors_complete t hp hs h =
      worst_from-all_bad t table_size 0 [] (omega (arith, count_bad-quarantined t hp hs))
