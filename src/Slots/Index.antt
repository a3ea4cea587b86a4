-- ===== src/Slots/Index.antt =====
-- The invariant of the table of pids: every live pid in it is the one that `find_slot` finds, so no
-- pid stands twice. Insertion and eviction keep it, and do not disturb the other pids.
use scx_cognis.Base.{
  ℕ, ◌^◌, ◌<◌, ◌≡◌, ◌≢◌, refl, sym, ◌⊎◌, inl, inr, ◌∙◌, none, some, List, arith, length, get_or,
  set, replicate, length-set, length-replicate, get_or-replicate, get_or-set, Option-cases,
  ℕ_discrete,
}
use scx_cognis.Slots.{
  table_size, pid_empty, pid_tombstone, slot, find_slot, Place, found, fresh, place, placed,
  place_index,
}
use scx_cognis.Slots.Probe.{
  find_from_sound, find_from-set, place_from-fresh, place_from-kind, place-lt, find_slot-fresh,
}

-- A positive `i32`.
pub record IsPid (q : ℕ) : Type 0 where
  pub positive : 0 < q
  pub small : q < 2 ^ 31

pub record IsIndexed (pids : List ℕ) : Type 0 where
  pub sized : length pids ≡ table_size
  pub indexed :
      (q t : ℕ) → IsPid q → t < table_size → get_or pids t pid_empty ≡ q → find_slot pids q ≡ some t

-- `alloc_zeroed`.
pub zeroed-IsIndexed : IsIndexed (replicate table_size pid_empty)
zeroed-IsIndexed = record {
  sized = length-replicate table_size pid_empty;
  indexed =
      λ q t p ht e. absurd (omega (arith, p.positive, get_or-replicate table_size t pid_empty));
}

pub find_slot_sound :
    (pids : List ℕ) (q t : ℕ)
    → find_slot pids q ≡ some t
    → (t < table_size) × (get_or pids t pid_empty ≡ q)
unfolding find_slot
find_slot_sound pids q t e = find_from_sound pids q (slot q) table_size 0 t e

module _ {pids : List ℕ} (ix : IsIndexed pids) where
  find_slot-set-some :
      (q d v t : ℕ)
      → d < table_size
      → get_or pids d pid_empty ≢ q
      → v ≢ pid_empty
      → v ≢ q
      → find_slot pids q ≡ some t
      → find_slot (set pids d v) q ≡ some t
  unfolding find_slot
  find_slot-set-some q d v t hd ho hv hq e =
      find_from-set pids q (slot q) d v table_size 0 t (omega (arith, ix.sized)) ho hv hq e

  -- A write over another slot is not noticed by the look-up of `q`.
  pub find_slot-set :
      (q d v : ℕ)
      → IsPid q
      → d < table_size
      → get_or pids d pid_empty ≢ q
      → v ≢ pid_empty
      → v ≢ q
      → find_slot (set pids d v) q ≡ find_slot pids q
  find_slot-set q d v p hd ho hv hq = elim (Option-cases (find_slot pids q)) [
    | inr (t, e) ↦ find_slot-set-some q d v t hd ho hv hq e ∙ sym e
    | inl e ↦ elim (Option-cases (find_slot (set pids d v) q)) [
      | inl e' ↦ e' ∙ sym e
      | inr (t, e') ↦ absurd (
          ground (
            arith,
            find_slot_sound (set pids d v) q t e',
            get_or-set {0} {A = ℕ} pids d v t pid_empty,
            ix.sized,
            ix.indexed q t p,
          ))
    ]
  ]

  unique :
      (q s t : ℕ)
      → IsPid q
      → s < table_size
      → t < table_size
      → get_or pids s pid_empty ≡ q
      → get_or pids t pid_empty ≡ q
      → s ≡ t
  unique q s t p hs ht es et = ground (arith, ix.indexed q s p hs es, ix.indexed q t p ht et)

  -- A write of a tombstone, or of a pid that is not in the table, over a slot keeps the invariant if
  -- the new pid is found there.
  module _ (d v : ℕ) (hd : d < table_size) (hv : v ≢ pid_empty) where
    set-here : (q t : ℕ) → get_or (set pids d v) t pid_empty ≡ q → t ≡ d → v ≡ q
    set-here q t e same = ground (arith, get_or-set {0} {A = ℕ} pids d v t pid_empty, ix.sized)

    set-there :
        (q t : ℕ) → get_or (set pids d v) t pid_empty ≡ q → t ≢ d → get_or pids t pid_empty ≡ q
    set-there q t e other = ground (arith, get_or-set {0} {A = ℕ} pids d v t pid_empty, ix.sized)

    set-indexed_other :
        (q t : ℕ)
        → IsPid q
        → t < table_size
        → t ≢ d
        → get_or pids t pid_empty ≡ q
        → (v ≡ q → find_slot pids q ≡ none)
        → find_slot (set pids d v) q ≡ some t
    set-indexed_other q t p ht ne e new =
        find_slot-set-some q d v t hd (λ h. ne (unique q t d p ht hd e h)) hv
          (λ same. cc (new same, ix.indexed q t p ht e)) (ix.indexed q t p ht e)

    pub set-IsIndexed :
        (IsPid v → find_slot (set pids d v) v ≡ some d)
        → (IsPid v → find_slot pids v ≡ none)
        → IsIndexed (set pids d v)
    set-IsIndexed self new = record {
      sized = length-set pids d v ∙ ix.sized;
      indexed = λ q t p ht e. elim (ℕ_discrete t d) [
        | yes same ↦ let vq : v ≡ q = set-here q t e same in rw (← vq, same) (self (rw vq p))
        | no ne ↦
            set-indexed_other q t p ht ne (set-there q t e ne) (λ vq. rw (← vq) (new (rw vq p)))
      ];
    }

  -- Claiming a slot for a pid keeps a table indexed: each pid in it is found, at one slot.
  pub placed-IsIndexed : (pid : ℕ) → IsPid pid → IsIndexed (placed pids pid (place pids pid))
  placed-IsIndexed pid p = go (place pids pid) refl
    where
      absent : (d : ℕ) → place pids pid ≡ fresh d → find_slot pids pid ≡ none
      absent d e =
          unfold find_slot place in place_from-fresh pids pid (slot pid) table_size 0 none d e

      go : (r : Place) → place pids pid ≡ r → IsIndexed (placed pids pid r)
      go (found s) e = ix
      go (fresh d) e =
          set-IsIndexed d pid (place-lt pids pid d e) (omega (arith, p.positive))
            (λ _. find_slot-fresh pids pid d ix.sized e) (λ _. absent d e)

  -- Claiming a slot of an indexed table for a pid does not disturb another pid, unless that pid
  -- owned the slot and is evicted.
  pub find_slot-placed_other :
      (pid q : ℕ)
      → IsPid pid
      → IsPid q
      → q ≢ pid
      → get_or pids (place_index (place pids pid)) pid_empty ≢ q
      → find_slot (placed pids pid (place pids pid)) q ≡ find_slot pids q
  find_slot-placed_other pid q p pq ne kept = go (place pids pid) refl kept
    where
      go :
          (r : Place)
          → place pids pid ≡ r
          → get_or pids (place_index r) pid_empty ≢ q
          → find_slot (placed pids pid r) q ≡ find_slot pids q
      go (found s) e k = refl
      go (fresh d) e k =
          find_slot-set q d pid pq (place-lt pids pid d e) k (omega (arith, p.positive))
            (λ same. ne (sym same))

  -- `evict` keeps the invariant.
  pub tomb-IsIndexed : (d : ℕ) → d < table_size → IsIndexed (set pids d pid_tombstone)
  tomb-IsIndexed d hd =
      set-IsIndexed d pid_tombstone hd (omega arith) (λ p. absurd (omega (arith, p.small)))
        (λ p. absurd (omega (arith, p.small)))

  -- The pid of the slot that `evict` marks is gone, and every other pid stays where it was.
  pub find_slot-tomb_self :
      (q d : ℕ)
      → IsPid q
      → find_slot pids q ≡ some d
      → find_slot (set pids d pid_tombstone) q ≡ none
  find_slot-tomb_self q d p e = elim (Option-cases (find_slot (set pids d pid_tombstone) q)) [
    | inl e' ↦ e'
    | inr (t, e') ↦ absurd (gone t e')
  ]
    where
      gone : (t : ℕ) → find_slot (set pids d pid_tombstone) q ≡ some t → ⊥
      gone t e' = ground (
        arith,
        find_slot_sound pids q d e,
        find_slot_sound (set pids d pid_tombstone) q t e',
        get_or-set {0} {A = ℕ} pids d pid_tombstone t pid_empty,
        ix.sized,
        p.small,
        ix.indexed q t p,
      )

  pub find_slot-tomb_other :
      (q r d : ℕ)
      → IsPid r
      → r ≢ q
      → find_slot pids q ≡ some d
      → find_slot (set pids d pid_tombstone) r ≡ find_slot pids r
  find_slot-tomb_other q r d p ne e =
      find_slot-set r d pid_tombstone p (find_slot_sound pids q d e).0
        (λ same. ne (sym same ∙ (find_slot_sound pids q d e).1)) (omega arith)
        (λ same. absurd (omega (arith, p.small)))

-- The slot that `get_or_insert_slot` overwrites was free, or its whole probe sequence was taken and
-- the pid at its start is evicted.
pub place-kind :
    (pids : List ℕ) (pid d : ℕ)
    → place pids pid ≡ fresh d
    → ((d < table_size)
        × ((get_or pids d pid_empty ≡ pid_empty) ⊎ (get_or pids d pid_empty ≡ pid_tombstone)))
      ⊎ (d ≡ slot pid)
unfolding place
place-kind pids pid d e = place_from-kind pids pid (slot pid) table_size 0 d e
