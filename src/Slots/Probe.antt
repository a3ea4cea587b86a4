-- ===== src/Slots/Probe.antt =====
-- What one probe sequence of `find_slot` and `get_or_insert_slot` sees.
use scx_cognis.Base.{
  ℕ, zero, suc, ◌+◌, ◌-◌, ◌%◌, ◌≤◌, ◌<◌, ◌≡◌, ◌≢◌, refl, ◌⊎◌, inl, inr, Option, none, some, List,
  arith, length, get_or, set, get_or-set_self, get_or-set, ℕ_discrete, ap,
}
use scx_cognis.Slots.{
  table_size, pid_empty, pid_tombstone, slot, probe_at, find_from, find_slot, Place, found, fresh,
  place_from, place, placed, place_index,
}

pub slot-lt : (pid : ℕ) → slot pid < table_size
unfolding slot
slot-lt pid = omega arith

-- The slot found is in the table, and holds the pid.
pub find_from_sound :
    (pids : List ℕ) (pid start n step t : ℕ)
    → find_from pids pid start n step ≡ some t
    → (t < table_size) × (get_or pids t pid_empty ≡ pid)
unfolding find_from
find_from_sound pids pid start zero step t e = cc
find_from_sound pids pid start (suc n) step t e =
    ground (arith, find_from_sound pids pid start n (step + 1) t)

-- A write of another live pid or a tombstone over another pid's slot is not noticed.
pub find_from-set :
    (pids : List ℕ) (q start d v n step t : ℕ)
    → d < length pids
    → get_or pids d pid_empty ≢ q
    → v ≢ pid_empty
    → v ≢ q
    → find_from pids q start n step ≡ some t
    → find_from (set pids d v) q start n step ≡ some t
unfolding find_from
find_from-set pids q start d v zero step t hd ho hv hq e = cc
find_from-set pids q start d v (suc n) step t hd ho hv hq e = ground (
  arith,
  get_or-set {0} {A = ℕ} pids d v (probe_at start step) pid_empty,
  find_from-set pids q start d v n (step + 1) t,
)

pub place_from-found :
    (pids : List ℕ) (pid start n step : ℕ) (tomb : Option ℕ) (s : ℕ)
    → place_from pids pid start n step tomb ≡ found s
    → find_from pids pid start n step ≡ some s
unfolding place_from find_from
place_from-found pids pid start zero step tomb s e = cc
place_from-found pids pid start (suc n) step tomb s e = ground (
  arith,
  place_from-found pids pid start n (step + 1) (some (probe_at start step)) s,
  place_from-found pids pid start n (step + 1) tomb s,
)

-- A fresh place is given only to a pid that its probe sequence does not show.
pub place_from-fresh :
    (pids : List ℕ) (pid start n step : ℕ) (tomb : Option ℕ) (d : ℕ)
    → place_from pids pid start n step tomb ≡ fresh d
    → find_from pids pid start n step ≡ none
unfolding place_from find_from
place_from-fresh pids pid start zero step tomb d e = refl
place_from-fresh pids pid start (suc n) step tomb d e = ground (
  arith,
  place_from-fresh pids pid start n (step + 1) (some (probe_at start step)) d,
  place_from-fresh pids pid start n (step + 1) tomb d,
)

-- Once a tombstone was seen, it is the place.
place_from-tomb :
    (pids : List ℕ) (pid start n step e d : ℕ)
    → place_from pids pid start n step (some e) ≡ fresh d
    → d ≡ e
unfolding place_from
place_from-tomb pids pid start zero step e d h = cc
place_from-tomb pids pid start (suc n) step e d h =
    ground (arith, place_from-tomb pids pid start n (step + 1) e d)

-- What a fresh place holds: nothing, a tombstone, or, when the whole sequence is taken, the pid at
-- the start of the sequence, which is evicted.
pub place_from-kind :
    (pids : List ℕ) (pid start n step d : ℕ)
    → place_from pids pid start n step none ≡ fresh d
    → ((d < table_size)
        × ((get_or pids d pid_empty ≡ pid_empty) ⊎ (get_or pids d pid_empty ≡ pid_tombstone)))
      ⊎ (d ≡ start)
unfolding place_from
place_from-kind pids pid start zero step d h = inr (cc)
place_from-kind pids pid start (suc n) step d h = ground (
  arith,
  place_from-kind pids pid start n (step + 1) d,
  place_from-tomb pids pid start n (step + 1) (probe_at start step) d,
)

-- The pid is found where it was put, unless the whole sequence was taken.
place_from-set :
    (pids : List ℕ) (pid start n step d : ℕ)
    → length pids ≡ table_size
    → d < table_size
    → place_from pids pid start n step none ≡ fresh d
    → (find_from (set pids d pid) pid start n step ≡ some d) ⊎ (d ≡ start)
unfolding place_from find_from
place_from-set pids pid start zero step d hl hd h = inr (cc)
place_from-set pids pid start (suc n) step d hl hd h = ground (
  arith,
  get_or-set {0} {A = ℕ} pids d pid (probe_at start step) pid_empty,
  place_from-set pids pid start n (step + 1) d,
  place_from-tomb pids pid start n (step + 1) (probe_at start step) d,
)

place_from-lt :
    (pids : List ℕ) (pid start n step d : ℕ)
    → start < table_size
    → place_from pids pid start n step none ≡ fresh d
    → d < table_size
place_from-lt pids pid start n step d hs h = ground (arith, place_from-kind pids pid start n step d)

pub place-lt : (pids : List ℕ) (pid d : ℕ) → place pids pid ≡ fresh d → d < table_size
unfolding place
place-lt pids pid d h = place_from-lt pids pid (slot pid) table_size 0 d (slot-lt pid) h

find_from-first :
    (pids : List ℕ) (pid d n : ℕ)
    → 0 < n
    → d < table_size
    → get_or pids d pid_empty ≡ pid
    → find_from pids pid d n 0 ≡ some d
unfolding find_from
find_from-first pids pid d zero hn hd e = absurd (omega arith)
find_from-first pids pid d (suc n) hn hd e = ground arith

pub find_slot-fresh :
    (pids : List ℕ) (pid d : ℕ)
    → length pids ≡ table_size
    → place pids pid ≡ fresh d
    → find_slot (set pids d pid) pid ≡ some d
unfolding find_slot place
find_slot-fresh pids pid d hl e =
    elim (place_from-set pids pid (slot pid) table_size 0 d hl (place-lt pids pid d e) e) [
      | inl h ↦ h
      | inr h ↦ rw (← h) (
          find_from-first (set pids d pid) pid d table_size (omega arith) (place-lt pids pid d e)
            (get_or-set_self pids d pid pid_empty (omega (arith, place-lt pids pid d e))))
    ]

pub find_slot-found :
    (pids : List ℕ) (pid s : ℕ) → place pids pid ≡ found s → find_slot pids pid ≡ some s
unfolding find_slot place
find_slot-found pids pid s e = place_from-found pids pid (slot pid) table_size 0 none s e

pub find_slot-absent :
    (pids : List ℕ) (pid d : ℕ) → place pids pid ≡ fresh d → find_slot pids pid ≡ none
unfolding find_slot place
find_slot-absent pids pid d e = place_from-fresh pids pid (slot pid) table_size 0 none d e

-- A table of `table_size` slots has the pid after it was given a slot, full or not, at the slot
-- that was returned.
pub find_slot-place_self :
    (pids : List ℕ) (pid : ℕ)
    → length pids ≡ table_size
    → find_slot (placed pids pid (place pids pid)) pid ≡ some (place_index (place pids pid))
find_slot-place_self pids pid hl = go (place pids pid) refl
  where
    go : (p : Place) → place pids pid ≡ p → find_slot (placed pids pid p) pid ≡ some (place_index p)
    go (found s) e = find_slot-found pids pid s e
    go (fresh d) e = find_slot-fresh pids pid d hl e

-- A pid whose home slot is empty is not found.
find_from-home_empty :
    (pids : List ℕ) (pid start n : ℕ)
    → start < table_size
    → pid ≢ pid_empty
    → get_or pids start pid_empty ≡ pid_empty
    → find_from pids pid start n 0 ≡ none
unfolding find_from
find_from-home_empty pids pid start zero hs hp e = refl
find_from-home_empty pids pid start (suc n) hs hp e = ground arith

pub find_slot-home_empty :
    (pids : List ℕ) (pid : ℕ)
    → pid ≢ pid_empty
    → get_or pids (slot pid) pid_empty ≡ pid_empty
    → find_slot pids pid ≡ none
unfolding find_slot
find_slot-home_empty pids pid hp e =
    find_from-home_empty pids pid (slot pid) table_size (slot-lt pid) hp e

-- A pid that stands in its home slot is found there.
pub find_slot-home :
    (pids : List ℕ) (pid : ℕ)
    → get_or pids (slot pid) pid_empty ≡ pid
    → find_slot pids pid ≡ some (slot pid)
unfolding find_slot
find_slot-home pids pid e =
    find_from-first pids pid (slot pid) table_size (omega arith) (slot-lt pid) e

abbrev pub IsFree : ℕ → Type 0
IsFree cur = (cur ≡ pid_empty) ⊎ (cur ≡ pid_tombstone)

-- Where the probe sequence has a free slot, a free slot is taken.
place_from-room :
    (pids : List ℕ) (pid start n step k d : ℕ)
    → step ≤ k
    → k < step + n
    → IsFree (get_or pids (probe_at start k) pid_empty)
    → place_from pids pid start n step none ≡ fresh d
    → IsFree (get_or pids d pid_empty)
unfolding place_from
place_from-room pids pid start zero step k d h1 h2 f e = absurd (omega arith)
place_from-room pids pid start (suc n) step k d h1 h2 f e = elim (ℕ_discrete k step) [
  | yes same ↦ ground (
    arith,
    place_from-tomb pids pid start n (step + 1) (probe_at start step) d,
    ap (λ i. get_or pids (probe_at start i) pid_empty) same,
  )
  | no ne ↦ ground (
    arith,
    place_from-room pids pid start n (step + 1) k d,
    place_from-tomb pids pid start n (step + 1) (probe_at start step) d,
  )
]

-- The step at which the probe sequence of the pid comes to the slot `s`.
abbrev steps_to : ℕ → ℕ → ℕ
steps_to pid s = (s + table_size - slot pid) % table_size

probe_at-steps_to : (pid s : ℕ) → s < table_size → probe_at (slot pid) (steps_to pid s) ≡ s
probe_at-steps_to pid s h = omega (arith, slot-lt pid)

-- Where the table has a free slot, no pid is evicted.
pub place-room :
    (pids : List ℕ) (pid s d : ℕ)
    → s < table_size
    → IsFree (get_or pids s pid_empty)
    → place pids pid ≡ fresh d
    → IsFree (get_or pids d pid_empty)
unfolding place
place-room pids pid s d hs f e =
    place_from-room pids pid (slot pid) table_size 0 (steps_to pid s) d (omega arith) (omega arith)
      (rw (probe_at-steps_to pid s hs) f) e
