-- ===== src/TaskQueue/Ring.antt =====
-- `TaskRing` of src/task_queue.rs refines a bounded list: which tasks a ring holds, in which order.
use native.Mathlib.Nat.{mod-add-mod, mod-eq_of_lt, mod-eq-sub-mod, add-zero}
use scx_cognis.Base.{
  ℕ, zero, suc, ◌+◌, ◌-◌, ◌%◌, ◌^◌, ◌≤◌, ◌<◌, ◌≡◌, ◌≢◌, refl, sym, ap, ap₂, ◌∙◌, Option, none, some,
  List, [], ◌∷◌, ◌++◌, map, arith, length, get_or, set, length-set, get_or-set_self, get_or-set_ne,
  length-replicate, dec_lt, ok, err,
}
use scx_cognis.TaskQueue.Defs.{TaskRing, new_ring, push_back, pop_front, ring_front}

-- An index of the ring and the one `j` places ahead of it differ, unless `j` is a whole round.
ahead-ne : (cap h j : ℕ) → h < cap → 0 < j → j < cap → h ≢ (h + j) % cap
ahead-ne cap h j inside some_step no_round = elim (dec_lt (h + j) cap) [
  | no past ↦
      let back = mod-eq-sub-mod {n = h + j} {m = cap} (omega arith) in
      let landed = mod-eq_of_lt {n = h + j - cap} {m = cap} (omega arith) in
      omega (arith, back, landed)
  | yes before ↦ omega (arith, mod-eq_of_lt before)
]

next-mod : (a cap : ℕ) → (a % cap + 1) % cap ≡ (a + 1) % cap
next-mod a cap = rw mod-add-mod

shift-mod : (h n cap : ℕ) → (h + suc n) % cap ≡ ((h + 1) % cap + n) % cap
shift-mod h n cap = rw mod-add-mod (ap (λ k. k % cap) (omega arith))

unshift-mod : (h n cap : ℕ) → n ≢ 0 → ((h + 1) % cap + (n - 1)) % cap ≡ (h + n) % cap
unshift-mod h n cap p = rw mod-add-mod (ap (λ k. k % cap) (omega arith))

module _ {ℓ} {A : Type ℓ} where
  -- The `n` slots from index `h` on, going round at `cap`.
  abbrev pub window : List (Option A) → ℕ → ℕ → ℕ → List (Option A)
  window buf cap h zero = []
  window buf cap h (suc n) = get_or buf h none ∷ window buf cap ((h + 1) % cap) n

  -- The ring holds the tasks `q`, oldest first, each in an initialised slot.
  pub record Models (r : TaskRing A) (q : List A) : Type ℓ where
    pub room : 0 < length r.buf
    pub small : length r.buf < 2 ^ 63
    pub head_in : r.head < length r.buf
    pub tail_at : r.tail ≡ (r.head + r.len) % length r.buf
    pub len_in : r.len ≤ length r.buf
    pub counted : r.len ≡ length q
    pub slots : window r.buf (length r.buf) r.head r.len ≡ map some q

  -- A write to the slot behind the `n` first ones adds to what the window shows.
  write-window :
      (n cap h tail : ℕ) (buf : List (Option A)) (x : Option A)
      → length buf ≡ cap
      → tail ≡ (h + n) % cap
      → n < cap
      → h < cap
      → window (set buf tail x) cap h (suc n) ≡ window buf cap h n ++ (x ∷ [])
  write-window zero cap h tail buf x sized at bounded inside =
      let here : tail ≡ h = at ∙ rw add-zero (mod-eq_of_lt inside) in
      rw (here, get_or-set_self buf h x none (omega arith)) refl
  write-window (suc n) cap h tail buf x sized at bounded inside =
      let untouched =
        get_or-set_ne buf tail h x none
          (λ e. ahead-ne cap h (suc n) inside (omega arith) bounded (sym e ∙ at)) in
      let behind =
        write-window n cap ((h + 1) % cap) tail buf x sized (at ∙ shift-mod h n cap) (omega arith)
          (omega arith) in
      ap₂ ◌∷◌ untouched behind

  -- `window` matches on `suc`, the code tests `len == 0`.
  window-ne-zero :
      (buf : List (Option A)) (cap h n : ℕ)
      → n ≢ 0
      → window buf cap h n ≡ get_or buf h none ∷ window buf cap ((h + 1) % cap) (n - 1)
  window-ne-zero buf cap h zero p = absurd (p refl)
  window-ne-zero buf cap h (suc n) p = ap (λ k. window buf cap h (suc k)) (omega arith)

  map-snoc : (q : List A) (x : A) → map some (q ++ x ∷ []) ≡ map some q ++ (some x ∷ [])
  map-snoc [] x = refl
  map-snoc (y ∷ q) x = ap (λ t. some y ∷ t) (map-snoc q x)

  length-snoc : (q : List A) (x : A) → length (q ++ x ∷ []) ≡ length q + 1
  length-snoc [] x = omega arith
  length-snoc (y ∷ q) x = omega (arith, length-snoc q x)

  pub new_ring-Models :
      (cap : ℕ) {r : TaskRing A} → cap < 2 ^ 63 → new_ring cap ≡ some r → Models r []
  unfolding new_ring
  new_ring-Models cap h e = ground (arith, length-replicate {ℓ} {A = Option A} cap none)

  -- A push into a full ring hands the value back and changes nothing.
  pub push_back-full : (r : TaskRing A) (x : A) → r.len ≡ length r.buf → push_back r x ≡ (err x, r)
  unfolding push_back
  push_back-full r x e = ground arith

  pub push_back-ok :
      (r : TaskRing A) (q : List A) (x : A)
      → Models r q
      → r.len ≢ length r.buf
      → ((push_back r x).0 ≡ ok tt)
        × Models (push_back r x).1 (q ++ x ∷ [])
        × (length (push_back r x).1.buf ≡ length r.buf)
  unfolding push_back
  push_back-ok r q x m ne = ground (
    arith,
    length-set r.buf r.tail (some x),
    length-snoc q x,
    map-snoc q x,
    next-mod (r.head + r.len) (length r.buf),
    write-window r.len (length r.buf) r.head r.tail r.buf (some x),
  )

  pub pop_front-empty : (r : TaskRing A) → Models r [] → pop_front r ≡ (none, r)
  unfolding pop_front
  pop_front-empty r m = ground arith

  pub pop_front-cons :
      (r : TaskRing A) (x : A) (q : List A)
      → Models r (x ∷ q)
      → ((pop_front r).0 ≡ some x)
        × Models (pop_front r).1 q
        × (length (pop_front r).1.buf ≡ length r.buf)
        × ((pop_front r).1.len + 1 ≡ r.len)
  unfolding pop_front
  pop_front-cons r x q m = ground (
    arith,
    window-ne-zero r.buf (length r.buf) r.head r.len,
    unshift-mod r.head r.len (length r.buf),
  )

  pub ring_front-Models :
      (r : TaskRing A) (x : A) (q : List A) → Models r (x ∷ q) → ring_front r ≡ some x
  unfolding ring_front
  ring_front-Models r x q m = ground (arith, window-ne-zero r.buf (length r.buf) r.head r.len)

  pub ring_front-empty : (r : TaskRing A) → Models r [] → ring_front r ≡ none
  unfolding ring_front
  ring_front-empty r m = ground arith
