-- ===== src/Tui/History/Recent.antt =====
-- The ring of src/tui/dashboard.rs holds the last 120 values that were pushed.
use scx_cognis.Base.{
  ℕ, zero, suc, ◌+◌, ◌-◌, ◌%◌, ◌≤◌, ◌<◌, ◌≡◌, ◌≢◌, refl, sym, ap, ap₂, ◌∙◌, List, [], ◌∷◌, ◌++◌,
  arith, ltb, length, get_or, set, drop, length-replicate, length-append, length-set,
  get_or-set_self, get_or-set_ne, Bool-cases, inl, inr, append-nil, append_assoc, length-drop,
  drop-drop, drop-append,
}
use scx_cognis.Floats.{FloatOps, zero_lit}
use scx_cognis.Tui.History.{
  HistoryRing, history_len, map_range, new_ring, push, start, iter_ordered,
}

-- The last 120 of some values.
abbrev pub recent : {F : Type 0} → List F → List F
recent vs = drop (length vs - history_len) vs

module _ {A : Type 0} where
  map_range-ext :
      (n : ℕ) (f g : ℕ → A) → ((i : ℕ) → i < n → f i ≡ g i) → map_range n f ≡ map_range n g
  map_range-ext zero f g h = refl
  map_range-ext (suc n) f g h =
      ap (λ x. x ∷ map_range n (λ i. f (suc i))) (h 0 (omega arith))
      ∙ ap (λ xs. g 0 ∷ xs)
          (map_range-ext n (λ i. f (suc i)) (λ i. g (suc i)) (λ i k. h (suc i) (omega arith)))

  map_range-snoc : (n : ℕ) (f : ℕ → A) → map_range (suc n) f ≡ map_range n f ++ f n ∷ []
  map_range-snoc zero f = refl
  map_range-snoc (suc n) f = ap (λ xs. f 0 ∷ xs) (map_range-snoc n (λ i. f (suc i)))

  pub length-map_range : (n : ℕ) (f : ℕ → A) → length (map_range n f) ≡ n
  length-map_range zero f = refl
  length-map_range (suc n) f = ap suc (length-map_range n (λ i. f (suc i)))

-- The ring is full, or it has not wrapped around.
pub record IsRing {F : Type 0} (r : HistoryRing F) : Type 0 where
  pub size : length r.buf ≡ history_len
  pub head_below : r.head < history_len
  pub len_bound : r.len ≤ history_len
  pub unwrapped : r.len < history_len → r.head ≡ r.len

module _ {F : Type 0} (fl : FloatOps F) where
  pub new_ring-IsRing : IsRing (new_ring fl)
  new_ring-IsRing = record {
    size = length-replicate history_len (zero_lit fl);
    head_below = omega arith;
    len_bound = omega arith;
    unwrapped = λ h. refl;
  }

  pub push-IsRing : (r : HistoryRing F) (v : F) → IsRing r → IsRing (push fl r v)
  unfolding push
  push-IsRing r v w = record {
    size = length-set r.buf r.head v ∙ w.size;
    head_below = omega arith;
    len_bound = ground (arith, w.len_bound);
    unwrapped = λ h. ground (arith, w.unwrapped);
  }

  -- The value at place `i`, from the oldest.
  abbrev value_at : HistoryRing F → ℕ → F
  value_at r i = get_or r.buf ((start fl r + i) % history_len) (zero_lit fl)

  abbrev pushed_index : HistoryRing F → F → ℕ → ℕ
  pushed_index r v i = (start fl (push fl r v) + i) % history_len

  -- A place of the ring after a push, for the new value and for the others.
  value_at-new :
      (r : HistoryRing F) (v : F) (i : ℕ)
      → IsRing r
      → pushed_index r v i ≡ r.head
      → value_at (push fl r v) i ≡ v
  unfolding push
  value_at-new r v i w e =
      ap (λ k. get_or (set r.buf r.head v) k (zero_lit fl)) e
      ∙ get_or-set_self r.buf r.head v (zero_lit fl) (omega (arith, w.size, w.head_below))

  value_at-old :
      (r : HistoryRing F) (v : F) (i j : ℕ)
      → r.head ≢ pushed_index r v i
      → pushed_index r v i ≡ (start fl r + j) % history_len
      → value_at (push fl r v) i ≡ value_at r j
  unfolding push
  value_at-old r v i j ne e =
      get_or-set_ne r.buf r.head (pushed_index r v i) v (zero_lit fl) ne
      ∙ ap (λ k. get_or r.buf k (zero_lit fl)) e

  -- Before the ring is full a push adds its value at the end.
  grown_index :
      (r : HistoryRing F) (v : F) (i : ℕ)
      → IsRing r
      → r.len < history_len
      → i ≤ r.len
      → pushed_index r v i ≡ i
  unfolding push
  grown_index r v i w h k = ground (arith, w.unwrapped h)

  start_index :
      (r : HistoryRing F) (i : ℕ)
      → IsRing r
      → r.len < history_len
      → i < r.len
      → (start fl r + i) % history_len ≡ i
  start_index r i w h k = ground (arith, w.len_bound)

  length-push : (r : HistoryRing F) (v : F) → r.len < history_len → (push fl r v).len ≡ suc r.len
  unfolding push
  length-push r v h = ground arith

  push-grows :
      (r : HistoryRing F) (v : F)
      → IsRing r
      → r.len < history_len
      → iter_ordered fl (push fl r v) ≡ iter_ordered fl r ++ v ∷ []
  unfolding iter_ordered
  push-grows r v w h =
      let q = push fl r v in
      let same : (i : ℕ) → i < r.len → value_at q i ≡ value_at r i = λ i k.
        let at : pushed_index r v i ≡ i = grown_index r v i w h (omega arith) in
        value_at-old r v i i (omega (arith, at, w.unwrapped h))
          (at ∙ sym (start_index r i w h k)) in
      let last : value_at q r.len ≡ v =
        value_at-new r v r.len w (grown_index r v r.len w h (omega arith) ∙ sym (w.unwrapped h)) in
      ap (λ k. map_range k (value_at q)) (length-push r v h)
      ∙ map_range-snoc r.len (value_at q)
      ∙ ap₂ (λ xs x. xs ++ x ∷ []) (map_range-ext r.len (value_at q) (value_at r) same) last

  -- From then on it also drops the oldest.
  shifted_index :
      (r : HistoryRing F) (v : F) (i : ℕ)
      → IsRing r
      → r.len ≡ history_len
      → pushed_index r v i ≡ (start fl r + suc i) % history_len
  unfolding push
  shifted_index r v i w h = ground (arith, w.head_below)

  full_ne :
      (r : HistoryRing F) (v : F) (i : ℕ)
      → IsRing r
      → r.len ≡ history_len
      → i < 119
      → r.head ≢ pushed_index r v i
  unfolding push
  full_ne r v i w h k = ground (arith, w.head_below)

  full_new :
      (r : HistoryRing F) (v : F) → IsRing r → r.len ≡ history_len → pushed_index r v 119 ≡ r.head
  unfolding push
  full_new r v w h = ground (arith, w.head_below)

  full_len : (r : HistoryRing F) (v : F) → r.len ≡ history_len → (push fl r v).len ≡ suc 119
  unfolding push
  full_len r v h = ground arith

  push-shifts :
      (r : HistoryRing F) (v : F)
      → IsRing r
      → r.len ≡ history_len
      → iter_ordered fl (push fl r v) ≡ drop 1 (iter_ordered fl r) ++ v ∷ []
  unfolding iter_ordered
  push-shifts r v w h =
      let q = push fl r v in
      let older : ℕ → F = λ i. value_at r (suc i) in
      let same : (i : ℕ) → i < 119 → value_at q i ≡ older i =
        λ i k. value_at-old r v i (suc i) (full_ne r v i w h k) (shifted_index r v i w h) in
      let last : value_at q 119 ≡ v = value_at-new r v 119 w (full_new r v w h) in
      let kept : drop 1 (map_range r.len (value_at r)) ≡ map_range 119 older =
        ap (λ k. drop 1 (map_range k (value_at r))) h in
      ap (λ k. map_range k (value_at q)) (full_len r v h)
      ∙ map_range-snoc 119 (value_at q)
      ∙ ap₂ (λ xs x. xs ++ x ∷ []) (map_range-ext 119 (value_at q) older same ∙ sym kept) last

  pub length-iter_ordered : (r : HistoryRing F) → length (iter_ordered fl r) ≡ r.len
  unfolding iter_ordered
  length-iter_ordered r = length-map_range r.len (value_at r)

  recent-short : (xs : List F) → length xs ≤ history_len → recent xs ≡ xs
  recent-short xs h = let e : length xs - history_len ≡ 0 = omega arith in ap (λ n. drop n xs) e

  recent-recent : (xs ys : List F) → recent (recent xs ++ ys) ≡ recent (xs ++ ys)
  recent-recent xs ys =
      let k = length xs - history_len in
      ap (λ zs. recent zs) (sym (drop-append k xs ys (omega arith)))
      ∙ drop-drop (length (drop k (xs ++ ys)) - history_len) k (xs ++ ys)
      ∙ ap (λ n. drop n (xs ++ ys)) (omega (arith, length-drop k (xs ++ ys), length-append xs ys))

  push-recent :
      (r : HistoryRing F) (v : F)
      → IsRing r
      → iter_ordered fl (push fl r v) ≡ recent (iter_ordered fl r ++ v ∷ [])
  push-recent r v w =
      let vs = iter_ordered fl r in
      let count : length (vs ++ v ∷ []) ≡ suc r.len =
        omega (arith, length-append vs (v ∷ []), length-iter_ordered r) in
      elim (Bool-cases (ltb r.len history_len)) [
        | inl room ↦
            push-grows r v w (ground arith)
            ∙ sym (recent-short (vs ++ v ∷ []) (ground (arith, count)))
        | inr full ↦
            let one_over : 1 ≡ length (vs ++ v ∷ []) - history_len =
              ground (arith, count, w.len_bound) in
            push-shifts r v w (ground (arith, w.len_bound))
            ∙ sym (drop-append 1 vs (v ∷ []) (ground (arith, length-iter_ordered r)))
            ∙ ap (λ n. drop n (vs ++ v ∷ [])) one_over
      ]

  -- The ring after some values were pushed in turn.
  abbrev pub pushes : HistoryRing F → List F → HistoryRing F
  pushes r [] = r
  pushes r (v ∷ vs) = pushes (push fl r v) vs

  pub pushes-IsRing : (r : HistoryRing F) (vs : List F) → IsRing r → IsRing (pushes r vs)
  pushes-IsRing r [] w = w
  pushes-IsRing r (v ∷ vs) w = pushes-IsRing (push fl r v) vs (push-IsRing r v w)

  pushes-append :
      (r : HistoryRing F) (vs : List F)
      → IsRing r
      → recent (iter_ordered fl (pushes r vs)) ≡ recent (iter_ordered fl r ++ vs)
  pushes-append r [] w = ap (λ xs. recent xs) (sym (append-nil (iter_ordered fl r)))
  pushes-append r (v ∷ vs) w =
      pushes-append (push fl r v) vs (push-IsRing r v w)
      ∙ ap (λ xs. recent (xs ++ vs)) (push-recent r v w)
      ∙ recent-recent (iter_ordered fl r ++ v ∷ []) vs
      ∙ ap (λ xs. recent xs) (append_assoc (iter_ordered fl r) (v ∷ []) vs)

  recent-iter_ordered :
      (r : HistoryRing F) → IsRing r → recent (iter_ordered fl r) ≡ iter_ordered fl r
  recent-iter_ordered r w =
      recent-short (iter_ordered fl r) (omega (arith, w.len_bound, length-iter_ordered r))

  new_ring-nil : iter_ordered fl (new_ring fl) ≡ []
  unfolding iter_ordered
  new_ring-nil = refl

  -- After any values were pushed into a new ring in turn, `iter_ordered` yields the last 120 of
  -- them, or all when they are fewer, from the oldest to the newest.
  pub iter_ordered-pushes : (vs : List F) → iter_ordered fl (pushes (new_ring fl) vs) ≡ recent vs
  iter_ordered-pushes vs =
      sym (
        recent-iter_ordered (pushes (new_ring fl) vs)
          (pushes-IsRing (new_ring fl) vs new_ring-IsRing))
      ∙ pushes-append (new_ring fl) vs new_ring-IsRing
      ∙ ap (λ xs. recent (xs ++ vs)) new_ring-nil
