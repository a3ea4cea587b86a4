-- ===== src/Policy/Sort.antt =====
-- `sort_unstable` on numbers: an insertion sort, which is ordered and has the same elements.
use scx_cognis.Base.{
  ℕ, zero, suc, ◌≤◌, ◌<◌, ◌≡◌, refl, List, [], ◌∷◌, leb, ltb, ◌==◌, if◌then◌else◌, length, get_or,
  arith,
}

unfoldable pub insert : ℕ → List ℕ → List ℕ
insert x [] = x ∷ []
insert x (y ∷ ys) = if leb x y then x ∷ y ∷ ys else y ∷ insert x ys

unfoldable pub sort : List ℕ → List ℕ
unfolding insert
sort [] = []
sort (x ∷ xs) = insert x (sort xs)

unfoldable pub count : ℕ → List ℕ → ℕ
count a [] = 0
count a (x ∷ xs) = if a == x then suc (count a xs) else count a xs

-- Every element is at most the later ones.
abbrev pub LeAll : ℕ → List ℕ → Type 0
LeAll x [] = Unit
LeAll x (y ∷ ys) = (x ≤ y) × LeAll x ys

abbrev pub IsSorted : List ℕ → Type 0
IsSorted [] = Unit
IsSorted (x ∷ xs) = LeAll x xs × IsSorted xs

LeAll-trans : (x y : ℕ) (xs : List ℕ) → x ≤ y → LeAll y xs → LeAll x xs
LeAll-trans x y [] h a = tt
LeAll-trans x y (z ∷ xs) h a = (omega arith, LeAll-trans x y xs h a.1)

LeAll-insert : (x y : ℕ) (xs : List ℕ) → x ≤ y → LeAll x xs → LeAll x (insert y xs)
unfolding insert
LeAll-insert x y [] h a = (h, tt)
LeAll-insert x y (z ∷ xs) h a = ground (arith, LeAll-insert x y xs h a.1)

insert-IsSorted : (x : ℕ) (xs : List ℕ) → IsSorted xs → IsSorted (insert x xs)
unfolding insert
insert-IsSorted x [] s = (tt, tt)
insert-IsSorted x (y ∷ ys) s =
    ground (arith, LeAll-trans x y ys, LeAll-insert y x ys, insert-IsSorted x ys s.1)

pub sort-IsSorted : (xs : List ℕ) → IsSorted (sort xs)
unfolding sort
sort-IsSorted [] = tt
sort-IsSorted (x ∷ xs) = insert-IsSorted x (sort xs) (sort-IsSorted xs)

count-insert : (a x : ℕ) (xs : List ℕ) → count a (insert x xs) ≡ count a (x ∷ xs)
unfolding insert count
count-insert a x [] = refl
count-insert a x (y ∷ ys) = ground (arith, count-insert a x ys)

pub count-sort : (a : ℕ) (xs : List ℕ) → count a (sort xs) ≡ count a xs
unfolding sort count
count-sort a [] = refl
count-sort a (x ∷ xs) = ground (arith, count-insert a x (sort xs), count-sort a xs)

length-insert : (x : ℕ) (xs : List ℕ) → length (insert x xs) ≡ suc (length xs)
unfolding insert
length-insert x [] = refl
length-insert x (y ∷ ys) = ground (arith, length-insert x ys)

pub length-sort : (xs : List ℕ) → length (sort xs) ≡ length xs
unfolding sort
length-sort [] = refl
length-sort (x ∷ xs) = omega (arith, length-insert x (sort xs), length-sort xs)

LeAll-get : (x : ℕ) (xs : List ℕ) (j : ℕ) → j < length xs → LeAll x xs → x ≤ get_or xs j 0
LeAll-get x [] j h a = absurd (omega arith)
LeAll-get x (y ∷ ys) zero h a = a.0
LeAll-get x (y ∷ ys) (suc j) h a = LeAll-get x ys j (omega arith) a.1

-- A sorted list is read in order.
pub get_or_mono :
    (xs : List ℕ) (i j : ℕ) → IsSorted xs → i ≤ j → j < length xs → get_or xs i 0 ≤ get_or xs j 0
get_or_mono [] i j s h k = absurd (omega arith)
get_or_mono (x ∷ xs) zero zero s h k = omega arith
get_or_mono (x ∷ xs) zero (suc j) s h k = LeAll-get x xs j (omega arith) s.0
get_or_mono (x ∷ xs) (suc i) zero s h k = absurd (omega arith)
get_or_mono (x ∷ xs) (suc i) (suc j) s h k = get_or_mono xs i j s.1 (omega arith) (omega arith)

pub count-get_or : (xs : List ℕ) (i : ℕ) → i < length xs → 0 < count (get_or xs i 0) xs
unfolding count
count-get_or [] i h = absurd (omega arith)
count-get_or (x ∷ xs) zero h = ground arith
count-get_or (x ∷ xs) (suc i) h = ground (arith, count-get_or xs i)

-- How many elements are below `a`, and how many are at most `a`.
unfoldable pub count_lt : ℕ → List ℕ → ℕ
count_lt a [] = 0
count_lt a (x ∷ xs) = if ltb x a then suc (count_lt a xs) else count_lt a xs

unfoldable pub count_le : ℕ → List ℕ → ℕ
count_le a [] = 0
count_le a (x ∷ xs) = if leb x a then suc (count_le a xs) else count_le a xs

module _ (a : ℕ) where
  count_lt-insert : (x : ℕ) (xs : List ℕ) → count_lt a (insert x xs) ≡ count_lt a (x ∷ xs)
  unfolding insert count_lt
  count_lt-insert x [] = refl
  count_lt-insert x (y ∷ ys) = ground (arith, count_lt-insert x ys)

  pub count_lt-sort : (xs : List ℕ) → count_lt a (sort xs) ≡ count_lt a xs
  unfolding sort count_lt
  count_lt-sort [] = refl
  count_lt-sort (x ∷ xs) = ground (arith, count_lt-insert x (sort xs), count_lt-sort xs)

  count_le-insert : (x : ℕ) (xs : List ℕ) → count_le a (insert x xs) ≡ count_le a (x ∷ xs)
  unfolding insert count_le
  count_le-insert x [] = refl
  count_le-insert x (y ∷ ys) = ground (arith, count_le-insert x ys)

  pub count_le-sort : (xs : List ℕ) → count_le a (sort xs) ≡ count_le a xs
  unfolding sort count_le
  count_le-sort [] = refl
  count_le-sort (x ∷ xs) = ground (arith, count_le-insert x (sort xs), count_le-sort xs)

count_lt-zero : (a x : ℕ) (xs : List ℕ) → a ≤ x → LeAll x xs → count_lt a xs ≡ 0
unfolding count_lt
count_lt-zero a x [] h l = refl
count_lt-zero a x (y ∷ ys) h l = ground (arith, count_lt-zero a x ys h l.1)

-- The element at index `i` of a sorted list is its order statistic of rank `i`.
pub rank_lt : (xs : List ℕ) (i : ℕ) → IsSorted xs → i < length xs → count_lt (get_or xs i 0) xs ≤ i
unfolding count_lt
rank_lt [] i s h = absurd (omega arith)
rank_lt (x ∷ xs) zero s h = ground (arith, count_lt-zero x x xs)
rank_lt (x ∷ xs) (suc i) s h = ground (arith, rank_lt xs i)

pub rank_le : (xs : List ℕ) (i : ℕ) → IsSorted xs → i < length xs → i < count_le (get_or xs i 0) xs
unfolding count_le
rank_le [] i s h = absurd (omega arith)
rank_le (x ∷ xs) zero s h = ground arith
rank_le (x ∷ xs) (suc i) s h = ground (arith, rank_le xs i, LeAll-get x xs i)
