-- ===== src/Bpf/Topology/Remap.antt =====
-- The indices that `detect` of src/bpf.rs gives to ids: one for each id, from 0 up.
use scx_cognis.Base.{
  ℕ, suc, ◌+◌, ◌-◌, ◌^◌, ◌≤◌, ◌<◌, ◌≡◌, ◌≢◌, refl, ap, min, Bool, true, false, ◌||◌, none, some,
  List, [], ◌∷◌, arith, ◌⊎◌, ◌==◌, if◌then◌else◌, length, All, inl, inr, Option-cases,
}
use scx_cognis.Bpf.Topology.{Indices, index_of, assign}

abbrev pub elem : ℕ → List ℕ → Bool
elem x [] = false
elem x (y ∷ ys) = x == y || elem x ys

-- The ids have indices below `next`, no two the same, and all of them come from the list `all`.
abbrev pub ids : List (ℕ × ℕ) → List ℕ
ids [] = []
ids ((i, k) ∷ r) = i ∷ ids r

abbrev pub IsDistinct : List ℕ → Type 0
IsDistinct [] = Unit
IsDistinct (x ∷ xs) = (elem x xs ≡ false) × IsDistinct xs

abbrev remove : ℕ → List ℕ → List ℕ
remove x [] = []
remove x (y ∷ ys) = if x == y then ys else y ∷ remove x ys

length-remove : (x : ℕ) (ys : List ℕ) → elem x ys ≡ true → length ys ≡ length (remove x ys) + 1
length-remove x [] h = cc
length-remove x (y ∷ ys) h = ground (arith, length-remove x ys)

elem-remove_ne : (x z : ℕ) (ys : List ℕ) → z ≢ x → elem z (remove x ys) ≡ elem z ys
elem-remove_ne x z [] ne = refl
elem-remove_ne x z (y ∷ ys) ne = ground (arith, elem-remove_ne x z ys ne)

All-remove :
    (x : ℕ) (xs ys : List ℕ)
    → elem x xs ≡ false
    → All (λ z. elem z ys ≡ true) xs
    → All (λ z. elem z (remove x ys) ≡ true) xs
All-remove x [] ys a h = tt
All-remove x (z ∷ xs) ys a h =
    (ground (arith, elem-remove_ne x z ys), All-remove x xs ys (ground arith) h.1)

-- Distinct members of a list are not more than it has.
distinct-length :
    (xs ys : List ℕ) → IsDistinct xs → All (λ z. elem z ys ≡ true) xs → length xs ≤ length ys
distinct-length [] ys d h = omega arith
distinct-length (x ∷ xs) ys d h = omega (
  arith,
  length-remove x ys h.0,
  distinct-length xs (remove x ys) d.1 (All-remove x xs ys d.0 h.1),
)

pub record IsRemap (r : Indices) (all : List ℕ) : Type 0 where
  pub counted : r.next ≡ length r.remap
  pub distinct : IsDistinct (ids r.remap)
  pub known : All (λ z. elem z all ≡ true) (ids r.remap)
  pub below : (id k : ℕ) → index_of r.remap id ≡ some k → k < r.next
  pub one_id : (a b k : ℕ) → index_of r.remap a ≡ some k → index_of r.remap b ≡ some k → a ≡ b

length-ids : (r : List (ℕ × ℕ)) → length (ids r) ≡ length r
length-ids [] = refl
length-ids (e ∷ r) = ap suc (length-ids r)

-- No more indices are given than there are ids.
pub next-le : (r : Indices) (all : List ℕ) → IsRemap r all → r.next ≤ length all
next-le r all v =
    omega
      (arith, v.counted, length-ids r.remap, distinct-length (ids r.remap) all v.distinct v.known)

elem-index_of : (r : List (ℕ × ℕ)) (id : ℕ) → index_of r id ≡ none → elem id (ids r) ≡ false
elem-index_of [] id e = refl
elem-index_of ((i, k) ∷ r) id e = ground (arith, elem-index_of r id)

-- The indices after an id that has none gets the next one.
abbrev extended : Indices → ℕ → Indices
extended r id = record { remap = (id, r.next) ∷ r.remap; next = r.next + 1 }

extended-below :
    (r : Indices) (all : List ℕ) (id : ℕ)
    → IsRemap r all
    → (a k : ℕ) → index_of (extended r id).remap a ≡ some k
    → k < r.next + 1
extended-below r all id v a k e = ground (arith, v.below a k)

extended-one_id :
    (r : Indices) (all : List ℕ) (id : ℕ)
    → IsRemap r all
    → (a b k : ℕ) → index_of (extended r id).remap a ≡ some k
    → index_of (extended r id).remap b ≡ some k
    → a ≡ b
extended-one_id r all id v a b k e f = ground (arith, v.one_id a b k, v.below a k, v.below b k)

extended-IsRemap :
    (r : Indices) (all : List ℕ) (id : ℕ)
    → IsRemap r all
    → elem id all ≡ true
    → index_of r.remap id ≡ none
    → IsRemap (extended r id) all
extended-IsRemap r all id v h absent = record {
  counted = omega (arith, v.counted);
  distinct = (elem-index_of r.remap id absent, v.distinct);
  known = (h, v.known);
  below = extended-below r all id v;
  one_id = extended-one_id r all id v;
}

extended-min :
    (r : Indices) (all : List ℕ) (id : ℕ)
    → IsRemap (extended r id) all
    → length all < 2 ^ 16
    → min (r.next + 1) (2 ^ 16 - 1) ≡ r.next + 1
extended-min r all id v small = omega (arith, next-le (extended r id) all v)

assign-given : (r : Indices) (id k : ℕ) → index_of r.remap id ≡ some k → assign r id ≡ (k, r)
unfolding assign
assign-given r id k there = rw there refl

assign-extended :
    (r : Indices) (all : List ℕ) (id : ℕ)
    → IsRemap (extended r id) all
    → index_of r.remap id ≡ none
    → length all < 2 ^ 16
    → assign r id ≡ (r.next, extended r id)
unfolding assign
assign-extended r all id v absent small = rw (absent, extended-min r all id v small) refl

-- What `assign` promises of the index and the indices `p` it returns.
pub record Assigned (r : Indices) (all : List ℕ) (id : ℕ) (p : ℕ × Indices) : Type 0 where
  pub valid : IsRemap p.1 all
  pub found : index_of p.1.remap id ≡ some p.0
  pub kept : (a k : ℕ) → index_of r.remap a ≡ some k → index_of p.1.remap a ≡ some k
  pub inside : p.0 < length all
  pub fresh_or_old :
      (a k : ℕ)
      → index_of p.1.remap a ≡ some k
      → ((a ≡ id) × (k ≡ p.0)) ⊎ (index_of r.remap a ≡ some k)

given-Assigned :
    (r : Indices) (all : List ℕ) (id k : ℕ)
    → IsRemap r all
    → index_of r.remap id ≡ some k
    → Assigned r all id (k, r)
given-Assigned r all id k v there = record {
  valid = v;
  found = there;
  kept = λ a k e. e;
  inside = omega (arith, next-le r all v, v.below id k there);
  fresh_or_old = λ a k e. inr e;
}

extended-found : (r : Indices) (id : ℕ) → index_of (extended r id).remap id ≡ some r.next
extended-found r id = ground arith

extended-kept :
    (r : Indices) (id : ℕ)
    → index_of r.remap id ≡ none
    → (a k : ℕ) → index_of r.remap a ≡ some k
    → index_of (extended r id).remap a ≡ some k
extended-kept r id absent a k e = ground arith

extended-fresh :
    (r : Indices) (id a k : ℕ)
    → index_of (extended r id).remap a ≡ some k
    → ((a ≡ id) × (k ≡ r.next)) ⊎ (index_of r.remap a ≡ some k)
extended-fresh r id a k e = ground arith

extended-Assigned :
    (r : Indices) (all : List ℕ) (id : ℕ)
    → IsRemap (extended r id) all
    → index_of r.remap id ≡ none
    → Assigned r all id (r.next, extended r id)
extended-Assigned r all id w absent = record {
  valid = w;
  found = extended-found r id;
  kept = extended-kept r id absent;
  inside = omega (arith, next-le (extended r id) all w);
  fresh_or_old = extended-fresh r id;
}

pub assign-Assigned :
    (r : Indices) (all : List ℕ) (id : ℕ)
    → IsRemap r all
    → elem id all ≡ true
    → length all < 2 ^ 16
    → Assigned r all id (assign r id)
assign-Assigned r all id v h small = elim (Option-cases (index_of r.remap id)) [
  | inl absent ↦
      let w : IsRemap (extended r id) all = extended-IsRemap r all id v h absent in
      rw (assign-extended r all id w absent small) (extended-Assigned r all id w absent)
  | inr (k, there) ↦ rw (assign-given r id k there) (given-Assigned r all id k v there)
]
