-- ===== src/Floats.antt =====
-- The floating-point operations that the program uses. `f32` and `f64` are a parameter of the model:
-- a record of operations, and the laws of IEEE 754 that a theorem rests on as named hypotheses.
pub mod Fixed
use scx_cognis.Base.{ℕ, ◌≡◌, ◌≤◌, ◌^◌, ◌⊎◌, Bool, true, if◌then◌else◌, not}

pub record FloatOps (F : Type 0) : Type 0 where
  -- The literal m / 10 ^ k, and its negative.
  pub lit : ℕ → ℕ → F
  pub neg_lit : ℕ → ℕ → F
  -- `n as f64` of a `u64`; beyond 64 bits, where the cast has no meaning, it may be taken to saturate.
  pub of_u64 : ℕ → F
  -- The same of an `i32`, given by its bit pattern.
  pub of_i32 : ℕ → F
  -- `x as u64`, which truncates and saturates.
  pub to_u64 : F → ℕ
  pub add : F → F → F
  pub sub : F → F → F
  pub mul : F → F → F
  pub div : F → F → F
  pub fmin : F → F → F
  pub fmax : F → F → F
  pub lt : F → F → Bool
  pub le : F → F → Bool

-- The two widths, with the casts `as f32` and `as f64`.
pub record Floats (F32 F64 : Type 0) : Type 0 where
  pub single : FloatOps F32
  pub double : FloatOps F64
  pub narrow : F64 → F32
  pub widen : F32 → F64

module _ {F : Type 0} (fl : FloatOps F) where
  abbrev pub zero_lit : F
  zero_lit = fl.lit 0 0

  abbrev pub one_lit : F
  one_lit = fl.lit 1 0

  abbrev pub minus_one : F
  minus_one = fl.neg_lit 1 0

  -- `x.clamp(lo, hi)`.
  abbrev pub fclamp : F → F → F → F
  fclamp x lo hi = let y = if fl.lt x lo then lo else x in if fl.lt hi y then hi else y

  abbrev pub Le : F → F → Type 0
  Le x y = fl.le x y ≡ true

  -- The order of the numbers; NaN is the value that is not `<=` itself.
  pub record IsOrdered : Type 0 where
    pub le_trans : (x y z : F) → Le x y → Le y z → Le x z
    pub num_left : (x y : F) → Le x y → Le x x
    pub num_right : (x y : F) → Le x y → Le y y
    pub le_total : (x y : F) → Le x x → Le y y → Le x y ⊎ Le y x
    pub lt-eq-not-le : (x y : F) → Le x x → Le y y → fl.lt x y ≡ not (fl.le y x)
    pub min-le-left : (x y : F) → Le x x → Le y y → Le (fl.fmin x y) x
    pub min-le-right : (x y : F) → Le x x → Le y y → Le (fl.fmin x y) y
    pub le-min : (x y z : F) → Le z x → Le z y → Le z (fl.fmin x y)
    pub max-ge-left : (x y : F) → Le x x → Le y y → Le x (fl.fmax x y)
    pub max-ge-right : (x y : F) → Le x x → Le y y → Le y (fl.fmax x y)
    pub max-le : (x y z : F) → Le x z → Le y z → Le (fl.fmax x y) z
    pub lit_nonneg : (m k : ℕ) → Le zero_lit (fl.lit m k)
    pub lit-le-one : (m k : ℕ) → m ≤ 10 ^ k → Le (fl.lit m k) one_lit
    pub lit_neg : Le minus_one zero_lit
    pub of_u64_nonneg : (n : ℕ) → Le zero_lit (fl.of_u64 n)

  -- Rounding is monotone, -1, 0 and 1 are floats, and an integer of 64 bits is a finite one.
  pub record IsRounding : Type 0 where
    pub mul_nonneg :
        (n : ℕ) (c : F) → Le zero_lit c → Le c one_lit → Le zero_lit (fl.mul (fl.of_u64 n) c)
    pub mul_low :
        (x c : F)
        → Le minus_one x
        → Le x one_lit
        → Le zero_lit c
        → Le c one_lit
        → Le minus_one (fl.mul x c)
    pub mul_high :
        (x c : F)
        → Le minus_one x
        → Le x one_lit
        → Le zero_lit c
        → Le c one_lit
        → Le (fl.mul x c) one_lit
    pub add_grows : (x c : F) → Le x one_lit → Le zero_lit c → Le c one_lit → Le x (fl.add x c)
    pub sub_shrinks : (x c : F) → Le minus_one x → Le zero_lit c → Le c one_lit → Le (fl.sub x c) x

  -- What the slice controller relies on: conversions are monotone, and so is division where it is
  -- no infinity by an infinity: by an integer from 1 on, and of an integer. An integer of 64 bits
  -- is a finite float.
  pub record IsMonotone : Type 0 where
    pub of_u64_mono : (m n : ℕ) → m ≤ n → Le (fl.of_u64 m) (fl.of_u64 n)
    pub to_u64_mono : (x y : F) → Le x y → fl.to_u64 x ≤ fl.to_u64 y
    pub div_mono :
        (x y : F) (n : ℕ) → Le x y → 1 ≤ n → Le (fl.div x (fl.of_u64 n)) (fl.div y (fl.of_u64 n))
    pub div_anti :
        (n : ℕ) (y z : F)
        → Le one_lit y
        → Le y z
        → Le (fl.div (fl.of_u64 n) z) (fl.div (fl.of_u64 n) y)
    pub of_u64_pos : (n : ℕ) → 1 ≤ n → Le one_lit (fl.of_u64 n)
