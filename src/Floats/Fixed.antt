-- ===== src/Floats/Fixed.antt =====
-- A value of the float interface: fixed-point numbers in steps of 1 / 1000, rounded towards zero.
-- It shows that the laws can be met, and lets the tests run.
use scx_cognis.Base.{
  ℕ, suc, ◌+◌, ◌-◌, ◌*◌, ◌/◌, ◌^◌, ◌≤◌, ◌<◌, Bool, not, arith, ltb, leb, if◌then◌else◌, min,
  u64_max,
}
use scx_cognis.Floats.{FloatOps, Floats, IsOrdered, IsRounding, IsMonotone, Le}

-- `pos n` is n / 1000 and `negsuc n` is -(n + 1) / 1000.
pub data ℤ : Type 0 where
  pos : ℕ → ℤ
  negsuc : ℕ → ℤ

abbrev pub sub_ℕ : ℕ → ℕ → ℤ
sub_ℕ a b = if leb b a then pos (a - b) else negsuc (b - a - 1)

abbrev pub pos_part : ℤ → ℕ
pos_part (pos n) = n
pos_part (negsuc n) = 0

abbrev pub neg_part : ℤ → ℕ
neg_part (pos n) = 0
neg_part (negsuc n) = suc n

abbrev pub le_ℤ : ℤ → ℤ → Bool
le_ℤ a b = leb (pos_part a + neg_part b) (pos_part b + neg_part a)

abbrev pub mul_ℤ : ℤ → ℤ → ℤ
mul_ℤ (pos a) (pos b) = pos (a * b / 1000)
mul_ℤ (pos a) (negsuc b) = sub_ℕ 0 (a * suc b / 1000)
mul_ℤ (negsuc a) (pos b) = sub_ℕ 0 (suc a * b / 1000)
mul_ℤ (negsuc a) (negsuc b) = pos (suc a * suc b / 1000)

abbrev pub div_ℤ : ℤ → ℤ → ℤ
div_ℤ (pos a) (pos b) = pos (a * 1000 / b)
div_ℤ (pos a) (negsuc b) = sub_ℕ 0 (a * 1000 / suc b)
div_ℤ (negsuc a) (pos b) = sub_ℕ 0 (suc a * 1000 / b)
div_ℤ (negsuc a) (negsuc b) = pos (suc a * 1000 / suc b)

abbrev pub fixed_ops : FloatOps ℤ
fixed_ops = record {
  lit = λ m k. pos (m * 1000 / 10 ^ k);
  neg_lit = λ m k. sub_ℕ 0 (m * 1000 / 10 ^ k);
  of_u64 = λ n. pos (n * 1000);
  of_i32 = λ n. if ltb n (2 ^ 31) then pos (n * 1000) else sub_ℕ 0 ((2 ^ 32 - n) * 1000);
  to_u64 = λ x. min (pos_part x / 1000) u64_max;
  add = λ a b. sub_ℕ (pos_part a + pos_part b) (neg_part a + neg_part b);
  sub = λ a b. sub_ℕ (pos_part a + neg_part b) (neg_part a + pos_part b);
  mul = mul_ℤ;
  div = div_ℤ;
  fmin = λ a b. if le_ℤ a b then a else b;
  fmax = λ a b. if le_ℤ a b then b else a;
  lt = λ a b. not (le_ℤ b a);
  le = le_ℤ;
}

abbrev pub fixed : Floats ℤ ℤ
fixed = record { single = fixed_ops; double = fixed_ops; narrow = λ x. x; widen = λ x. x }

div_bound : (m d : ℕ) → m ≤ d → m * 1000 / d ≤ 1000
div_bound m d h = grind arith

lit_le : (m k : ℕ) → m ≤ 10 ^ k → m * 1000 / 10 ^ k ≤ 1000
lit_le m k h = div_bound m (10 ^ k) h

pub fixed-IsOrdered : IsOrdered fixed_ops
fixed-IsOrdered = record {
  le_trans = λ x y z p q. ground arith;
  num_left = λ x y p. ground arith;
  num_right = λ x y p. ground arith;
  le_total = λ x y p q. ground arith;
  lt-eq-not-le = λ x y p q. ground arith;
  min-le-left = λ x y p q. ground arith;
  min-le-right = λ x y p q. ground arith;
  le-min = λ x y z p q. ground arith;
  max-ge-left = λ x y p q. ground arith;
  max-ge-right = λ x y p q. ground arith;
  max-le = λ x y z p q. ground arith;
  lit_nonneg = λ m k. ground arith;
  lit-le-one = λ m k h. ground (arith, lit_le m k h);
  lit_neg = ground arith;
  of_u64_nonneg = λ n. ground arith;
}

mul_le : (a c : ℕ) → c ≤ 1000 → a * c / 1000 ≤ a
mul_le a c h = let p : a * c ≤ a * 1000 = grind arith in omega arith

mul_nonneg :
    (x c : ℤ) → Le fixed_ops (pos 0) x → Le fixed_ops (pos 0) c → Le fixed_ops (pos 0) (mul_ℤ x c)
mul_nonneg (pos a) (pos c) hx hc = ground arith
mul_nonneg (pos a) (negsuc c) hx hc = ground arith
mul_nonneg (negsuc a) c hx hc = ground arith

mul_low :
    (x c : ℤ)
    → Le fixed_ops (negsuc 999) x
    → Le fixed_ops (pos 0) c
    → Le fixed_ops c (pos 1000)
    → Le fixed_ops (negsuc 999) (mul_ℤ x c)
mul_low (pos a) (pos c) hx hc h1 = ground arith
mul_low (negsuc a) (pos c) hx hc h1 = ground (arith, mul_le (suc a) c)
mul_low x (negsuc c) hx hc h1 = ground arith

mul_high :
    (x c : ℤ)
    → Le fixed_ops x (pos 1000)
    → Le fixed_ops (pos 0) c
    → Le fixed_ops c (pos 1000)
    → Le fixed_ops (mul_ℤ x c) (pos 1000)
mul_high (pos a) (pos c) hx hc h1 = ground (arith, mul_le a c)
mul_high (negsuc a) (pos c) hx hc h1 = ground arith
mul_high x (negsuc c) hx hc h1 = ground arith

pub fixed-IsRounding : IsRounding fixed_ops
fixed-IsRounding = record {
  mul_nonneg = λ n c p q. mul_nonneg (pos (n * 1000)) c (ground arith) p;
  mul_low = λ x c p q r s. mul_low x c p r s;
  mul_high = λ x c p q r s. mul_high x c q r s;
  add_grows = λ x c p q r. ground arith;
  sub_shrinks = λ x c p q r. ground arith;
}

mul_mono : (a b : ℕ) → a ≤ b → a * 1000 ≤ b * 1000
mul_mono a b h = omega arith

div-le-div : (a b d : ℕ) → a ≤ b → a / d ≤ b / d
div-le-div a b d h = grind arith

div-anti : (a c d : ℕ) → 0 < c → c ≤ d → a / d ≤ a / c
div-anti a c d h k = grind arith

div_mono :
    (x y z : ℤ)
    → Le fixed_ops x y
    → Le fixed_ops (pos 1000) z
    → Le fixed_ops (div_ℤ x z) (div_ℤ y z)
div_mono (pos a) (pos b) (pos c) h k = ground (arith, div-le-div (a * 1000) (b * 1000) c)
div_mono (negsuc a) (pos b) (pos c) h k = ground arith
div_mono (negsuc a) (negsuc b) (pos c) h k =
    ground (arith, div-le-div (suc b * 1000) (suc a * 1000) c)
div_mono (pos a) (negsuc b) (pos c) h k = ground arith
div_mono x y (negsuc c) h k = ground arith

div_anti :
    (x y z : ℤ)
    → Le fixed_ops (pos 0) x
    → Le fixed_ops (pos 1000) y
    → Le fixed_ops y z
    → Le fixed_ops (div_ℤ x z) (div_ℤ x y)
div_anti (pos a) (pos c) (pos d) h k l = ground (arith, div-anti (a * 1000) c d)
div_anti (pos a) (pos c) (negsuc d) h k l = ground arith
div_anti (pos a) (negsuc c) z h k l = ground arith
div_anti (negsuc a) y z h k l = ground arith

pub fixed-IsMonotone : IsMonotone fixed_ops
fixed-IsMonotone = record {
  of_u64_mono = λ m n h. ground arith;
  to_u64_mono = λ x y h. ground arith;
  div_mono = λ x y n h k. div_mono x y (pos (n * 1000)) h (ground arith);
  div_anti = λ n y z h k. div_anti (pos (n * 1000)) y z (ground arith) h k;
  of_u64_pos = λ n h. ground arith;
}
