-- ===== src/Tests/Model/Numbers.antt =====
-- Fixed-point numbers with a NaN, which meet the laws that the theorems ask of `f64`.
use thermostat.Prelude.{
  ℕ, zero, suc, ◌+◌, ◌-◌, ◌*◌, ◌/◌, ◌^◌, ◌≤◌, ◌<◌, ◌≡◌, refl, Bool, true, false, min, arith, ltb,
  leb, ◌==◌, if◌then◌else◌, ℤ, pos, negsuc, pos_part, neg_part, sub_ℕ,
}
use native.Mathlib.Nat.{le-div_iff_mul-le, pow-suc}
use thermostat.Platform.{Platform}
use thermostat.Platform.Laws.{IsLawful}

-- A number of thousandths, or NaN.
pub data Fixed : Type 0 where
  nan : Fixed
  num : ℤ → Fixed

abbrev leb_ℤ : ℤ → ℤ → Bool
leb_ℤ a b = leb (pos_part a + neg_part b) (pos_part b + neg_part a)

abbrev ltb_ℤ : ℤ → ℤ → Bool
ltb_ℤ a b = ltb (pos_part a + neg_part b) (pos_part b + neg_part a)

abbrev le_fixed : Fixed → Fixed → Bool
le_fixed (num a) (num b) = leb_ℤ a b
le_fixed _ _ = false

abbrev lt_fixed : Fixed → Fixed → Bool
lt_fixed (num a) (num b) = ltb_ℤ a b
lt_fixed _ _ = false

abbrev min_fixed : Fixed → Fixed → Fixed
min_fixed nan y = y
min_fixed x nan = x
min_fixed (num a) (num b) = if ltb_ℤ b a then num b else num a

abbrev max_fixed : Fixed → Fixed → Fixed
max_fixed nan y = y
max_fixed x nan = x
max_fixed (num a) (num b) = if ltb_ℤ a b then num b else num a

abbrev on_numbers : (ℤ → ℤ → Fixed) → Fixed → Fixed → Fixed
on_numbers f (num a) (num b) = f a b
on_numbers f _ _ = nan

abbrev neg_ℤ : ℤ → ℤ
neg_ℤ a = sub_ℕ (neg_part a) (pos_part a)

abbrev size : ℤ → ℕ
size a = pos_part a + neg_part a

abbrev is_neg : ℤ → Bool
is_neg a = ltb 0 (neg_part a)

abbrev with_sign : Bool → ℕ → ℤ
with_sign s n = if s then sub_ℕ 0 n else pos n

abbrev same : Bool → Bool → Bool
same true true = false
same false false = false
same _ _ = true

abbrev lit_fixed : ℕ → ℕ → Fixed
lit_fixed m k = num (pos (m * 1000 / 10 ^ k))

abbrev neg_fixed : Fixed → Fixed
neg_fixed nan = nan
neg_fixed (num a) = num (neg_ℤ a)

abbrev to_bound : ℕ → Fixed → ℕ
to_bound top nan = 0
to_bound top (num a) = min (pos_part a / 1000) top

abbrev abs_fixed : Fixed → Fixed
abs_fixed nan = nan
abs_fixed (num a) = num (pos (size a))

abbrev add_fixed : Fixed → Fixed → Fixed
add_fixed = on_numbers (λ a b. num (sub_ℕ (pos_part a + pos_part b) (neg_part a + neg_part b)))

abbrev mul_fixed : Fixed → Fixed → Fixed
mul_fixed =
    on_numbers (λ a b. num (with_sign (same (is_neg a) (is_neg b)) (size a * size b / 1000)))

abbrev div_fixed : Fixed → Fixed → Fixed
div_fixed = on_numbers (λ a b.
    if size b == 0
    then nan
    else num (with_sign (same (is_neg a) (is_neg b)) (size a * 1000 / size b)))

abbrev sub_fixed : Fixed → Fixed → Fixed
sub_fixed x y = add_fixed x (neg_fixed y)

abbrev scaled : ℤ → Fixed
scaled a = num (with_sign (is_neg a) (size a * 1000))

-- The logarithm by its tangent at 1; there is none of a number that is not positive.
abbrev ln_fixed : Fixed → Fixed
ln_fixed nan = nan
ln_fixed (num (pos zero)) = nan
ln_fixed (num (pos (suc n))) = num (sub_ℕ (suc n) 1000)
ln_fixed (num (negsuc n)) = nan

instance abbrev pub fixed : Platform
fixed = record {
  F64 = Fixed;
  F32 = Fixed;
  lit = lit_fixed;
  of_u32 = λ n. num (pos (n * 1000));
  of_i32 = scaled;
  add = add_fixed;
  sub = sub_fixed;
  mul = mul_fixed;
  div = div_fixed;
  neg = neg_fixed;
  abs = abs_fixed;
  ln = ln_fixed;
  minimum = min_fixed;
  maximum = max_fixed;
  lt = lt_fixed;
  le = le_fixed;
  to_u32 = to_bound (2 ^ 32 - 1);
  to_u16 = to_bound (2 ^ 16 - 1);
  narrow = λ x. x;
  widen = λ x. x;
  lit32 = lit_fixed;
  of_u32_32 = λ n. num (pos (n * 1000));
  add32 = add_fixed;
  sub32 = sub_fixed;
  mul32 = mul_fixed;
  div32 = div_fixed;
  neg32 = neg_fixed;
  abs32 = abs_fixed;
  round32 = λ x. x;
  lt32 = lt_fixed;
  to_u32_32 = to_bound (2 ^ 32 - 1);
  to_u16_32 = to_bound (2 ^ 16 - 1);
  of_millivolt = λ x. div_fixed x (lit_fixed 1000 0);
  of_celsius = λ x. add_fixed x (lit_fixed 27315 2);
  to_celsius = λ x. sub_fixed x (lit_fixed 27315 2);
  since = λ now past. now - past;
}

abbrev Le : Fixed → Fixed → Type 0
Le x y = le_fixed x y ≡ true

num_of_le : (x y : Fixed) → Le x y → Le x x × Le y y
num_of_le nan y h = ground arith
num_of_le (num a) nan h = ground arith
num_of_le (num a) (num b) h = ground arith

le_trans : (x y z : Fixed) → Le x y → Le y z → Le x z
le_trans nan y z h k = cc
le_trans (num a) nan z h k = cc
le_trans (num a) (num b) nan h k = cc
le_trans (num a) (num b) (num c) h k = ground arith

le_of_lt : (x y : Fixed) → lt_fixed x y ≡ true → Le x y
le_of_lt nan y h = ground arith
le_of_lt (num a) nan h = ground arith
le_of_lt (num a) (num b) h = ground arith

le_of_not_lt : (x y : Fixed) → Le x x → Le y y → lt_fixed x y ≡ false → Le y x
le_of_not_lt nan y h k l = ground arith
le_of_not_lt (num a) nan h k l = ground arith
le_of_not_lt (num a) (num b) h k l = ground arith

min_nan : (x y : Fixed) → le_fixed x x ≡ false → min_fixed x y ≡ y
min_nan nan y h = ground arith
min_nan (num a) nan h = ground arith
min_nan (num a) (num b) h = ground arith

max_nan : (x y : Fixed) → le_fixed x x ≡ false → max_fixed x y ≡ y
max_nan nan y h = ground arith
max_nan (num a) nan h = ground arith
max_nan (num a) (num b) h = ground arith

min-le_right : (x y : Fixed) → Le y y → Le (min_fixed x y) y
min-le_right nan y h = ground arith
min-le_right (num a) nan h = ground arith
min-le_right (num a) (num b) h = ground arith

le-max_right : (x y : Fixed) → Le y y → Le y (max_fixed x y)
le-max_right nan y h = ground arith
le-max_right (num a) nan h = ground arith
le-max_right (num a) (num b) h = ground arith

max-le : (x y z : Fixed) → Le x z → Le y z → Le (max_fixed x y) z
max-le nan y z h k = cc
max-le (num a) nan z h k = cc
max-le (num a) (num b) nan h k = cc
max-le (num a) (num b) (num c) h k = ground arith

min_of_lt : (x y : Fixed) → lt_fixed x y ≡ true → min_fixed x y ≡ x
min_of_lt nan y h = ground arith
min_of_lt (num a) nan h = ground arith
min_of_lt (num a) (num b) h = ground arith

max_of_lt : (x y : Fixed) → lt_fixed y x ≡ true → max_fixed x y ≡ x
max_of_lt nan y h = ground arith
max_of_lt (num a) nan h = ground arith
max_of_lt (num a) (num b) h = ground arith

lit_nonneg : (m k : ℕ) → Le (lit_fixed 0 0) (lit_fixed m k)
lit_nonneg m k = ground arith

neg-lit_le : (m k : ℕ) → Le (neg_fixed (lit_fixed m k)) (lit_fixed m k)
neg-lit_le m k = ground arith

pow_pos : (k : ℕ) → 0 < 10 ^ k
pow_pos zero = omega arith
pow_pos (suc k) = rw (pow-suc 10 k) (omega (arith, pow_pos k))

lit_pos : (m k : ℕ) → 10 ^ k ≤ m → 0 < m * 1000 / 10 ^ k
lit_pos m k h = (le-div_iff_mul-le (pow_pos k)).1 (omega arith)

neg-lit_lt : (m k : ℕ) → 10 ^ k ≤ m → lt_fixed (neg_fixed (lit_fixed m k)) (lit_fixed m k) ≡ true
neg-lit_lt m k h = ground (arith, lit_pos m k h)

nan-add_left :
    (x y : Fixed) → le_fixed x x ≡ false → le_fixed (add_fixed x y) (add_fixed x y) ≡ false
nan-add_left nan y h = ground arith
nan-add_left (num a) nan h = ground arith
nan-add_left (num a) (num b) h = ground arith

nan-add_right :
    (x y : Fixed) → le_fixed y y ≡ false → le_fixed (add_fixed x y) (add_fixed x y) ≡ false
nan-add_right nan y h = ground arith
nan-add_right (num a) nan h = ground arith
nan-add_right (num a) (num b) h = ground arith

nan-sub_left :
    (x y : Fixed) → le_fixed x x ≡ false → le_fixed (sub_fixed x y) (sub_fixed x y) ≡ false
nan-sub_left nan y h = ground arith
nan-sub_left (num a) nan h = ground arith
nan-sub_left (num a) (num b) h = ground arith

nan-mul_left :
    (x y : Fixed) → le_fixed x x ≡ false → le_fixed (mul_fixed x y) (mul_fixed x y) ≡ false
nan-mul_left nan y h = ground arith
nan-mul_left (num a) nan h = ground arith
nan-mul_left (num a) (num b) h = ground arith

nan-lt_left : (x y : Fixed) → le_fixed x x ≡ false → lt_fixed x y ≡ false
nan-lt_left nan y h = ground arith
nan-lt_left (num a) nan h = ground arith
nan-lt_left (num a) (num b) h = ground arith

nan-lt_right : (x y : Fixed) → le_fixed y y ≡ false → lt_fixed x y ≡ false
nan-lt_right nan y h = ground arith
nan-lt_right (num a) nan h = ground arith
nan-lt_right (num a) (num b) h = ground arith

to_bound-le : (top : ℕ) (x : Fixed) → to_bound top x ≤ top
to_bound-le top nan = omega arith
to_bound-le top (num a) = omega arith

pub fixed-IsLawful : IsLawful
fixed-IsLawful = record {
  num_of_le = num_of_le;
  le_trans = le_trans;
  le_of_lt = le_of_lt;
  le_of_not_lt = le_of_not_lt;
  min_nan = min_nan;
  max_nan = max_nan;
  min-le_right = min-le_right;
  le-max_right = le-max_right;
  max-le = max-le;
  min_of_lt = min_of_lt;
  max_of_lt = max_of_lt;
  lit_nonneg = lit_nonneg;
  neg-lit_le = neg-lit_le;
  neg-lit_lt = neg-lit_lt;
  nan-add_left = nan-add_left;
  nan-add_right = nan-add_right;
  nan-sub_left = nan-sub_left;
  nan-mul_left = nan-mul_left;
  nan-lt_left = nan-lt_left;
  nan-lt_right = nan-lt_right;
  to_u32-lt = λ x. omega (arith, to_bound-le (2 ^ 32 - 1) x);
  to_u16-lt = λ x. omega (arith, to_bound-le (2 ^ 16 - 1) x);
}

pub fixed-lt_irrefl : (x : Fixed) → lt_fixed x x ≡ false
fixed-lt_irrefl nan = refl
fixed-lt_irrefl (num a) = ground arith

pub fixed-lt_trans :
    (x y z : Fixed) → lt_fixed x y ≡ true → lt_fixed y z ≡ true → lt_fixed x z ≡ true
fixed-lt_trans nan y z h k = cc
fixed-lt_trans (num a) nan z h k = cc
fixed-lt_trans (num a) (num b) nan h k = cc
fixed-lt_trans (num a) (num b) (num c) h k = ground arith
