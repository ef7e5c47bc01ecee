-- ===== src/Platform/Laws.antt =====
-- The behaviour of `f64` that the theorems rely on, as the documentation of Rust and IEEE 754 give it.
use thermostat.Prelude.{ℕ, ◌^◌, ◌≤◌, ◌<◌, ◌≡◌, true, false}
use thermostat.Platform.{Platform, IsNum, IsNan, ◌≼◌}

pub record IsLawful ⦃p : Platform⦄ : Type 0 where
  -- The order of numbers; a comparison with NaN is false.
  pub num_of_le : (x y : p.F64) → x ≼ y → IsNum x × IsNum y
  pub le_trans : (x y z : p.F64) → x ≼ y → y ≼ z → x ≼ z
  pub le_of_lt : (x y : p.F64) → p.lt x y ≡ true → x ≼ y
  pub le_of_not_lt : (x y : p.F64) → IsNum x → IsNum y → p.lt x y ≡ false → y ≼ x
  -- `min` and `max` ignore a NaN.
  pub min_nan : (x y : p.F64) → IsNan x → p.minimum x y ≡ y
  pub max_nan : (x y : p.F64) → IsNan x → p.maximum x y ≡ y
  pub min-le_right : (x y : p.F64) → IsNum y → p.minimum x y ≼ y
  pub le-max_right : (x y : p.F64) → IsNum y → y ≼ p.maximum x y
  pub max-le : (x y z : p.F64) → x ≼ z → y ≼ z → p.maximum x y ≼ z
  pub min_of_lt : (x y : p.F64) → p.lt x y ≡ true → p.minimum x y ≡ x
  pub max_of_lt : (x y : p.F64) → p.lt y x ≡ true → p.maximum x y ≡ x
  -- Literals are numbers that are not negative, and of either sign from 1 on.
  pub lit_nonneg : (m k : ℕ) → p.lit 0 0 ≼ p.lit m k
  pub neg-lit_le : (m k : ℕ) → p.neg (p.lit m k) ≼ p.lit m k
  pub neg-lit_lt : (m k : ℕ) → 10 ^ k ≤ m → p.lt (p.neg (p.lit m k)) (p.lit m k) ≡ true
  -- A NaN comes through arithmetic.
  pub nan-add_left : (x y : p.F64) → IsNan x → IsNan (p.add x y)
  pub nan-add_right : (x y : p.F64) → IsNan y → IsNan (p.add x y)
  pub nan-sub_left : (x y : p.F64) → IsNan x → IsNan (p.sub x y)
  pub nan-mul_left : (x y : p.F64) → IsNan x → IsNan (p.mul x y)
  pub nan-lt_left : (x y : p.F64) → IsNan x → p.lt x y ≡ false
  pub nan-lt_right : (x y : p.F64) → IsNan y → p.lt x y ≡ false
  -- A conversion saturates.
  pub to_u32-lt : (x : p.F64) → p.to_u32 x < 2 ^ 32
  pub to_u16-lt : (x : p.F64) → p.to_u16 x < 2 ^ 16
