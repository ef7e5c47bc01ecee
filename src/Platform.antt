-- ===== src/Platform.antt =====
-- What the firmware takes from outside its own sources to compute with quantities: Rust's `f64` and
-- `f32`, the unit conversions of `uom` (a quantity is the `f64` in its base unit: volt, ampere, ohm,
-- kelvin), and the difference of two instants of `smoltcp::time`.
pub mod Laws
use thermostat.Prelude.{ℕ, ◌≡◌, Bool, true, false, ℤ, Option, none, some, if◌then◌else◌}

pub record Platform : Type 1 where
  pub F64 : Type 0
  pub F32 : Type 0
  -- `lit m k` is the literal of value m / 10^k.
  pub lit : ℕ → ℕ → F64
  pub of_u32 : ℕ → F64
  pub of_i32 : ℤ → F64
  pub add : F64 → F64 → F64
  pub sub : F64 → F64 → F64
  pub mul : F64 → F64 → F64
  pub div : F64 → F64 → F64
  pub neg : F64 → F64
  pub abs : F64 → F64
  pub ln : F64 → F64
  pub minimum : F64 → F64 → F64
  pub maximum : F64 → F64 → F64
  pub lt : F64 → F64 → Bool
  pub le : F64 → F64 → Bool
  -- `as u32`, `as u16`
  pub to_u32 : F64 → ℕ
  pub to_u16 : F64 → ℕ
  -- `as f32`, and `f64::from`
  pub narrow : F64 → F32
  pub widen : F32 → F64
  pub lit32 : ℕ → ℕ → F32
  pub of_u32_32 : ℕ → F32
  pub add32 : F32 → F32 → F32
  pub sub32 : F32 → F32 → F32
  pub mul32 : F32 → F32 → F32
  pub div32 : F32 → F32 → F32
  pub neg32 : F32 → F32
  pub abs32 : F32 → F32
  pub round32 : F32 → F32
  pub lt32 : F32 → F32 → Bool
  pub to_u32_32 : F32 → ℕ
  pub to_u16_32 : F32 → ℕ
  -- `new::<millivolt>`, `new::<degree_celsius>` and `get::<degree_celsius>`
  pub of_millivolt : F64 → F64
  pub of_celsius : F64 → F64
  pub to_celsius : F64 → F64
  -- `Instant - Instant`, in milliseconds
  pub since : ℕ → ℕ → ℕ

module _ ⦃p : Platform⦄ where
  open p use {F64, lit, neg, lt, le}

  -- A value that is not NaN is at most itself.
  abbrev pub IsNum : F64 → Type 0
  IsNum x = le x x ≡ true

  abbrev pub IsNan : F64 → Type 0
  IsNan x = le x x ≡ false

  infix 4 ◌≼◌
  abbrev pub ◌≼◌ : F64 → F64 → Type 0
  x ≼ y = le x y ≡ true

  -- `0.0`
  abbrev pub nought : F64
  nought = lit 0 0

  -- The body of `f64::clamp` after its assertion.
  unfoldable pub clip : F64 → F64 → F64 → F64
  clip x lo hi = let y = if lt x lo then lo else x in if lt hi y then hi else y

  -- `f64::clamp`, which panics unless its bounds are ordered numbers: `none` is the panic.
  unfoldable pub clamp : F64 → F64 → F64 → Option F64
  clamp x lo hi = if le lo hi then some (clip x lo hi) else none
