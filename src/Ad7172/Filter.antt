-- ===== src/Ad7172/Filter.antt =====
-- `src/ad7172/mod.rs`: the post filters of the converter and the choice of one for a rate, and
-- `ChannelCalibration` of `src/ad7172/adc.rs`.
pub mod Closest
use thermostat.Prelude.{
  ℕ, ◌-◌, ◌%◌, ◌^◌, Bool, true, false, Option, none, some, List, [], ◌∷◌, ◌==◌, if◌then◌else◌, ℤ,
  sub_ℕ,
}
use thermostat.Platform.{Platform}

pub data PostFilter : Type 0 where
  f27sps f25sps f20sps f16sps invalid : PostFilter

-- `From<u8> for PostFilter`
unfoldable pub of_u8 : ℕ → PostFilter
of_u8 x =
    if x == 0b010
    then f27sps
    else if x == 0b011
    then f25sps
    else if x == 0b101
    then f20sps
    else if x == 0b110
    then f16sps
    else invalid

-- The discriminants of `#[repr(u8)]`.
unfoldable pub to_u8 : PostFilter → ℕ
to_u8 f27sps = 0b010
to_u8 f25sps = 0b011
to_u8 f20sps = 0b101
to_u8 f16sps = 0b110
to_u8 invalid = 0b111

-- `PostFilter::VALID_VALUES`
abbrev pub valid_values : List PostFilter
valid_values = f27sps ∷ f25sps ∷ f20sps ∷ f16sps ∷ []

-- `ChannelCalibration`, its registers below 2 ^ 24.
pub record ChannelCalibration : Type 0 where
  pub offset : ℕ
  pub gain : ℕ
  pub bipolar : Bool

module _ ⦃p : Platform⦄ where
  open p use {F64, F32, lit, of_u32, of_i32, add, mul, div, lit32, sub32, abs32, lt32}

  -- `PostFilter::output_rate`
  unfoldable pub output_rate : PostFilter → Option F32
  output_rate f27sps = some (lit32 2727 2)
  output_rate f25sps = some (lit32 250 1)
  output_rate f20sps = some (lit32 200 1)
  output_rate f16sps = some (lit32 16667 3)
  output_rate invalid = none

  -- One turn of the loop of `closest`: the best error and filter so far, against the next filter.
  unfoldable pub better : Option (F32 × PostFilter) → F32 → PostFilter → Option (F32 × PostFilter)
  better none error value = some (error, value)
  better (some (best_error, best)) error value =
      some (if lt32 error best_error then (error, value) else (best_error, best))

  -- The loop of `closest`; `none` outside is the panic of `unwrap` at a filter with no rate.
  unfoldable pub closest_from :
      F32 → Option (F32 × PostFilter) → List PostFilter → Option (Option (F32 × PostFilter))
  closest_from rate best [] = some best
  closest_from rate best (v ∷ vs) = elim (output_rate v) [
    | none ↦ none
    | some r ↦ closest_from rate (better best (abs32 (sub32 rate r)) v) vs
  ]

  -- `best.map(|(_, best)| best)`
  abbrev pub best_of : Option (Option (F32 × PostFilter)) → Option (Option PostFilter)
  best_of none = none
  best_of (some none) = some none
  best_of (some (some (e, best))) = some (some best)

  -- `PostFilter::closest`
  unfoldable pub closest : F32 → Option (Option PostFilter)
  closest rate = best_of (closest_from rate none valid_values)

  -- `x as i32 - 0x80_0000` of a register below 2 ^ 24.
  abbrev pub centred : ℕ → ℤ
  centred x = sub_ℕ x 0x800000

  -- `ChannelCalibration::convert_data`
  unfoldable pub convert_data : ChannelCalibration → ℕ → F64
  convert_data c data_in =
      let raw = if c.bipolar then of_i32 (centred data_in) else div (of_u32 data_in) (lit 20 1) in
      let scaled = div raw (div (of_u32 c.gain) (of_u32 0x400000)) in
      let shifted = add scaled (of_i32 (centred c.offset)) in
      let ratio = div shifted (of_u32 0x1000000) in div (mul ratio (lit 33 1)) (lit 75 2)
