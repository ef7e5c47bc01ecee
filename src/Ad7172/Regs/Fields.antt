-- ===== src/Ad7172/Regs/Fields.antt =====
-- The getters and setters of `src/ad7172/regs.rs` that the driver does not use.
use thermostat.Prelude.{ℕ, ◌+◌, ◌*◌, ◌/◌, ◌%◌, ◌^◌, Bool, List, set}
use thermostat.Ad7172.Codes.{
  Mode, mode_of_u8, Input, input_of_u8, RefSource, source_of_u8, DigitalFilterOrder, order_of_u8,
}
use thermostat.Ad7172.Regs.{BitField, byte_at, put_bit, put_bits}

-- `Offset::set_offset` and `Gain::set_gain`
abbrev pub set_data24 : ℕ → List ℕ → List ℕ
set_data24 value r =
    set (set (set r 0 (value / 2 ^ 16 % 2 ^ 8)) 1 (value / 2 ^ 8 % 2 ^ 8)) 2 (value % 2 ^ 8)

module _ ⦃f : BitField⦄ where
  -- The getter of one bit, and of a range, in byte `i`.
  abbrev bit_at : ℕ → ℕ → List ℕ → Bool
  bit_at i bit r = f.get_bit (byte_at r i) bit

  abbrev bits_at : ℕ → ℕ → ℕ → List ℕ → ℕ
  bits_at i first last r = f.get_bits (byte_at r i) first last

  -- `status::Data`
  abbrev not_ready : List ℕ → Bool
  not_ready = bit_at 0 7

  abbrev adc_error : List ℕ → Bool
  adc_error = bit_at 0 6

  abbrev crc_error : List ℕ → Bool
  crc_error = bit_at 0 5

  abbrev reg_error : List ℕ → Bool
  reg_error = bit_at 0 4

  -- `adc_mode::Data`
  abbrev delay : List ℕ → ℕ
  delay = bits_at 0 0 2

  abbrev set_delay : ℕ → List ℕ → List ℕ
  set_delay = put_bits 0 0 2

  abbrev sing_cyc : List ℕ → Bool
  sing_cyc = bit_at 0 5

  abbrev set_sing_cyc : Bool → List ℕ → List ℕ
  set_sing_cyc = put_bit 0 5

  abbrev hide_delay : List ℕ → Bool
  hide_delay = bit_at 0 6

  abbrev set_hide_delay : Bool → List ℕ → List ℕ
  set_hide_delay = put_bit 0 6

  abbrev ref_en : List ℕ → Bool
  ref_en = bit_at 0 7

  abbrev clockset : List ℕ → ℕ
  clockset = bits_at 1 2 3

  abbrev set_clocksel : ℕ → List ℕ → List ℕ
  set_clocksel = put_bits 1 2 3

  abbrev mode_of : List ℕ → Mode
  mode_of r = mode_of_u8 (bits_at 1 4 6 r)

  -- `gpio_con::Data`
  abbrev sync_en : List ℕ → Bool
  sync_en = bit_at 0 3

  -- `channel::Data`; the sum is the `|` of a number below 4 shifted by three bits and one below 8.
  abbrev pub enabled_of : List ℕ → Bool
  enabled_of = bit_at 0 7

  abbrev pub setup_of : List ℕ → ℕ
  setup_of = bits_at 0 4 5

  abbrev pub a_in_pos : List ℕ → Input
  a_in_pos r = input_of_u8 (bits_at 0 0 1 r * 2 ^ 3 + bits_at 1 5 7 r)

  abbrev pub a_in_neg : List ℕ → Input
  a_in_neg r = input_of_u8 (bits_at 1 0 4 r)

  -- `setup_con::Data`
  abbrev refbuf_pos : List ℕ → Bool
  refbuf_pos = bit_at 0 3

  abbrev refbuf_neg : List ℕ → Bool
  refbuf_neg = bit_at 0 2

  abbrev ainbuf_pos : List ℕ → Bool
  ainbuf_pos = bit_at 0 1

  abbrev ainbuf_neg : List ℕ → Bool
  ainbuf_neg = bit_at 0 0

  abbrev burnout_en : List ℕ → Bool
  burnout_en = bit_at 1 7

  abbrev ref_sel : List ℕ → RefSource
  ref_sel r = source_of_u8 (bits_at 1 4 5 r)

  -- `filt_con::Data`
  abbrev sinc3_map : List ℕ → Bool
  sinc3_map = bit_at 0 7

  abbrev order_of : List ℕ → DigitalFilterOrder
  order_of r = order_of_u8 (bits_at 1 5 6 r)

  abbrev odr : List ℕ → ℕ
  odr = bits_at 1 0 4
