-- ===== src/Ad7172/Regs.antt =====
-- The registers of `src/ad7172/regs.rs` that the driver uses. The contents of a register are its
-- bytes; the crate `bit_field`, which reads and writes bits of a byte, is a parameter.
pub mod Fields
use thermostat.Prelude.{ℕ, zero, suc, ◌+◌, ◌*◌, ◌/◌, ◌%◌, Bool, not, List, [], ◌∷◌, set}
use thermostat.Ad7172.Checksum.{ChecksumMode}
use thermostat.Ad7172.Filter.{PostFilter, of_u8, to_u8}
use thermostat.Ad7172.Codes.{
  Mode, mode_code, Input, input_code, RefSource, source_code, DigitalFilterOrder, order_code,
  checksum_code,
}

-- `get_bit`, `set_bit`, and `get_bits` and `set_bits` of a range from its first to its last bit.
pub record BitField : Type 0 where
  pub get_bit : ℕ → ℕ → Bool
  pub set_bit : ℕ → ℕ → Bool → ℕ
  pub get_bits : ℕ → ℕ → ℕ → ℕ
  pub set_bits : ℕ → ℕ → ℕ → ℕ → ℕ

-- `self.0[i]`; the contents of a register have the length that its index asks for.
abbrev pub byte_at : List ℕ → ℕ → ℕ
byte_at [] i = 0
byte_at (b ∷ bs) zero = b
byte_at (b ∷ bs) (suc i) = byte_at bs i

-- Addresses: `Status`, `AdcMode`, `IfMode`, `Data`, `GpioCon`, `Id`, and of the indexed registers the
-- first ones.
abbrev pub status_reg : ℕ
status_reg = 0x00

abbrev pub adc_mode_reg : ℕ
adc_mode_reg = 0x01

abbrev pub if_mode_reg : ℕ
if_mode_reg = 0x02

abbrev pub data_reg : ℕ
data_reg = 0x04

abbrev pub gpio_con_reg : ℕ
gpio_con_reg = 0x06

abbrev pub id_reg : ℕ
id_reg = 0x07

abbrev pub channel_reg : ℕ → ℕ
channel_reg index = 0x10 + index

abbrev pub setup_con_reg : ℕ → ℕ
setup_con_reg index = 0x20 + index

abbrev pub filt_con_reg : ℕ → ℕ
filt_con_reg index = 0x28 + index

abbrev pub offset_reg : ℕ → ℕ
offset_reg index = 0x30 + index

abbrev pub gain_reg : ℕ → ℕ
gain_reg index = 0x38 + index

-- The bytes of `Data`, `Offset` and `Gain` as a number.
abbrev pub data24 : List ℕ → ℕ
data24 r = byte_at r 0 * 0x10000 + byte_at r 1 * 0x100 + byte_at r 2

-- `id::Data::id`
abbrev pub id_of : List ℕ → ℕ
id_of r = byte_at r 0 * 0x100 + byte_at r 1

module _ ⦃f : BitField⦄ where
  -- The setter of one bit, and of a range, in byte `i`.
  abbrev pub put_bit : ℕ → ℕ → Bool → List ℕ → List ℕ
  put_bit i bit value r = set r i (f.set_bit (byte_at r i) bit value)

  abbrev pub put_bits : ℕ → ℕ → ℕ → ℕ → List ℕ → List ℕ
  put_bits i first last value r = set r i (f.set_bits (byte_at r i) first last value)

  -- `status::Data`
  abbrev pub ready : List ℕ → Bool
  ready r = not (f.get_bit (byte_at r 0) 7)

  abbrev pub status_channel : List ℕ → ℕ
  status_channel r = f.get_bits (byte_at r 0) 0 1

  -- `adc_mode::Data`
  abbrev pub set_ref_en : Bool → List ℕ → List ℕ
  set_ref_en = put_bit 0 7

  abbrev pub set_mode : Mode → List ℕ → List ℕ
  set_mode m = put_bits 1 4 6 (mode_code m)

  -- `if_mode::Data`
  abbrev pub set_crc : ChecksumMode → List ℕ → List ℕ
  set_crc m = put_bits 1 2 3 (checksum_code m)

  -- `gpio_con::Data`
  abbrev pub set_sync_en : Bool → List ℕ → List ℕ
  set_sync_en = put_bit 0 3

  -- `channel::Data`
  abbrev pub set_enabled : Bool → List ℕ → List ℕ
  set_enabled = put_bit 0 7

  abbrev pub set_setup : ℕ → List ℕ → List ℕ
  set_setup = put_bits 0 4 5

  abbrev pub set_a_in_pos : Input → List ℕ → List ℕ
  set_a_in_pos input r =
      put_bits 1 5 7 (input_code input % 8) (put_bits 0 0 1 (input_code input / 8) r)

  abbrev pub set_a_in_neg : Input → List ℕ → List ℕ
  set_a_in_neg input = put_bits 1 0 4 (input_code input)

  -- `setup_con::Data`
  abbrev pub bipolar : List ℕ → Bool
  bipolar r = f.get_bit (byte_at r 0) 4

  abbrev pub set_bipolar : Bool → List ℕ → List ℕ
  set_bipolar = put_bit 0 4

  abbrev pub set_refbuf_pos : Bool → List ℕ → List ℕ
  set_refbuf_pos = put_bit 0 3

  abbrev pub set_refbuf_neg : Bool → List ℕ → List ℕ
  set_refbuf_neg = put_bit 0 2

  abbrev pub set_ainbuf_pos : Bool → List ℕ → List ℕ
  set_ainbuf_pos = put_bit 0 1

  abbrev pub set_ainbuf_neg : Bool → List ℕ → List ℕ
  set_ainbuf_neg = put_bit 0 0

  abbrev pub set_ref_sel : RefSource → List ℕ → List ℕ
  set_ref_sel s = put_bits 1 4 5 (source_code s)

  -- `filt_con::Data`
  abbrev pub enh_filt_en : List ℕ → Bool
  enh_filt_en r = f.get_bit (byte_at r 0) 3

  abbrev pub set_enh_filt_en : Bool → List ℕ → List ℕ
  set_enh_filt_en = put_bit 0 3

  abbrev pub enh_filt : List ℕ → PostFilter
  enh_filt r = of_u8 (f.get_bits (byte_at r 0) 0 2)

  abbrev pub set_enh_filt : PostFilter → List ℕ → List ℕ
  set_enh_filt p = put_bits 0 0 2 (to_u8 p)

  abbrev pub set_order : DigitalFilterOrder → List ℕ → List ℕ
  set_order o = put_bits 1 5 6 (order_code o)

  abbrev pub set_odr : ℕ → List ℕ → List ℕ
  set_odr = put_bits 1 0 4
