-- ===== src/Ad7172/Codes.antt =====
-- The settings of `src/ad7172/mod.rs` that stand in registers by their codes: modes, inputs and
-- reference sources.
use thermostat.Prelude.{List, bytes, ℕ, ◌≡◌, ◌↔◌, refl, ◌==◌, if◌then◌else◌}
use thermostat.Ad7172.Checksum.{ChecksumMode, off, by_xor, crc}

pub data Mode : Type 0 where
  continuous_conversion single_conversion standby power_down : Mode
  internal_offset_calibration invalid_mode system_offset_calibration system_gain_calibration : Mode

-- The discriminants of `Mode`; that of `Invalid` follows the one before it.
unfoldable pub mode_code : Mode → ℕ
mode_code continuous_conversion = 0b000
mode_code single_conversion = 0b001
mode_code standby = 0b010
mode_code power_down = 0b011
mode_code internal_offset_calibration = 0b100
mode_code invalid_mode = 0b101
mode_code system_offset_calibration = 0b110
mode_code system_gain_calibration = 0b111

-- `From<u8> for Mode`
unfoldable pub mode_of_u8 : ℕ → Mode
mode_of_u8 x =
    if x == 0b000
    then continuous_conversion
    else if x == 0b001
    then single_conversion
    else if x == 0b010
    then standby
    else if x == 0b011
    then power_down
    else if x == 0b100
    then internal_offset_calibration
    else if x == 0b110
    then system_offset_calibration
    else if x == 0b111
    then system_gain_calibration
    else invalid_mode

pub data Input : Type 0 where
  ain0 ain1 ain2 ain3 ain4 temperature_pos temperature_neg analog_supply_pos : Input
  analog_supply_neg ref_pos ref_neg invalid_input : Input

-- The discriminants of `Input`.
unfoldable pub input_code : Input → ℕ
input_code ain0 = 0
input_code ain1 = 1
input_code ain2 = 2
input_code ain3 = 3
input_code ain4 = 4
input_code temperature_pos = 17
input_code temperature_neg = 18
input_code analog_supply_pos = 19
input_code analog_supply_neg = 20
input_code ref_pos = 21
input_code ref_neg = 22
input_code invalid_input = 0b11111

-- `From<u8> for Input`
unfoldable pub input_of_u8 : ℕ → Input
input_of_u8 x =
    if x == 0
    then ain0
    else if x == 1
    then ain1
    else if x == 2
    then ain2
    else if x == 3
    then ain3
    else if x == 4
    then ain4
    else if x == 17
    then temperature_pos
    else if x == 18
    then temperature_neg
    else if x == 19
    then analog_supply_pos
    else if x == 20
    then analog_supply_neg
    else if x == 21
    then ref_pos
    else if x == 22
    then ref_neg
    else invalid_input

pub data RefSource : Type 0 where
  external internal avdd1_minus_avss invalid_source : RefSource

-- The discriminants of `RefSource`.
unfoldable pub source_code : RefSource → ℕ
source_code external = 0b00
source_code internal = 0b10
source_code avdd1_minus_avss = 0b11
source_code invalid_source = 0b01

-- `From<u8> for RefSource`
unfoldable pub source_of_u8 : ℕ → RefSource
source_of_u8 x =
    if x == 0
    then external
    else if x == 1
    then internal
    else if x == 2
    then avdd1_minus_avss
    else invalid_source

pub data DigitalFilterOrder : Type 0 where
  sinc5_sinc1 sinc3 invalid_order : DigitalFilterOrder

-- The discriminants of `DigitalFilterOrder`.
unfoldable pub order_code : DigitalFilterOrder → ℕ
order_code sinc5_sinc1 = 0b00
order_code sinc3 = 0b11
order_code invalid_order = 0b10

-- `From<u8> for DigitalFilterOrder`
unfoldable pub order_of_u8 : ℕ → DigitalFilterOrder
order_of_u8 x = if x == 0b00 then sinc5_sinc1 else if x == 0b11 then sinc3 else invalid_order

-- `Display for Input` and `Display for RefSource`
unfoldable pub input_text : Input → List ℕ
input_text ain0 = bytes "ain0"
input_text ain1 = bytes "ain1"
input_text ain2 = bytes "ain2"
input_text ain3 = bytes "ain3"
input_text ain4 = bytes "ain4"
input_text temperature_pos = bytes "temperature+"
input_text temperature_neg = bytes "temperature-"
input_text analog_supply_pos = bytes "analogsupply+"
input_text analog_supply_neg = bytes "analogsupply-"
input_text ref_pos = bytes "ref+"
input_text ref_neg = bytes "ref-"
input_text invalid_input = bytes "<INVALID>"

unfoldable pub source_text : RefSource → List ℕ
source_text external = bytes "external"
source_text internal = bytes "internal"
source_text avdd1_minus_avss = bytes "avdd1-avss"
source_text invalid_source = bytes "<INVALID>"

-- The discriminants of `ChecksumMode`.
unfoldable pub checksum_code : ChecksumMode → ℕ
checksum_code off = 0b00
checksum_code by_xor = 0b01
checksum_code crc = 0b10

-- The code of a mode is read back as the mode.
mode_of_u8-mode_code : (m : Mode) → mode_of_u8 (mode_code m) ≡ m
unfolding mode_of_u8 mode_code
mode_of_u8-mode_code continuous_conversion = refl
mode_of_u8-mode_code single_conversion = refl
mode_of_u8-mode_code standby = refl
mode_of_u8-mode_code power_down = refl
mode_of_u8-mode_code internal_offset_calibration = refl
mode_of_u8-mode_code invalid_mode = refl
mode_of_u8-mode_code system_offset_calibration = refl
mode_of_u8-mode_code system_gain_calibration = refl

-- The code of an input is read back as the input.
pub input_of_u8-input_code : (i : Input) → input_of_u8 (input_code i) ≡ i
unfolding input_of_u8 input_code
input_of_u8-input_code ain0 = refl
input_of_u8-input_code ain1 = refl
input_of_u8-input_code ain2 = refl
input_of_u8-input_code ain3 = refl
input_of_u8-input_code ain4 = refl
input_of_u8-input_code temperature_pos = refl
input_of_u8-input_code temperature_neg = refl
input_of_u8-input_code analog_supply_pos = refl
input_of_u8-input_code analog_supply_neg = refl
input_of_u8-input_code ref_pos = refl
input_of_u8-input_code ref_neg = refl
input_of_u8-input_code invalid_input = refl

-- The code of a filter order is read back as the order.
order_of_u8-order_code : (o : DigitalFilterOrder) → order_of_u8 (order_code o) ≡ o
unfolding order_of_u8 order_code
order_of_u8-order_code sinc5_sinc1 = refl
order_of_u8-order_code sinc3 = refl
order_of_u8-order_code invalid_order = refl

-- The code of a reference source is read back as the source only if that is the external one.
pub source_read_back_iff : (r : RefSource) → (source_of_u8 (source_code r) ≡ r) ↔ (r ≡ external)
unfolding source_of_u8 source_code
source_read_back_iff external = (λ e. refl, λ e. refl)
source_read_back_iff internal = (λ e. absurd (cc), λ e. absurd (cc))
source_read_back_iff avdd1_minus_avss = (λ e. absurd (cc), λ e. absurd (cc))
source_read_back_iff invalid_source = (λ e. absurd (cc), λ e. absurd (cc))
