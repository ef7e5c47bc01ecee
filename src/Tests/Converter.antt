-- ===== src/Tests/Converter.antt =====
-- The driver of the converter at concrete inputs.
use thermostat.Prelude.{ℕ, ◌≡◌, ◌↔◌, refl, true, false, some, List, [], ◌∷◌, arith}
use thermostat.Tests.Model.Numbers.{fixed}
use thermostat.Tests.Model.Devices.{calibration}
use thermostat.Tests.Model.Chip.{
  arithmetic, arithmetic-FieldLaws, arithmetic-ChannelFields, chip, new_chip, chip-Keeps, script,
  quiet,
}
use thermostat.Ad7172.Checksum.Laws.{crc_over}
use thermostat.Ad7172.Filter.{f20sps, f25sps}
use thermostat.Ad7172.Codes.{
  ain2, ref_neg, internal, external, source_code, source_of_u8, source_read_back_iff,
}
use thermostat.Ad7172.Bus.{Adc, got, read_reg, transfer}
use thermostat.Ad7172.Bus.Retry.{checked, read_retry_iff}
use thermostat.Ad7172.Bus.Device.{write_kept, write_reg_verified}
use thermostat.Ad7172.Adc
use thermostat.Ad7172.Adc.Inputs.{channel_settings, channel_settings-with_inputs}
use thermostat.Ad7172.Adc.Filters.{get_postfilter-set_postfilter}
use thermostat.Channels.{Board, Channel, Channels, new_channel}
use thermostat.Channels.Control.{get_postfilter, set_postfilter}
use thermostat.Channels.Converter.{board_of, filter_round}

source_read_back_iff_example :
    (source_of_u8 (source_code internal) ≡ internal) ↔ (internal ≡ external)
source_read_back_iff_example = source_read_back_iff internal

-- The second reading, of a status register, is right, the first one is not.
abbrev second_answers : List (List ℕ)
second_answers = (0 ∷ []) ∷ (0x80 ∷ []) ∷ (crc_over 0 (0x40 ∷ 0x80 ∷ []) ∷ []) ∷ []

abbrev answers : List (List ℕ)
answers = (0 ∷ []) ∷ (0x01 ∷ []) ∷ (0 ∷ []) ∷ second_answers

read_retry_iff_example :
    (read_reg ⦃spi = script⦄ 2 1 0 (checked ⦃spi = script⦄ answers)
      ≡ (got (0x80 ∷ []), checked ⦃spi = script⦄ []))
    ↔ (crc_over 0 (0x40 ∷ 0x01 ∷ []) ≡ crc_over 0 (0x40 ∷ []))
unfolding transfer crc_over
read_retry_iff_example =
    read_retry_iff ⦃spi = script⦄ 1 0 0 answers (0x01 ∷ []) (0x80 ∷ [])
      (checked ⦃spi = script⦄ second_answers) (checked ⦃spi = script⦄ []) refl
      (λ e. omega (arith, e)) refl

write_reg_verified_example :
    (s₁ : Adc ⦃spi = chip⦄) × (read_reg ⦃spi = chip⦄ 1 2 0x28 s₁ ≡ (
      got (0x0d ∷ 0x13 ∷ []),
      checked ⦃spi = chip⦄
          (write_kept ⦃spi = chip⦄ chip-Keeps 0 0 (0x0d ∷ 0x13 ∷ []) new_chip refl).0,
    ))
write_reg_verified_example =
    write_reg_verified ⦃spi = chip⦄ 1 1 0x28 (0x0d ∷ 0x13 ∷ []) (checked ⦃spi = chip⦄ new_chip)
      (checked ⦃spi = chip⦄
        (write_kept ⦃spi = chip⦄ chip-Keeps 0 0 (0x0d ∷ 0x13 ∷ []) new_chip refl).0)
      (write_kept ⦃spi = chip⦄ chip-Keeps 0 0 (0x0d ∷ 0x13 ∷ []) new_chip refl).1

get_postfilter-set_postfilter_example :
    (d₁ : chip.Dev) × (d₂ : chip.Dev) × (Adc.set_postfilter ⦃spi = chip⦄ 3 0
        (some f20sps)
        (checked ⦃spi = chip⦄ new_chip)
      ≡ (got tt, checked ⦃spi = chip⦄ d₁))
    × (Adc.get_postfilter ⦃spi = chip⦄ 3 0 (checked ⦃spi = chip⦄ d₁)
        ≡ (got (some f20sps), checked ⦃spi = chip⦄ d₂))
get_postfilter-set_postfilter_example =
    get_postfilter-set_postfilter arithmetic-FieldLaws ⦃spi = chip⦄ 0 2 chip-Keeps (some f20sps)
      new_chip

abbrev wired : Board
wired = board_of ⦃spi = chip⦄ 3 quiet

abbrev wired_channel : Channel ⦃b = wired⦄
wired_channel = new_channel ⦃b = wired⦄ calibration false true

abbrev wired_channels : Channels ⦃b = wired⦄
wired_channels = record {
  channel0 = wired_channel;
  channel1 = wired_channel;
  pwm0 = record { max_i_pos = 0; max_i_neg = 0; max_v = 0 };
  pwm1 = record { max_i_pos = 0; max_i_neg = 0; max_v = 0 };
  env = (checked ⦃spi = chip⦄ new_chip, tt);
}

filter_round_example :
    (s₁ : Channels ⦃b = wired⦄) × (s₂ : Channels ⦃b = wired⦄) × (set_postfilter ⦃b = wired⦄ 0
        (some f25sps)
        wired_channels
      ≡ some (tt, s₁))
    × (get_postfilter ⦃b = wired⦄ 0 s₁ ≡ some (some f25sps, s₂))
filter_round_example =
    filter_round ⦃spi = chip⦄ 2 quiet arithmetic-FieldLaws 0 chip-Keeps (some f25sps) wired_channels
      new_chip tt refl

channel_settings-with_inputs_example :
    channel_settings (Adc.with_inputs 1 ain2 ref_neg (0x80 ∷ 0x01 ∷ [])) ≡ (true, 1, ain2, ref_neg)
channel_settings-with_inputs_example =
    channel_settings-with_inputs arithmetic-ChannelFields 1 ain2 ref_neg (0x80 ∷ 0x01 ∷ [])
      (omega arith) refl
