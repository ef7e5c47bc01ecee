-- ===== src/Channels/Start.antt =====
-- `Channels::new` of `src/channels.rs`: the converter is set up, both channels are made with their
-- DAC at zero, and each is calibrated and set to no current.
pub mod Conversion
pub mod Ready
use thermostat.Prelude.{ℕ, Bool, true, false, Option, none, some}
use thermostat.Platform.{Platform, nought}
use thermostat.Dac.{frame}
use thermostat.Ad7172.Filter.{ChannelCalibration}
use thermostat.Ad7172.Regs.{BitField}
use thermostat.Ad7172.Checksum.{off}
use thermostat.Ad7172.Bus.{Spi, Adc, Access}
use thermostat.Channels.Start.Conversion.{start_conversion}
use thermostat.Pins.Gpio.{
  PinMode, floating, analog_input, alternate, alternate_open_drain, push_pull,
}
use thermostat.Pins.{Pins, PwmPins, ChannelPinSet, VrefPin, analog, disabled}
use thermostat.Channels.{Board, Channel, Channels, Duties, M, ◌>>=◌, ◌>>◌, pure, new_channel}
use thermostat.Channels.Output.{set_i}
use thermostat.Channels.Calibrate.{calibrate_dac_value}
use thermostat.Channels.Converter.{Periphery, board_of, value_of}

-- Whether a reference pin is analog.
abbrev pub is_analog : VrefPin → Bool
is_analog (analog p) = true
is_analog (disabled p) = false

module _ ⦃p : Platform⦄ ⦃b : Board⦄ where
  -- The duty cycles of a channel's limit pins.
  abbrev pub duties0 : PwmPins → Duties
  duties0 pwm = record {
    max_i_pos = pwm.max_i_pos0.duty;
    max_i_neg = pwm.max_i_neg0.duty;
    max_v = pwm.max_v0.duty;
  }

  abbrev pub duties1 : PwmPins → Duties
  duties1 pwm = record {
    max_i_pos = pwm.max_i_pos1.duty;
    max_i_neg = pwm.max_i_neg1.duty;
    max_v = pwm.max_v1.duty;
  }

  -- The level of an output; no other pin has one.
  abbrev pub level_of : PinMode → Bool
  level_of (push_pull level) = level
  level_of floating = false
  level_of analog_input = false
  level_of alternate = false
  level_of alternate_open_drain = false

  -- `Channel::new` of the pins of a channel; an error of `dac.set(0)` is ignored.
  unfoldable pub channel_of : ChannelPinSet → ChannelCalibration → Channel
  unfolding new_channel
  channel_of pins calibration =
      new_channel calibration (level_of pins.shdn.mode) (is_analog pins.vref_pin)

  -- The channels before they are calibrated.
  unfoldable pub assemble : Pins → ChannelCalibration × ChannelCalibration → b.Env → Channels
  unfolding channel_of
  assemble pins (calibration0, calibration1) env =
      let (_, env₀) = b.dac_transfer env 0 (frame 0) in
      let (_, env₁) = b.dac_transfer env₀ 1 (frame 0) in
      record {
        channel0 = channel_of pins.channel0 calibration0;
        channel1 = channel_of pins.channel1 calibration1;
        pwm0 = duties0 pins.pwm;
        pwm1 = duties1 pins.pwm;
        env = env₁;
      }

  -- The body of the loop at the end of `Channels::new`.
  unfoldable pub ready_channel : ℕ → M (Unit {0})
  unfolding calibrate_dac_value set_i
  ready_channel i = do calibrate_dac_value i; _ ← set_i i nought; pure tt

  unfoldable pub ready_channels : M (Unit {0})
  unfolding ready_channel
  ready_channels = do ready_channel 0; ready_channel 1

  abbrev pub state_of : Option (Unit {0} × Channels) → Option Channels
  state_of none = none
  state_of (some (_, s)) = some s

module _ ⦃p : Platform⦄ ⦃f : BitField⦄ ⦃spi : Spi⦄ (fuel : ℕ) (rest : Periphery) where
  -- The rest of `Channels::new` once the converter is set up.
  unfoldable pub finish :
      Pins
      → rest.Env
      → Access (ChannelCalibration × ChannelCalibration) × Adc
      → Option (Channels ⦃b = board_of fuel rest⦄)
  unfolding assemble ready_channels
  finish pins env (r, adc) = elim (value_of r) [
    | none ↦ none
    | some calibrations ↦ state_of ⦃b = board_of fuel rest⦄ (
        ready_channels ⦃b = board_of fuel rest⦄
          (assemble ⦃b = board_of fuel rest⦄ pins calibrations (adc, env)))
  ]

  -- `Channels::new`; `none` is a panic. `Adc::new` begins with the select pin high and no checksum.
  unfoldable pub new : Pins → spi.Dev → rest.Env → Option (Channels ⦃b = board_of fuel rest⦄)
  unfolding finish start_conversion
  new pins dev env =
      finish pins env
        (start_conversion fuel (record { checksum_mode = off; dev = spi.release dev }))
