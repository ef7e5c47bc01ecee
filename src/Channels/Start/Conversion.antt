-- ===== src/Channels/Start/Conversion.antt =====
-- What `Channels::new` of `src/channels.rs` does with the AD7172.
use thermostat.Prelude.{ℕ, false}
use thermostat.Ad7172.Codes.{ain0, ain1, ain2, ain3}
use thermostat.Ad7172.Filter.{ChannelCalibration}
use thermostat.Ad7172.Regs.{BitField}
use thermostat.Ad7172.Bus.{Spi, Op, pure, ◌>>=◌, ◌>>◌}
use thermostat.Ad7172.Adc.{
  start, set_sync_enable, setup_channel, get_calibration, start_continuous_conversion,
}

module _ ⦃f : BitField⦄ ⦃spi : Spi⦄ (fuel : ℕ) where
  -- From `Adc::new` to the start of the conversion; each step is unwrapped.
  unfoldable pub start_conversion : Op (ChannelCalibration × ChannelCalibration)
  start_conversion = do
    start fuel
    set_sync_enable fuel false
    setup_channel fuel 0 ain2 ain3
    calibration0 ← get_calibration fuel 0
    setup_channel fuel 1 ain0 ain1
    calibration1 ← get_calibration fuel 1
    start_continuous_conversion fuel
    pure (calibration0, calibration1)
