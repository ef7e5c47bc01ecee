-- ===== src/Pins/Gpio.antt =====
-- The pins of the microcontroller as the crate `stm32f4xx_hal` names them, with what they are set up for,
-- and the SPI settings of `src/ad7172/mod.rs` and `src/ad5680.rs`.
use thermostat.Prelude.{ℕ, Bool, true, false, Option}

pub data Port : Type 0 where
  gpioa gpiob gpioc gpiod gpioe gpiof gpiog : Port

-- The type state of a pin; an output has a level.
pub data PinMode : Type 0 where
  floating analog_input alternate alternate_open_drain : PinMode
  push_pull : Bool → PinMode

pub record Pin : Type 0 where
  pub port : Port
  pub number : ℕ
  pub mode : PinMode

abbrev pub pin : Port → ℕ → PinMode → Pin
pin port n mode = record { port = port; number = n; mode = mode }

-- `spi::Mode`
pub record SpiMode : Type 0 where
  pub idle_high : Bool
  pub capture_on_second : Bool

-- An SPI peripheral with its pins; the clock is in MHz.
pub record SpiBus : Type 0 where
  pub sck : Pin
  pub miso : Option Pin
  pub mosi : Pin
  pub mode : SpiMode
  pub clock : ℕ

-- `ad7172::SPI_MODE` and `ad7172::SPI_CLOCK`
abbrev pub adc_spi_mode : SpiMode
adc_spi_mode = record { idle_high = true; capture_on_second = true }

abbrev pub adc_spi_clock : ℕ
adc_spi_clock = 2

-- `ad5680::SPI_MODE` and `ad5680::SPI_CLOCK`
abbrev pub dac_spi_mode : SpiMode
dac_spi_mode = record { idle_high = false; capture_on_second = true }

abbrev pub dac_spi_clock : ℕ
dac_spi_clock = 30
