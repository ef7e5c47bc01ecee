-- ===== src/Pins.antt =====
-- `src/pins.rs`: which pin is set up for what, and the outputs that the set-up leaves.
pub mod Gpio
pub mod Wiring
use thermostat.Prelude.{ℕ, Bool, true, false, Option, none, some, List, [], ◌∷◌, ltb, if◌then◌else◌}
use thermostat.Platform.{Platform}
use thermostat.Fan.{FanPin}
use thermostat.HwRev.{HwRev, HwSettings, detect_hw_rev, settings}
use thermostat.Pins.Gpio.{
  Port, gpioa, gpiob, gpioc, gpiod, gpioe, gpiof, gpiog, floating, analog_input, alternate,
  alternate_open_drain, push_pull, Pin, pin, SpiBus, adc_spi_mode, adc_spi_clock, dac_spi_mode,
  dac_spi_clock,
}
use thermostat.Leds.{Leds}
use thermostat.Leds

-- A PWM output of a timer, on a pin.
pub record PwmOutput : Type 0 where
  pub pin : Pin
  pub duty : ℕ
  pub enabled : Bool

pub record PwmPins : Type 0 where
  pub max_v0 : PwmOutput
  pub max_v1 : PwmOutput
  pub max_i_pos0 : PwmOutput
  pub max_i_pos1 : PwmOutput
  pub max_i_neg0 : PwmOutput
  pub max_i_neg1 : PwmOutput

-- `init_pwm_pin`
abbrev pub init_pwm_pin : PwmOutput → PwmOutput
init_pwm_pin o = record (record o { duty = 0 }) { enabled = true }

-- A pin that becomes an output of a timer.
abbrev onto : Port → ℕ → PwmOutput → PwmOutput
onto port n o = record o { pin = pin port n alternate }

-- `PwmPins::setup` of the outputs that the timers TIM3 and TIM1 give, with the pins that `Pins::setup`
-- hands to it.
unfoldable pub setup_pwm : PwmPins → PwmPins
setup_pwm pins = record {
  max_v0 = init_pwm_pin (onto gpioc 6 pins.max_v0);
  max_v1 = init_pwm_pin (onto gpioc 7 pins.max_v1);
  max_i_pos0 = init_pwm_pin (onto gpioe 9 pins.max_i_pos0);
  max_i_pos1 = init_pwm_pin (onto gpioe 11 pins.max_i_pos1);
  max_i_neg0 = init_pwm_pin (onto gpioe 13 pins.max_i_neg0);
  max_i_neg1 = init_pwm_pin (onto gpioe 14 pins.max_i_neg1);
}

-- `Channel0VRef` and `Channel1VRef`
pub data VrefPin : Type 0 where
  analog disabled : Pin → VrefPin

-- `ChannelPinSet`
pub record ChannelPinSet : Type 0 where
  pub dac_spi : SpiBus
  pub dac_sync : Pin
  pub shdn : Pin
  pub vref_pin : VrefPin
  pub itec_pin : Pin
  pub dac_feedback_pin : Pin
  pub tec_u_meas_pin : Pin

pub record Pins : Type 0 where
  pub adc_spi : SpiBus
  pub adc_nss : Pin
  pub pwm : PwmPins
  pub channel0 : ChannelPinSet
  pub channel1 : ChannelPinSet

-- `EthPins`
pub record EthernetPins : Type 0 where
  pub ref_clk : Pin
  pub crs : Pin
  pub tx_en : Pin
  pub tx_d0 : Pin
  pub tx_d1 : Pin
  pub rx_d0 : Pin
  pub rx_d1 : Pin

-- The pins of `Eeprom` and of `USB`.
pub record Eeprom : Type 0 where
  pub scl : Pin
  pub sda : Pin

pub record Usb : Type 0 where
  pub pin_dm : Pin
  pub pin_dp : Pin

-- What the microcontroller has before the set-up: the levels of the four revision pins, the level
-- that each pin has once it is an output, the outputs of TIM1 and TIM3, and that of TIM8 at a
-- frequency.
pub record Peripherals : Type 0 where
  pub hwrev0 : Bool
  pub hwrev1 : Bool
  pub hwrev2 : Bool
  pub hwrev3 : Bool
  pub level : Port → ℕ → Bool
  pub timers : PwmPins
  pub tim8 : ℕ → FanPin

-- The pins as they are handed out: with `split`, and by the conversions.
abbrev input : Port → ℕ → Pin
input port n = pin port n floating

abbrev into_alternate : Port → ℕ → Pin
into_alternate port n = pin port n alternate

abbrev into_analog : Port → ℕ → Pin
into_analog port n = pin port n analog_input

abbrev into_push_pull_output : Peripherals → Port → ℕ → Pin
into_push_pull_output d port n = pin port n (push_pull (d.level port n))

abbrev set_low : Pin → Pin
set_low p = record p { mode = push_pull false }

-- `if hwrev.major > 2`
unfoldable pub vref_pin_of : HwRev → Port → ℕ → VrefPin
vref_pin_of hwrev port n =
    if ltb 2 hwrev.major then analog (into_analog port n) else disabled (input port n)

-- `Pins::setup_spi_adc`
unfoldable pub setup_spi_adc : SpiBus
setup_spi_adc = record {
  sck = into_alternate gpiob 10;
  miso = some (into_alternate gpiob 14);
  mosi = into_alternate gpiob 15;
  mode = adc_spi_mode;
  clock = adc_spi_clock;
}

-- `Pins::setup_dac0`
unfoldable pub setup_dac0 : Peripherals → SpiBus × Pin
setup_dac0 d = (
  record {
    sck = into_alternate gpioe 2;
    miso = none;
    mosi = into_alternate gpioe 6;
    mode = dac_spi_mode;
    clock = dac_spi_clock;
  },
  into_push_pull_output d gpioe 4,
)

-- `Pins::setup_dac1`
unfoldable pub setup_dac1 : Peripherals → SpiBus × Pin
setup_dac1 d = (
  record {
    sck = into_alternate gpiof 7;
    miso = none;
    mosi = into_alternate gpiof 9;
    mode = dac_spi_mode;
    clock = dac_spi_clock;
  },
  into_push_pull_output d gpiof 6,
)

-- The pins of the channels in `Pins::setup`.
unfoldable pub channel0_pins : Peripherals → HwRev → ChannelPinSet
unfolding setup_dac0 vref_pin_of
channel0_pins d hwrev =
    let (dac0_spi, dac0_sync) = setup_dac0 d in
    record {
      dac_spi = dac0_spi;
      dac_sync = dac0_sync;
      shdn = set_low (into_push_pull_output d gpioe 10);
      vref_pin = vref_pin_of hwrev gpioa 0;
      itec_pin = into_analog gpioa 6;
      dac_feedback_pin = into_analog gpioa 4;
      tec_u_meas_pin = into_analog gpioc 2;
    }

unfoldable pub channel1_pins : Peripherals → HwRev → ChannelPinSet
unfolding setup_dac1 vref_pin_of
channel1_pins d hwrev =
    let (dac1_spi, dac1_sync) = setup_dac1 d in
    record {
      dac_spi = dac1_spi;
      dac_sync = dac1_sync;
      shdn = set_low (into_push_pull_output d gpioe 15);
      vref_pin = vref_pin_of hwrev gpioa 3;
      itec_pin = into_analog gpiob 0;
      dac_feedback_pin = into_analog gpioa 5;
      tec_u_meas_pin = into_analog gpioc 3;
    }

module _ ⦃p : Platform⦄ where
  -- What `Pins::setup` returns.
  pub record Setup : Type 0 where
    pub pins : Pins
    pub leds : Leds
    pub eeprom : Eeprom
    pub eth_pins : EthernetPins
    pub usb : Usb
    pub fan : Option FanPin
    pub hwrev : HwRev
    pub hw_settings : HwSettings

  -- The end of `Pins::setup`: the fan has an output where there is one.
  abbrev pub fan_of : (ℕ → FanPin) → HwSettings → Option FanPin
  fan_of tim8 hw = if hw.fan_available then some (tim8 hw.fan_pwm_freq_hz) else none

  -- `Pins::setup`
  unfoldable pub setup : Peripherals → Setup
  unfolding setup_spi_adc setup_pwm detect_hw_rev settings channel0_pins channel1_pins
  setup d =
      let hwrev = detect_hw_rev d.hwrev0 d.hwrev1 d.hwrev2 d.hwrev3 in
      let hw_settings = settings hwrev in
      let pins : Pins = record {
        adc_spi = setup_spi_adc;
        adc_nss = into_push_pull_output d gpiob 12;
        pwm = setup_pwm d.timers;
        channel0 = channel0_pins d hwrev;
        channel1 = channel1_pins d hwrev;
      } in
      record {
        pins = pins;
        leds = Leds.new (d.level gpiod 9) (d.level gpiod 10) (d.level gpiod 11);
        eeprom = record {
          scl = pin gpiob 8 alternate_open_drain;
          sda = pin gpiob 9 alternate_open_drain;
        };
        eth_pins = record {
          ref_clk = input gpioa 1;
          crs = input gpioa 7;
          tx_en = input gpiob 11;
          tx_d0 = input gpiog 13;
          tx_d1 = input gpiob 13;
          rx_d0 = input gpioc 4;
          rx_d1 = input gpioc 5;
        };
        usb = record { pin_dm = into_alternate gpioa 11; pin_dp = into_alternate gpioa 12 };
        fan = fan_of d.tim8 hw_settings;
        hwrev = hwrev;
        hw_settings = hw_settings;
      }
