-- ===== src/Pins/Wiring.antt =====
-- What the set-up of `src/pins.rs` leaves, on any board.
use thermostat.Prelude.{
  ℕ, ◌+◌, ◌*◌, ◌≡◌, refl, Bool, true, false, not, ◌&&◌, Option, none, some, List, [], ◌∷◌, ◌++◌,
  map, ltb, ◌==◌, if◌then◌else◌,
}
use thermostat.Platform.{Platform}
use thermostat.Fan.{FanPin}
use thermostat.HwRev.{detect_hw_rev, settings}
use thermostat.Pins.{
  PwmPins, PwmOutput, ChannelPinSet, VrefPin, analog, disabled, Peripherals, Setup, setup,
  setup_spi_adc, setup_dac0, setup_dac1, channel0_pins, channel1_pins, setup_pwm, vref_pin_of,
  fan_of,
}
use thermostat.Pins.Gpio.{
  Port, gpioa, gpiob, gpioc, gpiod, gpioe, gpiof, gpiog, Pin, pin, SpiBus, floating, push_pull,
  alternate,
}

-- The levels of the revision pins that tell revision 2.2.
abbrev pub is_rev_2_2 : Peripherals → Bool
is_rev_2_2 d = not d.hwrev0 && d.hwrev1 && not d.hwrev2 && not d.hwrev3

-- No revision that is detected has a reference pin, and only revision 2.2 has a fan.
by_levels :
    ⦃p : Platform⦄
    → (h0 h1 h2 h3 : Bool) (tim8 : ℕ → FanPin)
    → (ltb 2 (detect_hw_rev h0 h1 h2 h3).major ≡ false)
      × (fan_of tim8 (settings (detect_hw_rev h0 h1 h2 h3))
          ≡ (if not h0 && h1 && not h2 && not h3 then some (tim8 25_000) else none))
unfolding detect_hw_rev settings
by_levels false false false false tim8 = (refl, refl)
by_levels false false false true tim8 = (refl, refl)
by_levels false false true false tim8 = (refl, refl)
by_levels false false true true tim8 = (refl, refl)
by_levels false true false false tim8 = (refl, refl)
by_levels false true false true tim8 = (refl, refl)
by_levels false true true false tim8 = (refl, refl)
by_levels false true true true tim8 = (refl, refl)
by_levels true false false false tim8 = (refl, refl)
by_levels true false false true tim8 = (refl, refl)
by_levels true false true false tim8 = (refl, refl)
by_levels true false true true tim8 = (refl, refl)
by_levels true true false false tim8 = (refl, refl)
by_levels true true false true tim8 = (refl, refl)
by_levels true true true false tim8 = (refl, refl)
by_levels true true true true tim8 = (refl, refl)

-- A pin as a number.
abbrev port_code : Port → ℕ
port_code gpioa = 0
port_code gpiob = 1
port_code gpioc = 2
port_code gpiod = 3
port_code gpioe = 4
port_code gpiof = 5
port_code gpiog = 6

abbrev pin_code : Pin → ℕ
pin_code q = port_code q.port * 16 + q.number

abbrev vref_code : VrefPin → ℕ
vref_code (analog q) = pin_code q
vref_code (disabled q) = pin_code q

abbrev miso_codes : Option Pin → List ℕ
miso_codes none = []
miso_codes (some q) = pin_code q ∷ []

abbrev bus_codes : SpiBus → List ℕ
bus_codes s = pin_code s.sck ∷ pin_code s.mosi ∷ miso_codes s.miso

abbrev channel_codes : ChannelPinSet → List ℕ
channel_codes c =
    bus_codes c.dac_spi
    ++ pin_code c.dac_sync
      ∷ pin_code c.shdn
      ∷ vref_code c.vref_pin
      ∷ pin_code c.itec_pin
      ∷ pin_code c.dac_feedback_pin
      ∷ pin_code c.tec_u_meas_pin
      ∷ []

-- The pins of the fan, of the LEDs and of the revision.
abbrev fixed_codes : List ℕ
fixed_codes =
    map {A = Port × ℕ} (λ q. port_code q.0 * 16 + q.1)
      ((gpioc, 9)
        ∷ (gpiod, 9)
        ∷ (gpiod, 10)
        ∷ (gpiod, 11)
        ∷ (gpiod, 0)
        ∷ (gpiod, 1)
        ∷ (gpiod, 2)
        ∷ (gpiod, 3)
        ∷ [])

abbrev pwm_codes : PwmPins → List ℕ
pwm_codes w =
    map (λ (o : PwmOutput). pin_code o.pin)
      (w.max_v0 ∷ w.max_v1 ∷ w.max_i_pos0 ∷ w.max_i_pos1 ∷ w.max_i_neg0 ∷ w.max_i_neg1 ∷ [])

-- All pins that the set-up uses.
abbrev pub all_codes : ⦃p : Platform⦄ → Setup → List ℕ
all_codes s =
    bus_codes s.pins.adc_spi
    ++ channel_codes s.pins.channel0
    ++ channel_codes s.pins.channel1
    ++ fixed_codes
    ++ pwm_codes s.pins.pwm
    ++ map pin_code (
        s.pins.adc_nss ∷ s.eeprom.scl ∷ s.eeprom.sda ∷ s.eth_pins.ref_clk ∷ s.eth_pins.crs
        ∷ s.eth_pins.tx_en ∷ s.eth_pins.tx_d0 ∷ s.eth_pins.tx_d1 ∷ s.eth_pins.rx_d0
        ∷ s.eth_pins.rx_d1 ∷ s.usb.pin_dm ∷ s.usb.pin_dp ∷ [])

abbrev occurs : ℕ → List ℕ → Bool
occurs n [] = false
occurs n (x ∷ xs) = if n == x then true else occurs n xs

abbrev pub all_distinct : List ℕ → Bool
all_distinct [] = true
all_distinct (x ∷ xs) = not (occurs x xs) && all_distinct xs

-- Every limit output at no duty, each on its pin.
abbrev off_at : Port → ℕ → PwmOutput
off_at port n = record { pin = pin port n alternate; duty = 0; enabled = true }

abbrev pub all_off : PwmPins
all_off = record {
  max_v0 = off_at gpioc 6;
  max_v1 = off_at gpioc 7;
  max_i_pos0 = off_at gpioe 9;
  max_i_pos1 = off_at gpioe 11;
  max_i_neg0 = off_at gpioe 13;
  max_i_neg1 = off_at gpioe 14;
}

-- On any board, whatever its pins and timers held: both shutdown pins are driven low, every limit
-- output is enabled at no duty, on its pin, both reference pins are left disabled, the fan has an output exactly
-- on revision 2.2, at 25 kHz, and no pin is used for two things.
pub setup_lem :
    ⦃p : Platform⦄
    → (d : Peripherals)
    → ((setup d).pins.channel0.shdn.mode ≡ push_pull false)
      × ((setup d).pins.channel1.shdn.mode ≡ push_pull false)
      × ((setup d).pins.pwm ≡ all_off)
      × ((setup d).pins.channel0.vref_pin ≡ disabled (pin gpioa 0 floating))
      × ((setup d).pins.channel1.vref_pin ≡ disabled (pin gpioa 3 floating))
      × ((setup d).fan ≡ (if is_rev_2_2 d then some (d.tim8 25_000) else none))
      × (all_distinct (all_codes (setup d)) ≡ true)
unfolding setup setup_pwm channel0_pins channel1_pins vref_pin_of setup_spi_adc setup_dac0
    setup_dac1
setup_lem d =
    let (old, fan) = by_levels d.hwrev0 d.hwrev1 d.hwrev2 d.hwrev3 d.tim8 in
    (refl, refl, refl, rw old refl, rw old refl, fan, rw old refl)
