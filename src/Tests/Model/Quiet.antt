-- ===== src/Tests/Model/Quiet.antt =====
-- A board whose converter is never ready, and the loop of the firmware on it.
use thermostat.Prelude.{ℕ, ◌*◌, ◌/◌, ◌≡◌, refl, true, false, Option, none, some, [], ◌∷◌, ok}
use thermostat.Tests.Model.Numbers.{Fixed, fixed}
use thermostat.Tests.Model.Devices.{calibration, rev_2_2, fan_pin}
use thermostat.Tests.Model.Net.{plugs, tcp, lan}
use thermostat.Channels.{Board, Channel, Channels, Duties, new_channel, get_channel, get_state}
use thermostat.Channels.Control.{poll_adc}
use thermostat.Channels.Sense.{
  current_abs_max_tec_i, get_tec_i, adc_read, sample_of, average, accumulate, larger, signed,
}
use thermostat.ChannelState.{new_state}
use thermostat.Handler.{Host, World}
use thermostat.Server.{ipv4, foreign, four}
use thermostat.Session.{new_session}
use thermostat.Main.{Texts, Loop, Context, sense}
use thermostat.HwRev.{settings}
use thermostat.Fan

instance abbrev pub quiet : Board
quiet = record {
  Env = Unit;
  dac_transfer = λ e i f. (true, e);
  convert = λ e i t. (2000, e);
  to_millivolts = λ x. x * 3300 / 4095;
  max_duty = λ i pin. 1000;
  data_ready = λ e. (some none, e);
  read_data = λ e. (some 0, e);
  get_postfilter = λ e i. (some none, e);
  set_postfilter = λ e i f. (true, e);
}

-- A flash that keeps the network configuration.
instance abbrev pub flash : Host
flash = record {
  Store = Option ℕ;
  Fault = Unit;
  read_config = λ st c. ok none;
  write_config = λ st c cfg. (ok tt, st);
  write_ipv4 = λ st config. (true, some config.mask_len);
  fits = λ x. true;
}

instance abbrev pub plain : Texts
plain = record { json_text = λ y. []; write_net = λ c s. s; write_error = λ s. s }

abbrev pub channel : Channel
unfolding new_channel new_state
channel = new_channel calibration false true

abbrev pub duties : Duties
duties = record { max_i_pos = 0; max_i_neg = 0; max_v = 0 }

abbrev pub world : World
world = record {
  channels = record {
    channel0 = channel;
    channel1 = channel;
    pwm0 = duties;
    pwm1 = duties;
    env = tt;
  };
  store = none;
  ipv4_config = record { address = 192 ∷ 168 ∷ 1 ∷ 26 ∷ []; mask_len = 24; gateway = none };
  fan_ctrl = Fan.new (some fan_pin) (settings rev_2_2);
  sent = [];
  dfu_trigger = false;
}

abbrev pub context : Context
context = record { world = world; new_ipv4_config = none; should_reset = false }

-- The loop with one client, before a reset.
abbrev pub resetting : Loop
resetting = record {
  world = world;
  server = record {
    net = ipv4 24 ∷ foreign ∷ [];
    sockets = record (four tcp.new_socket) { at1 = record { plugged = true; rx = []; tx = [] } };
    states = four new_session;
  };
  should_reset = true;
  led_g3 = false;
  led_g4 = true;
  fed = 0;
}

-- Both reference pins can be read.
abbrev pub IsFine : Channels → Type 0
IsFine c = (c.channel0.vref_analog ≡ true) × (c.channel1.vref_analog ≡ true)

abbrev millivolts : Fixed
millivolts = fixed.of_millivolt (fixed.of_u32 (2000 * 3300 / 4095))

-- The current where the measured voltage is the reference.
abbrev rest : Fixed
rest = fixed.div (fixed.sub millivolts millivolts) (fixed.lit 4 1)

pub quiet-sense :
    (now : ℕ) (c : Channels)
    → IsFine c
    → (y : fixed.F64) × (c' : Channels) × (sense now c ≡ some (y, c')) × IsFine c'
unfolding sense poll_adc current_abs_max_tec_i get_tec_i adc_read sample_of average accumulate
    get_channel get_state
quiet-sense now c (a0, a1) = (
  larger (fixed.abs (signed c.channel0.state.polarity rest))
      (fixed.abs (signed c.channel1.state.polarity rest)),
  c,
  rw (a0, a1) refl,
  (a0, a1),
)
