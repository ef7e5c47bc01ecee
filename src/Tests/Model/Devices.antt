-- ===== src/Tests/Model/Devices.antt =====
-- A board whose state is its next reading and whose buses work, and a flash store that is a list.
use thermostat.Prelude.{
  ℕ, zero, suc, ◌*◌, ◌/◌, ◌≡◌, refl, true, false, Option, none, some, List, [], ◌∷◌, ◌==◌,
  if◌then◌else◌, ok, arith,
}
use thermostat.Tests.Model.Numbers.{fixed}
use thermostat.Ad7172.Filter.{ChannelCalibration, PostFilter, f20sps}
use thermostat.ChannelState.{new_state}
use thermostat.Channels.{Board, Channel, Channels, Duties, new_channel}
use thermostat.Channels.Limits.Safety.{BusWorks}
use thermostat.Config.{ChannelConfig}
use thermostat.Config.Shows.{FilterWorks, FilterKeeps, read_filter}
use thermostat.Handler.{Host, World}
use thermostat.Handler.Commands.Storage.{FlashWorks}
use thermostat.Fan.{FanCtrl, FanPin}
use thermostat.HwRev.{HwRev, settings}
use thermostat.Fan

-- The next reading, and the filters of the two channels.
pub record Bench : Type 0 where
  pub reading : ℕ
  pub filter0 : Option PostFilter
  pub filter1 : Option PostFilter

abbrev pub new_bench : Bench
new_bench = record { reading = 0x300000; filter0 = none; filter1 = some f20sps }

abbrev filter_at : Bench → ℕ → Option PostFilter
filter_at e zero = e.filter0
filter_at e (suc i) = e.filter1

abbrev with_filter : Bench → ℕ → Option PostFilter → Bench
with_filter e zero f = record e { filter0 = f }
with_filter e (suc i) f = record e { filter1 = f }

instance abbrev pub bench : Board
bench = record {
  Env = Bench;
  dac_transfer = λ e i f. (true, e);
  convert = λ e i t. (2000, e);
  to_millivolts = λ x. x * 3300 / 4095;
  max_duty = λ i pin. 1000;
  data_ready = λ e. (some (some 0), e);
  read_data = λ e. (some e.reading, e);
  get_postfilter = λ e i. (some (filter_at e i), e);
  set_postfilter = λ e i f. (true, with_filter e i f);
}

pub bench-BusWorks : BusWorks
bench-BusWorks e i f = refl

pub bench-FilterWorks : FilterWorks
bench-FilterWorks e i f = refl

bench_kept :
    (e : Bench) (i : ℕ) (f : Option PostFilter) → read_filter i (with_filter e i f) ≡ some f
bench_kept e zero f = refl
bench_kept e (suc i) f = refl

pub bench-FilterKeeps : FilterKeeps
bench-FilterKeeps = record { kept = bench_kept; apart = λ e i j bytes. refl }

abbrev read_list : List (ℕ × ChannelConfig) → ℕ → Option ChannelConfig
read_list [] c = none
read_list ((k, cfg) ∷ rest) c = if k == c then some cfg else read_list rest c

instance abbrev pub disk : Host
disk = record {
  Store = List (ℕ × ChannelConfig);
  Fault = Unit;
  read_config = λ st c. ok (read_list st c);
  write_config = λ st c cfg. (ok tt, (c, cfg) ∷ st);
  write_ipv4 = λ st config. (true, st);
  fits = λ x. true;
}

eq_self : (c : ℕ) → (c == c) ≡ true
eq_self c = ground arith

pub disk-FlashWorks : FlashWorks
disk-FlashWorks st c cfg = (refl, rw (eq_self c) refl)

abbrev pub calibration : ChannelCalibration
calibration = record { offset = 0x800000; gain = 0x555555; bipolar = false }

abbrev pub idle_channel : Channel
unfolding new_channel new_state
idle_channel = new_channel calibration false true

abbrev no_duties : Duties
no_duties = record { max_i_pos = 0; max_i_neg = 0; max_v = 0 }

abbrev pub channels_of : Channel → Channels
channels_of c = record {
  channel0 = c;
  channel1 = idle_channel;
  pwm0 = no_duties;
  pwm1 = no_duties;
  env = new_bench;
}

abbrev pub idle : Channels
idle = channels_of idle_channel

abbrev pub rev_2_2 : HwRev
rev_2_2 = record { major = 2; minor = 2 }

abbrev pub fan_pin : FanPin
fan_pin = record { max_duty = 500; duty = 0; enabled = false }

abbrev pub world_of : Channels → World
world_of s = record {
  channels = s;
  store = [];
  ipv4_config = record { address = 192 ∷ 168 ∷ 1 ∷ 26 ∷ []; mask_len = 24; gateway = none };
  fan_ctrl = Fan.new (some fan_pin) (settings rev_2_2);
  sent = [];
  dfu_trigger = false;
}
