-- ===== src/Tests/Start.antt =====
-- The start of the program at concrete inputs.
use thermostat.Prelude.{ℕ, ◌≡◌, refl, true, false, Option, none, some, List, [], ◌∷◌, ok, arith}
use thermostat.Command.{Command, Ipv4Config}
use thermostat.Nom.Documented.{documented}
use thermostat.Channels.{Board, Channel, Channels, new_channel}
use thermostat.Channels.Converter.{board_of}
use thermostat.Channels.Isolation.{beside}
use thermostat.Channels.Start.{assemble, ready_channels}
use thermostat.Handler.{Host}
use thermostat.Handler.Commands.Dispatch.{handle_command}
use thermostat.Handler.Commands.Isolation.{handle_command-Spares}
use thermostat.Handler.Commands.Isolation.Rules.{Then}
use thermostat.Fan
use thermostat.HwRev.{settings}
use thermostat.ChannelState.{new_state}
use thermostat.Config.{ChannelConfig, config_of}
use thermostat.Pins
use thermostat.Pins.{Peripherals, PwmOutput, PwmPins, disabled}
use thermostat.Pins.Gpio.{pin, gpioa, floating, push_pull}
use thermostat.Pins.Wiring.{setup_lem, all_off, all_distinct, all_codes}
use thermostat.Server.{IpCidr, four}
use thermostat.Session.{new_session}
use thermostat.Main.{Loop, Context, Texts, run_command, apply_ipv4}
use thermostat.Main.Start.{
  default_ipv4_config, Ethernet, Saved, start, boot, opened, start_server, stored_ipv4,
}
use thermostat.Main.Start.Safety.{IsSafeStart, start-IsSafeStart}
use thermostat.Main.Start.Address.{run_command-boot}
use thermostat.Tests.Model.Numbers.{fixed, fixed-IsLawful}
use thermostat.Tests.Model.Devices.{
  bench, new_bench, bench-BusWorks, bench-FilterWorks, disk, calibration, rev_2_2, fan_pin, idle,
  world_of,
}
use thermostat.Pins.Gpio.{pin, gpiod, floating}
use thermostat.Tests.Model.Chip.{arithmetic, chip, new_chip, quiet}
use thermostat.Tests.Model.Net.{Plug, plugs, tcp, lan, lan-PrefixPanics, unplugged}
use thermostat.Tests.Model.Text.{whole}
use thermostat.Ad7172.Bus.Retry.{checked}

handle_command-Spares_example :
    Then
      (λ w'. beside 0 w'.channels ≡ beside 0 (world_of idle).channels)
      (handle_command rev_2_2 (Command.output_pid 0) (world_of idle))
handle_command-Spares_example =
    handle_command-Spares rev_2_2 (Command.output_pid 0) 0 refl (world_of idle)

-- A board of revision 2.2 on which every output was high.
abbrev high : PwmOutput
high = record { pin = pin gpiod 14 floating; duty = 7; enabled = false }

abbrev hardware : Peripherals
hardware = record {
  hwrev0 = false;
  hwrev1 = true;
  hwrev2 = false;
  hwrev3 = false;
  level = λ port n. true;
  timers = record {
    max_v0 = high;
    max_v1 = high;
    max_i_pos0 = high;
    max_i_pos1 = high;
    max_i_neg0 = high;
    max_i_neg1 = high;
  };
  tim8 = λ hz. fan_pin;
}

abbrev plug_in : Ethernet
plug_in = record { build = λ hwaddr addresses gateway. some addresses }

-- The flash has a configuration of channel 0 with an engaged PID, and none of channel 1.
abbrev engaged : ChannelConfig
unfolding new_state
engaged = config_of (record (new_state calibration) { pid_engaged = true }) none

abbrev saved : Saved
saved = record {
  store = (0, engaged) ∷ [];
  read_ipv4 = λ st. ok none;
  sfkv = record { readable = λ st. true; erase = λ st. [] };
}

abbrev mac : List ℕ
mac = 0 ∷ 4 ∷ 163 ∷ 1 ∷ 2 ∷ 3 ∷ []

start-IsSafeStart_example :
    (s : Channels) × (ready_channels
        (assemble (Pins.setup hardware).pins (calibration, calibration) new_bench)
      ≡ some (tt, s))
    × (l : Loop) × (start (Pins.setup hardware) saved (opened saved) plug_in (some mac) s ≡ some l)
    × IsSafeStart (opened saved) l
unfolding start_server stored_ipv4 new_state
start-IsSafeStart_example =
    start-IsSafeStart fixed-IsLawful bench-BusWorks bench-FilterWorks hardware saved plug_in mac
      (calibration, calibration) new_bench
      (record { net = IpCidr.ipv4 24 ∷ []; sockets = four unplugged; states = four new_session })
      refl

-- A board with the converter of Tests/Model/Chip, and a flash that keeps the network configuration.
abbrev wired : Board
wired = board_of ⦃spi = chip⦄ 3 quiet

instance abbrev ipv4_flash : Host ⦃b = wired⦄
ipv4_flash = record {
  Store = Option Ipv4Config;
  Fault = Unit;
  read_config = λ st c. ok none;
  write_config = λ st c cfg. (ok tt, st);
  write_ipv4 = λ st config. (true, some config);
  fits = λ x. true;
}

abbrev ipv4_saved : Saved ⦃b = wired⦄ ⦃h = ipv4_flash⦄
ipv4_saved = record {
  store = none;
  read_ipv4 = λ st. ok st;
  sfkv = record { readable = λ st. true; erase = λ st. none };
}

instance abbrev silent : Texts ⦃b = wired⦄
silent = record { json_text = λ y. []; write_net = λ c s. s; write_error = λ s. s }

abbrev wired_channel : Channel ⦃b = wired⦄
unfolding new_channel new_state
wired_channel = new_channel ⦃b = wired⦄ calibration false false

abbrev wired_context : Context ⦃b = wired⦄ ⦃h = ipv4_flash⦄
wired_context = record {
  world = record {
    channels = record {
      channel0 = wired_channel;
      channel1 = wired_channel;
      pwm0 = record { max_i_pos = 0; max_i_neg = 0; max_v = 0 };
      pwm1 = record { max_i_pos = 0; max_i_neg = 0; max_v = 0 };
      env = (checked ⦃spi = chip⦄ new_chip, tt);
    };
    store = none;
    ipv4_config = default_ipv4_config;
    fan_ctrl = Fan.new (some fan_pin) (settings rev_2_2);
    sent = [];
    dfu_trigger = false;
  };
  new_ipv4_config = none;
  should_reset = false;
}

abbrev wired_loop : Loop ⦃b = wired⦄ ⦃h = ipv4_flash⦄
wired_loop = record {
  world = wired_context.world;
  server = record {
    net = IpCidr.ipv4 24 ∷ [];
    sockets = four unplugged;
    states = four new_session;
  };
  should_reset = false;
  led_g3 = false;
  led_g4 = true;
  fed = 1;
}

abbrev too_long : Ipv4Config
too_long = record { address = 192 ∷ 168 ∷ 1 ∷ 26 ∷ []; mask_len = 33; gateway = none }

run_command-boot_example :
    (s' : Plug) × (c' : Context ⦃b = wired⦄ ⦃h = ipv4_flash⦄) × (run_command ⦃b = wired⦄
        ⦃h = ipv4_flash⦄ rev_2_2
        (Command.set_ipv4 too_long)
        unplugged
        wired_context
      ≡ some (s', c'))
    × (apply_ipv4 ⦃b = wired⦄ ⦃h = ipv4_flash⦄ c'.new_ipv4_config wired_loop ≡ none)
    × (boot ⦃spi = chip⦄ 3 quiet ⦃h = ipv4_flash⦄ hardware
          (record ipv4_saved { store = c'.world.store })
          new_chip
          tt
          plug_in
          (some mac)
        ≡ none)
run_command-boot_example =
    run_command-boot ⦃spi = chip⦄ 3 quiet ⦃h = ipv4_flash⦄ rev_2_2 lan-PrefixPanics ipv4_saved
      (λ st config. (refl, refl)) too_long unplugged wired_context wired_loop hardware new_chip tt
      plug_in (some mac) (omega arith)

setup_lem_example :
    ((Pins.setup hardware).pins.channel0.shdn.mode ≡ push_pull false)
    × ((Pins.setup hardware).pins.channel1.shdn.mode ≡ push_pull false)
    × ((Pins.setup hardware).pins.pwm ≡ all_off)
    × ((Pins.setup hardware).pins.channel0.vref_pin ≡ disabled (pin gpioa 0 floating))
    × ((Pins.setup hardware).pins.channel1.vref_pin ≡ disabled (pin gpioa 3 floating))
    × ((Pins.setup hardware).fan ≡ some fan_pin)
    × (all_distinct (all_codes (Pins.setup hardware)) ≡ true)
setup_lem_example = setup_lem hardware
