-- ===== src/Main/Start.antt =====
-- What `src/main.rs` does before its loop, with `run` of `src/net.rs`.
pub mod Safety
pub mod Address
use thermostat.Prelude.{ℕ, Bool, true, false, Option, none, some, List, [], ◌∷◌, Result, ok, err}
use thermostat.Platform.{Platform}
use thermostat.Command.{Ipv4Config}
use thermostat.Ad7172.Regs.{BitField}
use thermostat.Ad7172.Bus.{Spi}
use thermostat.Channels
use thermostat.Channels.{Board, Channels}
use thermostat.Channels.Converter.{Periphery, board_of}
use thermostat.Channels.Start
use thermostat.Config
use thermostat.Config.{ChannelConfig}
use thermostat.Fan
use thermostat.Pins
use thermostat.Pins.{Peripherals, Setup}
use thermostat.Leds.{turn_off}
use thermostat.FlashStore.{Sfkv, open_store}
use thermostat.Handler.{Host}
use thermostat.Handler.SendLine.{TcpSocket}
use thermostat.Server.{Tcp, Interface, IpCidr, ipv4, Server, new_server, split_ipv4_config, ◌>>=◌}
use thermostat.Main.{Loop}

-- The configuration of the network where the flash has none.
abbrev pub default_ipv4_config : Ipv4Config
default_ipv4_config = record { address = 192 ∷ 168 ∷ 1 ∷ 26 ∷ []; mask_len = 24; gateway = none }

-- `EthernetInterfaceBuilder` of smoltcp on the Ethernet: the interface at a hardware address, with
-- addresses and a default route, where `none` is a panic of `add_default_ipv4_route(…).unwrap()`.
pub record Ethernet ⦃t : TcpSocket⦄ ⦃i : Interface⦄ : Type 0 where
  pub build : List ℕ → List (IpCidr i.Cidr) → Option (List ℕ) → Option i.Net

module _ ⦃t : TcpSocket⦄ ⦃k : Tcp⦄ ⦃i : Interface⦄ where
  -- `net::run` and `Server::run`, up to the callback.
  unfoldable pub start_server : Ethernet → List ℕ → Ipv4Config → Option Server
  unfolding split_ipv4_config new_server
  start_server eth hwaddr config = do
    (cidr, gateway) ← split_ipv4_config config
    net ← eth.build hwaddr (ipv4 cidr ∷ []) gateway
    some (new_server net)

module _ ⦃p : Platform⦄ ⦃b : Board⦄ ⦃h : Host⦄ where
  -- The arms of the `match` on the configuration of a channel; both errors are only logged.
  unfoldable pub load_config : ℕ → Result (Option ChannelConfig) h.Fault → Channels.M (Unit {0})
  load_config c (ok (some config)) = Config.apply config c
  load_config c (ok none) = Channels.pure tt
  load_config c (err e) = Channels.pure tt

  -- The loop over the keys "ch0" and "ch1".
  unfoldable pub load_configs : h.Store → Channels.M (Unit {0})
  unfolding load_config
  load_configs st =
      Channels.◌>>◌ (load_config 0 (h.read_config st 0)) (load_config 1 (h.read_config st 1))

  -- The flash store as it is when the program starts: the network configuration under "ipv4", and
  -- what `flash_store.rs` asks of it.
  pub record Saved : Type 0 where
    pub store : h.Store
    pub read_ipv4 : h.Store → Result (Option Ipv4Config) h.Fault
    pub sfkv : Sfkv

  -- The store that `flash_store::store` gives.
  abbrev pub opened : Saved → h.Store
  opened saved = open_store saved.sfkv saved.store

  -- The `match` on the network configuration.
  unfoldable pub stored_ipv4 : Result (Option Ipv4Config) h.Fault → Ipv4Config
  stored_ipv4 (ok (some config)) = config
  stored_ipv4 (ok none) = default_ipv4_config
  stored_ipv4 (err e) = default_ipv4_config

  module _ ⦃t : TcpSocket⦄ ⦃k : Tcp⦄ ⦃i : Interface⦄ where
    -- The locals of `main` when it enters the loop. The watchdog was fed once.
    abbrev pub entered : Setup → h.Store → Ipv4Config → Server → Channels → Loop
    entered setup st config server channels = record {
      world = record {
        channels = channels;
        store = st;
        ipv4_config = config;
        fan_ctrl = Fan.new setup.fan setup.hw_settings;
        sent = [];
        dfu_trigger = false;
      };
      server = server;
      should_reset = false;
      led_g3 = turn_off setup.leds.g3;
      led_g4 = turn_off setup.leds.g4;
      fed = 1;
    }

    -- From the channels on to the loop; `eeprom` is the address read from it, or an error, which is
    -- unwrapped.
    unfoldable pub start :
        Setup → Saved → h.Store → Ethernet → Option (List ℕ) → Channels → Option Loop
    unfolding load_configs stored_ipv4 start_server
    start setup saved st eth eeprom channels = do
      (_, channels') ← load_configs st channels
      let config = stored_ipv4 (saved.read_ipv4 st)
      hwaddr ← eeprom
      server ← start_server eth hwaddr config
      some (entered setup st config server channels')

module _ ⦃p : Platform⦄ ⦃f : BitField⦄ ⦃spi : Spi⦄ (fuel : ℕ) (rest : Periphery)
    ⦃h : Host ⦃b = board_of fuel rest⦄⦄ ⦃t : TcpSocket⦄ ⦃k : Tcp⦄ ⦃i : Interface⦄ where
  -- `main` up to its loop; `none` is a panic.
  unfoldable pub boot :
      Peripherals
      → Saved ⦃b = board_of fuel rest⦄
      → spi.Dev
      → rest.Env
      → Ethernet
      → Option (List ℕ)
      → Option (Loop ⦃b = board_of fuel rest⦄)
  unfolding start open_store Start.new Pins.setup
  boot d saved dev env eth eeprom = do
    let setup = Pins.setup d
    let st = opened ⦃b = board_of fuel rest⦄ saved
    channels ← Start.new fuel rest setup.pins dev env
    start ⦃b = board_of fuel rest⦄ setup saved st eth eeprom channels
