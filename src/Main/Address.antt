-- ===== src/Main/Address.antt =====
-- A network configuration from a command to the interface.
use thermostat.Prelude.{ℕ, ◌<◌, ◌≡◌, refl, none, some, List}
use thermostat.Platform.{Platform}
use thermostat.Command.{Command, Ipv4Config}
use thermostat.HwRev.{HwRev}
use thermostat.Channels.{Board}
use thermostat.Nom.{Nom}
use thermostat.Parse.{FloatText}
use thermostat.Handler.{Host}
use thermostat.Handler.SendLine.{TcpSocket}
use thermostat.Handler.Commands.{set_ipv4}
use thermostat.Handler.Commands.Dispatch.{handle_command}
use thermostat.Server.{Tcp, Interface, set_ipv4_config, split_ipv4_config}
use thermostat.Main.{Texts, Context, Loop, apply_ipv4, after, run_command}

-- What smoltcp documents of `Ipv4Cidr::new`: it panics on a prefix longer than 32 bits.
abbrev pub PrefixPanics : ⦃t : TcpSocket⦄ → ⦃i : Interface⦄ → Type 0
PrefixPanics ⦃t⦄ ⦃i⦄ = (address : List ℕ) (len : ℕ) → 32 < len → i.cidr address len ≡ none

module _ ⦃p : Platform⦄ ⦃b : Board⦄ ⦃h : Host⦄ ⦃t : TcpSocket⦄ ⦃k : Tcp⦄ ⦃i : Interface⦄ ⦃x : Texts⦄
    ⦃n : Nom⦄ ⦃f : FloatText⦄ (hwrev : HwRev) where
  -- Where `Ipv4Cidr::new` panics on a prefix longer than 32 bits: a command to set a network
  -- configuration with such a prefix is accepted and handed to the flash to be written, and
  -- to apply it at the end of the turn panics.
  pub run_command-apply_ipv4 :
      (panics : PrefixPanics) (config : Ipv4Config) (s : t.Socket) (c : Context) (l : Loop)
      → 32 < config.mask_len
      → (s' : t.Socket) × (c' : Context) × (run_command hwrev (Command.set_ipv4 config) s c
          ≡ some (s', c'))
        × (c'.world.store ≡ (h.write_ipv4 c.world.store config).1)
        × (apply_ipv4 c'.new_ipv4_config l ≡ none)
  unfolding run_command handle_command set_ipv4 after apply_ipv4 set_ipv4_config split_ipv4_config
  run_command-apply_ipv4 panics config s c l long =
      (_, _, refl, refl, rw (panics config.address config.mask_len long) refl)
