-- ===== src/Main/Start/Address.antt =====
-- A network configuration in the flash and the start of the program.
use thermostat.Prelude.{ℕ, ◌<◌, ◌≡◌, refl, ap, ◌∙◌, true, Option, none, some, List, ok}
use thermostat.Platform.{Platform}
use thermostat.Command.{Command, Ipv4Config}
use thermostat.HwRev.{HwRev}
use thermostat.Ad7172.Regs.{BitField}
use thermostat.Ad7172.Bus.{Spi}
use thermostat.Nom.{Nom}
use thermostat.Parse.{FloatText}
use thermostat.Channels.{Board, Channels}
use thermostat.Channels.Converter.{Periphery, board_of}
use thermostat.Channels.Start
use thermostat.Pins
use thermostat.Pins.{Peripherals, Setup}
use thermostat.FlashStore.{open_store}
use thermostat.Handler.{Host}
use thermostat.Handler.SendLine.{TcpSocket}
use thermostat.Server.{Tcp, Interface, split_ipv4_config, ◌>>=◌}
use thermostat.Main.{Texts, Context, Loop, apply_ipv4, run_command}
use thermostat.Main.Address.{PrefixPanics, run_command-apply_ipv4}
use thermostat.Main.Start.{
  Ethernet, Saved, load_configs, opened, stored_ipv4, start_server, start, boot,
}

bind_none :
    {A B : Type 0} (o : Option A) (k : A → Option B) → ((a : A) → k a ≡ none) → (o >>= k) ≡ none
bind_none none k h = refl
bind_none (some a) k h = h a

none_bind : {A B : Type 0} (o : Option A) (k : A → Option B) → o ≡ none → (o >>= k) ≡ none
none_bind none k h = refl
none_bind (some a) k h = absurd (cc)

module _ ⦃t : TcpSocket⦄ ⦃k : Tcp⦄ ⦃i : Interface⦄ where
  start_server_panics :
      (panics : PrefixPanics) (eth : Ethernet) (hwaddr : List ℕ) (config : Ipv4Config)
      → 32 < config.mask_len
      → start_server eth hwaddr config ≡ none
  unfolding start_server split_ipv4_config
  start_server_panics panics eth hwaddr config long =
      rw (panics config.address config.mask_len long) refl

module _ ⦃p : Platform⦄ ⦃b : Board⦄ ⦃h : Host⦄ where
  -- A value that was written under "ipv4" is what is read there after it, in a store that can be
  -- counted.
  abbrev pub KeepsIpv4 : Saved → Type 0
  KeepsIpv4 saved =
      (st : h.Store) (config : Ipv4Config)
      → (saved.sfkv.readable (h.write_ipv4 st config).1 ≡ true)
        × (saved.read_ipv4 (h.write_ipv4 st config).1 ≡ ok (some config))

  -- A store that can be counted is opened as it is.
  readable_opened :
      (saved : Saved) (st : h.Store)
      → saved.sfkv.readable st ≡ true
      → opened (record saved { store = st }) ≡ st
  unfolding open_store
  readable_opened saved st e = rw e refl

  module _ ⦃t : TcpSocket⦄ ⦃k : Tcp⦄ ⦃i : Interface⦄ where
    start_panics :
        (panics : PrefixPanics) (setup : Setup) (saved : Saved) (st : h.Store) (eth : Ethernet)
        (eeprom : Option (List ℕ)) (channels : Channels) (config : Ipv4Config)
        → saved.read_ipv4 st ≡ ok (some config)
        → 32 < config.mask_len
        → start setup saved st eth eeprom channels ≡ none
    unfolding start stored_ipv4
    start_panics panics setup saved st eth eeprom channels config reads long =
        bind_none (load_configs st channels) _ λ r. bind_none eeprom _ λ hwaddr.
          none_bind (start_server eth hwaddr (stored_ipv4 (saved.read_ipv4 st))) _ (
            ap (λ v. start_server eth hwaddr (stored_ipv4 v)) reads
            ∙ start_server_panics panics eth hwaddr config long)

module _ ⦃p : Platform⦄ ⦃f : BitField⦄ ⦃spi : Spi⦄ (fuel : ℕ) (rest : Periphery)
    ⦃h : Host ⦃b = board_of fuel rest⦄⦄ ⦃t : TcpSocket⦄ ⦃k : Tcp⦄ ⦃i : Interface⦄ where
  -- No start survives such a configuration.
  boot_panics :
      (panics : PrefixPanics) (d : Peripherals) (saved : Saved ⦃b = board_of fuel rest⦄)
      (dev : spi.Dev) (env : rest.Env) (eth : Ethernet) (eeprom : Option (List ℕ))
      (config : Ipv4Config)
      → saved.read_ipv4 (opened ⦃b = board_of fuel rest⦄ saved) ≡ ok (some config)
      → 32 < config.mask_len
      → boot fuel rest d saved dev env eth eeprom ≡ none
  unfolding boot
  boot_panics panics d saved dev env eth eeprom config reads long =
      bind_none (Start.new fuel rest (Pins.setup d).pins dev env) _ λ channels.
        start_panics ⦃b = board_of fuel rest⦄ panics (Pins.setup d) saved
          (opened ⦃b = board_of fuel rest⦄ saved) eth eeprom channels config reads long

  module _ ⦃x : Texts ⦃b = board_of fuel rest⦄⦄ ⦃n : Nom⦄ ⦃fl : FloatText⦄ (hwrev : HwRev) where
    -- Where `Ipv4Cidr::new` panics on a prefix longer than 32 bits, and the flash keeps what is
    -- written under "ipv4": a command to set a network configuration with such a prefix is
    -- accepted, to apply it at the end of the turn panics, and so does every later start of the
    -- program on the flash that the command leaves, whatever the hardware does.
    pub run_command-boot :
        (panics : PrefixPanics) (saved : Saved ⦃b = board_of fuel rest⦄)
        (keeps : KeepsIpv4 ⦃b = board_of fuel rest⦄ saved) (config : Ipv4Config) (s : t.Socket)
        (c : Context ⦃b = board_of fuel rest⦄) (l : Loop ⦃b = board_of fuel rest⦄) (d : Peripherals)
        (dev : spi.Dev) (env : rest.Env) (eth : Ethernet) (eeprom : Option (List ℕ))
        → 32 < config.mask_len
        → (s' : t.Socket) × (c' : Context ⦃b = board_of fuel rest⦄) × (run_command
              ⦃b = board_of fuel rest⦄ hwrev
              (Command.set_ipv4 config)
              s
              c
            ≡ some (s', c'))
          × (apply_ipv4 ⦃b = board_of fuel rest⦄ c'.new_ipv4_config l ≡ none)
          × (boot fuel rest d (record saved { store = c'.world.store }) dev env eth eeprom ≡ none)
    run_command-boot panics saved keeps config s c l d dev env eth eeprom long =
        let (s', c', run, written, applied) =
          run_command-apply_ipv4 ⦃b = board_of fuel rest⦄ hwrev panics config s c l long in
        let (readable, reads) = keeps c.world.store config in
        (
          s',
          c',
          run,
          applied,
          boot_panics panics d (record saved { store = c'.world.store }) dev env eth eeprom config
              (ap
                  (λ st.
                    saved.read_ipv4 (opened ⦃b = board_of fuel rest⦄ (record saved { store = st })))
                  written
                ∙ ap saved.read_ipv4 (
                    readable_opened ⦃b = board_of fuel rest⦄ saved
                      (h.write_ipv4 c.world.store config).1 readable)
                ∙ reads)
              long,
        )
