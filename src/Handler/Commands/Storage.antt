-- ===== src/Handler/Commands/Storage.antt =====
-- `save` and `load` of `src/command_handler.rs` over a flash store that keeps what it is given.
use thermostat.Prelude.{ℕ, ◌≡◌, ◌⊎◌, true, false, Option, none, some, [], ◌∷◌, ◌++◌, ok}
use thermostat.Platform.{Platform, nought}
use thermostat.Command.{Command}
use thermostat.Ad7172.Filter.{PostFilter, invalid}
use thermostat.Channels.{Board, Channel, Channels}
use thermostat.Channels.Output.{limited, max_tec_i}
use thermostat.Channels.Limits.Safety.{IsSafe}
use thermostat.Config
use thermostat.Config.{ChannelConfig, config_of}
use thermostat.Config.Shows.{TakesLimits, Shows}
use thermostat.HwRev.{HwRev}
use thermostat.Handler.{handled, Host, done, World}
use thermostat.Handler.Commands.Dispatch.{handle_command}

module _ ⦃p : Platform⦄ ⦃b : Board⦄ ⦃h : Host⦄ where
  -- A configuration that is written is read back.
  abbrev pub FlashWorks : Type 0
  FlashWorks =
      (st : h.Store) (c : ℕ) (cfg : ChannelConfig)
      → ((h.write_config st c cfg).0 ≡ ok tt)
        × (h.read_config (h.write_config st c cfg).1 c ≡ ok (some cfg))

  -- The handler returns `handled` and the world.
  abbrev pub Handles : HwRev → Command → World → World → Type 0
  Handles hwrev cmd w w' = handle_command hwrev cmd w ≡ some (ok handled, w')

  abbrev saved : World → ℕ → ChannelConfig → b.Env → World
  saved w i cfg e = record w {
    channels = record (w.channels) { env = e };
    store = (h.write_config w.store i cfg).1;
    sent = w.sent ++ done ∷ [];
  }

  abbrev Saves : ℕ → HwRev → World → Option PostFilter → b.Env → Channel → Type 0
  Saves i hwrev w f e c =
      Handles hwrev (Command.save (some i)) w (saved w i (config_of c.state f) e)

  -- What a filter is after it was stored: a code that is no filter comes back as none.
  abbrev pub kept_filter : Option PostFilter → Option PostFilter
  kept_filter (some invalid) = none
  kept_filter f = f

  -- The channel has what another one had: its settings, the target as an `f32`, its limits, and its
  -- current if the PID was off; an engaged channel is given no current.
  pub record PutsBack (c c' : Channel) : Type 0 where
    pub center : c'.state.center ≡ c.state.center
    pub parameters : c'.state.pid.parameters ≡ c.state.pid.parameters
    pub target : c'.state.pid.target ≡ p.widen (p.narrow c.state.pid.target)
    pub pid_engaged : c'.state.pid_engaged ≡ c.state.pid_engaged
    pub bp : c'.state.bp ≡ c.state.bp
    pub polarity : c'.state.polarity ≡ c.state.polarity
    pub limits : TakesLimits c.state.output_limits c'.state.output_limits
    pub safe : IsSafe c'.state.i_set
    pub current :
        c.state.pid_engaged ≡ false
        → p.lt (p.neg max_tec_i) c.state.i_set ≡ true
        → p.lt c.state.i_set max_tec_i ≡ true
        → c'.state.i_set ≡ c.state.i_set
    pub no_current :
        c.state.pid_engaged ≡ true
        → (c'.state.i_set ≡ limited nought) ⊎ (c'.state.i_set ≡ limited (limited nought))
