-- ===== src/Main/Start/Safety.antt =====
-- What the start of `src/main.rs` leaves of the channels.
use thermostat.Prelude.{
  ℕ, ◌≡◌, refl, ap, sym, ◌∙◌, Bool, false, Option, none, some, List, Result, ok, err,
}
use mathlib.Core.Path.{subst}
use mathlib.Core.Option.{some-injective}
use thermostat.Platform.{Platform, nought}
use thermostat.Platform.Laws.{IsLawful}
use thermostat.Ad7172.Filter.{ChannelCalibration}
use thermostat.ChannelState.{new_state}
use thermostat.Channels.{Board, Channel, Channels, channel_at, new_channel}
use thermostat.Channels.Calibrate.Readings.{bind_run}
use thermostat.Channels.Isolation.{beside, After, IsLocal, IsLocal-pure}
use thermostat.Channels.Isolation.Settings.{IsLocal-apply}
use thermostat.Channels.Limits.Safety.{BusWorks, IsSafe, limited-IsSafe}
use thermostat.Channels.Start.{assemble, channel_of, ready_channels}
use thermostat.Channels.Start.Ready.{IsReady, ready_channels_run}
use thermostat.Config.{ChannelConfig}
use thermostat.Config.Shows.{FilterWorks}
use thermostat.Config.Apply.{apply_shdn}
use thermostat.Pins
use thermostat.Pins.{Peripherals}
use thermostat.Handler.{Host}
use thermostat.Handler.SendLine.{TcpSocket}
use thermostat.Server.{Tcp, Interface, Server, ◌>>=◌}
use thermostat.Main.{Loop}
use thermostat.Main.Start.{
  Ethernet, Saved, load_config, load_configs, stored_ipv4, start_server, opened, entered, start,
}

module _ ⦃p : Platform⦄ ⦃b : Board⦄ ⦃h : Host⦄ where
  -- Whether the PID is on after the start: as the flash says, or off.
  abbrev pub engaged_by : Result (Option ChannelConfig) h.Fault → Bool
  engaged_by (ok (some cfg)) = cfg.pid_engaged
  engaged_by (ok none) = false
  engaged_by (err e) = false

  -- A channel that is powered down, with a current that is safe and a switch at a value.
  pub record IsResting (engaged : Bool) (c : Channel) : Type 0 where
    pub shdn : c.shdn ≡ false
    pub i_set : IsSafe c.state.i_set
    pub pid_engaged : c.state.pid_engaged ≡ engaged

  IsLocal-load_config :
      (i : ℕ) (r : Result (Option ChannelConfig) h.Fault) → IsLocal i (load_config i r)
  unfolding load_config
  IsLocal-load_config i (ok (some cfg)) = IsLocal-apply cfg i
  IsLocal-load_config i (ok none) = IsLocal-pure i tt
  IsLocal-load_config i (err e) = IsLocal-pure i tt

  module _ (laws : IsLawful) (works : BusWorks) (filter_works : FilterWorks) where
    load_config_run :
        (i : ℕ) (r : Result (Option ChannelConfig) h.Fault) (s : Channels) (c : Channel)
        → channel_at i s ≡ some c
        → IsResting false c
        → (s' : Channels) × (c' : Channel) × (load_config i r s ≡ some (tt, s'))
          × (channel_at i s' ≡ some c')
          × IsResting (engaged_by r) c'
          × (beside i s' ≡ beside i s)
    unfolding load_config
    load_config_run i (ok (some cfg)) s c has rests =
        let (s', c', run, has', shdn, shows) = apply_shdn laws works filter_works cfg i s c has in
        let (_, _, _, engaged, _, _, safe, _, _) = shows in
        (
          s',
          c',
          run,
          has',
          record { shdn = shdn ∙ rests.shdn; i_set = safe; pid_engaged = engaged },
          subst (After (λ s''. beside i s'' ≡ beside i s)) run (IsLocal-apply cfg i s),
        )
    load_config_run i (ok none) s c has rests = (s, c, refl, has, rests, refl)
    load_config_run i (err e) s c has rests = (s, c, refl, has, rests, refl)

    -- With lawful arithmetic and buses that work: channels that rest still rest after what the
    -- flash has for them is loaded, but for their switches, which are as it says.
    load_configs_run :
        (st : h.Store) (s : Channels)
        → IsResting false s.channel0
        → IsResting false s.channel1
        → (s' : Channels) × (load_configs st s ≡ some (tt, s'))
          × IsResting (engaged_by (h.read_config st 0)) s'.channel0
          × IsResting (engaged_by (h.read_config st 1)) s'.channel1
    unfolding load_configs channel_at
    load_configs_run st s rests₀ rests₁ =
        let r₀ = h.read_config st 0 in
        let r₁ = h.read_config st 1 in
        let (s₁, c₀, run₁, has₁, loaded₀, kept₁) = load_config_run 0 r₀ s s.channel0 refl rests₀ in
        let (s₂, c₁, run₂, has₂, loaded₁, kept₂) =
          load_config_run 1 r₁ s₁ s₁.channel1 refl
            (subst (IsResting false) (sym (ap (λ q. q.0) kept₁)) rests₁) in
        (
          s₂,
          bind_run (load_config 0 r₀) _ s tt s₁ run₁ ∙ run₂,
          subst (IsResting (engaged_by r₀))
              (sym (some-injective _ _ has₁) ∙ sym (ap (λ q. q.0) kept₂)) loaded₀,
          subst (IsResting (engaged_by r₁)) (sym (some-injective _ _ has₂)) loaded₁,
        )

  IsReady-IsResting :
      (laws : IsLawful) (c c' : Channel)
      → c.shdn ≡ false
      → c.state.pid_engaged ≡ false
      → IsReady c c'
      → IsResting false c'
  IsReady-IsResting laws c c' shdn engaged ready = record {
    shdn = ready.shdn ∙ shdn;
    i_set = subst IsSafe (sym ready.i_set) (limited-IsSafe laws nought);
    pid_engaged = ready.pid_engaged ∙ engaged;
  }

  module _ ⦃t : TcpSocket⦄ ⦃k : Tcp⦄ ⦃i : Interface⦄ where
    -- The loop that the program enters: both channels rest, with the switches that the flash has.
    pub record IsSafeStart (st : h.Store) (l : Loop) : Type 0 where
      pub channel0 : IsResting (engaged_by (h.read_config st 0)) l.world.channels.channel0
      pub channel1 : IsResting (engaged_by (h.read_config st 1)) l.world.channels.channel1
      pub store : l.world.store ≡ st
      pub should_reset : l.should_reset ≡ false

    -- With lawful arithmetic, and a DAC bus and a filter register that work, once the converter is
    -- set up, with any calibrations, and where the EEPROM can be read and the network takes its
    -- configuration: whatever levels the pins have and whatever the flash holds, `Channels::new`
    -- and the rest of the start return, and the program enters its loop with both channels powered
    -- down and their currents between -2 A and 2 A; a PID is engaged exactly where the
    -- configuration of the channel in the flash says so.
    pub start-IsSafeStart :
        (laws : IsLawful) (works : BusWorks) (filter_works : FilterWorks) (d : Peripherals)
        (saved : Saved) (eth : Ethernet) (hwaddr : List ℕ)
        (calibrations : ChannelCalibration × ChannelCalibration) (env : b.Env) (server : Server)
        → start_server eth hwaddr (stored_ipv4 (saved.read_ipv4 (opened saved))) ≡ some server
        → (s : Channels) × (ready_channels (assemble (Pins.setup d).pins calibrations env)
            ≡ some (tt, s))
          × (l : Loop) × (start (Pins.setup d) saved (opened saved) eth (some hwaddr) s ≡ some l)
          × IsSafeStart (opened saved) l
    unfolding start assemble channel_of new_channel new_state Pins.setup
    start-IsSafeStart laws works filter_works d saved eth hwaddr calibrations env server networked =
        let made = assemble (Pins.setup d).pins calibrations env in
        let (s, run₁, ready₀, ready₁) = ready_channels_run laws works made in
        let (loaded, run₂, rests₀, rests₁) =
          load_configs_run laws works filter_works (opened saved) s
            (IsReady-IsResting laws made.channel0 s.channel0 refl refl ready₀)
            (IsReady-IsResting laws made.channel1 s.channel1 refl refl ready₁) in
        let config = stored_ipv4 (saved.read_ipv4 (opened saved)) in
        (
          s,
          run₁,
          entered (Pins.setup d) (opened saved) config server loaded,
          rw (start, run₂, networked, ◌>>=◌) refl,
          record { channel0 = rests₀; channel1 = rests₁; store = refl; should_reset = refl },
        )
