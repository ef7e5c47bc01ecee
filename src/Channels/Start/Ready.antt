-- ===== src/Channels/Start/Ready.antt =====
-- What the loop at the end of `Channels::new` leaves.
use thermostat.Prelude.{ℕ, ◌≡◌, refl, ap, sym, ◌∙◌, some}
use mathlib.Core.Path.{subst}
use mathlib.Core.Option.{some-injective}
use thermostat.Platform.{Platform, nought}
use thermostat.Platform.Laws.{IsLawful}
use thermostat.ChannelState.{ChannelState}
use thermostat.Channels.{Board, Channel, Channels, pure, channel_at}
use thermostat.Channels.Output.{set_i, limited}
use thermostat.Channels.Limits.{driven}
use thermostat.Channels.Limits.Safety.{BusWorks, sets_current}
use thermostat.Channels.Calibrate.{calibrate_dac_value}
use thermostat.Channels.Calibrate.Readings.{bind_run}
use thermostat.Channels.Calibrate.Return.{calibrate_dac_value_lem}
use thermostat.Channels.Isolation.{beside, After, IsLocal, IsLocal-pure}
use thermostat.Channels.Isolation.Outputs.{IsLocal->>, IsLocal-set_i}
use thermostat.Channels.Isolation.Measures.{IsLocal-calibrate_dac_value}
use thermostat.Channels.Start.{ready_channel, ready_channels}

module _ ⦃p : Platform⦄ ⦃b : Board⦄ where
  -- A channel is ready: calibrated and at no current; its pins and its switch are as they were.
  pub record IsReady (c c' : Channel) : Type 0 where
    pub shdn : c'.shdn ≡ c.shdn
    pub vref_analog : c'.vref_analog ≡ c.vref_analog
    pub pid_engaged : c'.state.pid_engaged ≡ c.state.pid_engaged
    pub i_set : c'.state.i_set ≡ limited nought

  IsLocal-ready_channel : (i : ℕ) → IsLocal i (ready_channel i)
  unfolding ready_channel
  IsLocal-ready_channel i =
      IsLocal->> i (calibrate_dac_value i) _ (IsLocal-calibrate_dac_value i)
        (IsLocal->> i (set_i i nought) (pure tt) (IsLocal-set_i i nought) (IsLocal-pure i tt))

  module _ (laws : IsLawful) (works : BusWorks) where
    ready_channel_run :
        (i : ℕ) (s : Channels) (c : Channel)
        → channel_at i s ≡ some c
        → (s' : Channels) × (c' : Channel) × (ready_channel i s ≡ some (tt, s'))
          × (channel_at i s' ≡ some c')
          × IsReady c c'
          × (beside i s' ≡ beside i s)
    unfolding ready_channel
    ready_channel_run i s c has =
        let (s₁, c₁, run₁, has₁, state, _, shdn, analog, _) =
          calibrate_dac_value_lem works i s c has in
        let (x, s₂, run₂, has₂, _, _, _, _, _, _, _) =
          sets_current laws works i nought s₁ c₁ has₁ in
        let run =
          bind_run (calibrate_dac_value i) _ s tt s₁ run₁
          ∙ bind_run (set_i i nought) _ s₁ x s₂ run₂ in
        (
          s₂,
          driven c₁ nought,
          run,
          has₂,
          record {
            shdn = shdn;
            vref_analog = analog;
            pid_engaged = ap (λ (st : ChannelState). st.pid_engaged) state;
            i_set = refl;
          },
          subst (After (λ s'. beside i s' ≡ beside i s)) run (IsLocal-ready_channel i s),
        )

    -- With lawful arithmetic and a DAC bus that works, the loop returns, and both channels are
    -- ready.
    pub ready_channels_run :
        (s : Channels)
        → (s' : Channels) × (ready_channels s ≡ some (tt, s'))
          × IsReady s.channel0 s'.channel0
          × IsReady s.channel1 s'.channel1
    unfolding ready_channels channel_at
    ready_channels_run s =
        let (s₁, c₀, run₁, has₁, ready₀, kept₁) = ready_channel_run 0 s s.channel0 refl in
        let (s₂, c₁, run₂, has₂, ready₁, kept₂) = ready_channel_run 1 s₁ s₁.channel1 refl in
        (
          s₂,
          bind_run (ready_channel 0) _ s tt s₁ run₁ ∙ run₂,
          subst (IsReady s.channel0) (sym (some-injective _ _ has₁) ∙ sym (ap (λ q. q.0) kept₂))
              ready₀,
          subst (λ c. IsReady c s₂.channel1) (ap (λ q. q.0) kept₁)
              (subst (IsReady s₁.channel1) (sym (some-injective _ _ has₂)) ready₁),
        )
