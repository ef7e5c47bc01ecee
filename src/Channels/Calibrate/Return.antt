-- ===== src/Channels/Calibrate/Return.antt =====
-- The calibration of `src/channels.rs` returns, and what it leaves.
use thermostat.Prelude.{ℕ, List, ◌≡◌, ◌∙◌, ◌⊎◌, sym, ap, some, arith}
use mathlib.Core.Path.{subst}
use thermostat.Platform.{Platform, nought}
use thermostat.Dac.{max_value, frame}
use thermostat.Channels.{Board, Channel, Channels, channel_at, modify_channel, modify_state}
use thermostat.ChannelState.{ChannelState}
use thermostat.Channels.Output.{write_dac, set_dac, dac_out_v_max}
use thermostat.Channels.Limits.Safety.{BusWorks}
use thermostat.Channels.Calibrate.{sum_center, Best, vref_for, search, calibrate_dac_value}
use thermostat.Channels.Calibrate.Readings.{bind_run, Leads}
use thermostat.Channels.Calibrate.Search.{
  Calibrates, Calibrates-refl, IsWord, write_dac-Leads, search-Leads, sum_center-Reads,
  modify_channel-Leads,
}

module _ ⦃p : Platform⦄ ⦃b : Board⦄ where
  -- The frame of zero volt.
  abbrev pub off_frame : List ℕ
  off_frame = frame (p.to_u32 (p.mul (p.div nought dac_out_v_max) (p.of_u32 max_value)))

module _ ⦃p : Platform⦄ ⦃b : Board⦄ (works : BusWorks) (i : ℕ) where
  abbrev parked : Channel → Channel
  parked c = record c { dac = off_frame; state = record (c.state) { dac_value = nought } }

  set_dac-Leads :
      (s : Channels) (c : Channel)
      → channel_at i s ≡ some c
      → Leads (λ _ c'. c' ≡ parked c) i (set_dac i nought) s
  unfolding set_dac modify_state
  set_dac-Leads s c has =
      let park = λ (d : Channel). record d { state = record (d.state) { dac_value = nought } } in
      let value = p.to_u32 (p.mul (p.div nought dac_out_v_max) (p.of_u32 max_value)) in
      let (_, s₁, c₁, run₁, has₁, same₁) = write_dac-Leads works i value s c has in
      let (_, s₂, c₂, run₂, has₂, same₂) = modify_channel-Leads i park s₁ c₁ has₁ in
      (
        nought,
        s₂,
        c₂,
        bind_run (write_dac i value) _ s tt s₁ run₁
            ∙ bind_run (modify_channel i park) _ s₁ tt s₂ run₂,
        has₂,
        same₂ ∙ ap park same₁,
      )

  -- With a DAC bus that works, the calibration of a channel that exists returns, whatever is
  -- measured: the DAC is left at zero volt, the pins and the rest of the state stay, and the
  -- measured reference is the one before or the voltage of a DAC value between 1 and the full scale.
  pub calibrate_dac_value_lem :
      (s : Channels) (c : Channel)
      → channel_at i s ≡ some c
      → (s' : Channels) × (c' : Channel) × (calibrate_dac_value i s ≡ some (tt, s'))
        × (channel_at i s' ≡ some c')
        × (c'.state ≡ record (c.state) { dac_value = nought })
        × (c'.dac ≡ off_frame)
        × (c'.shdn ≡ c.shdn)
        × (c'.vref_analog ≡ c.vref_analog)
        × ((c'.vref_meas ≡ c.vref_meas) ⊎ ((v : ℕ) × IsWord v × (c'.vref_meas ≡ vref_for v)))
  unfolding calibrate_dac_value
  calibrate_dac_value_lem s c has =
      let (sum, s₁, c₁, run₁, has₁, same₁) = sum_center-Reads works i 50 nought s c has in
      let target = p.div sum (p.lit 500 1) in
      let first : Best = record { start_value = 1; best_error = p.lit 1000 1 } in
      let (best, s₂, c₂, run₂, has₂, (kept, word)) =
        search-Leads works i c target 13 first s₁ c₁ has₁
          (subst (Calibrates c) (sym same₁) (Calibrates-refl c)) (omega arith, omega arith) in
      let (zero_volt, s₃, c₃, run₃, has₃, same) = set_dac-Leads s₂ c₂ has₂ in
      (
        s₃,
        c₃,
        bind_run (sum_center i 50 nought) _ s sum s₁ run₁
            ∙ bind_run (search i target 13 first) _ s₁ best s₂ run₂
            ∙ bind_run (set_dac i nought) _ s₂ zero_volt s₃ run₃,
        has₃,
        ap (λ (d : Channel). d.state) same
            ∙ ap (λ (st : ChannelState). record st { dac_value = nought }) kept.state,
        ap (λ (d : Channel). d.dac) same,
        ap (λ (d : Channel). d.shdn) same ∙ kept.shdn,
        ap (λ (d : Channel). d.vref_analog) same ∙ kept.vref_analog,
        subst (λ u. (u ≡ c.vref_meas) ⊎ ((v : ℕ) × IsWord v × (u ≡ vref_for v)))
            (sym (ap (λ (d : Channel). d.vref_meas) same)) kept.vref_meas,
      )
