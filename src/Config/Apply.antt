-- ===== src/Config/Apply.antt =====
-- Loading a configuration of `src/config.rs` into a channel.
use mathlib.Core.Path.{subst}
use thermostat.Prelude.{ℕ, ◌≡◌, refl, sym, ◌∙◌, inl, inr, Option, some, List, arith}
use thermostat.Platform.{Platform}
use thermostat.Platform.Laws.{IsLawful}
use thermostat.ChannelState.{OutputLimits}
use thermostat.Ad7172.Filter.{PostFilter}
use thermostat.Channels.{Board, Channel, Channels, channel_at, modify_state}
use thermostat.Channels.Output.{
  set_i, set_max_v, set_max_i_pos, set_max_i_neg, set_polarity, limited, limited_to, max_tec_i,
  max_tec_v,
}
use thermostat.Channels.Control.{set_postfilter}
use thermostat.Channels.Limits.Current.{driven-Carries}
use thermostat.Channels.Limits.Pins.{
  PinsCarry, with_amps-PinsCarry, with_amps-again, limited_to-Takes, limited_to-Takes_again,
}
use thermostat.Channels.Limits.Safety.{BusWorks, limited-IsSafe, channel_at_env}
use thermostat.Config.{ChannelConfig, written, apply_limits, apply, loaded_filter}
use thermostat.Config.View.{
  View, duties_of, duties_at-same, with_state, with_max_v, with_max_i_pos, with_max_i_neg,
  with_current, repolarised,
}
use thermostat.Config.Chain.{
  Sees, Runs, Runs->>=, Runs-modify_state, Runs-set_max_v, Runs-set_max_i_pos, Runs-set_max_i_neg,
  Runs-set_i, Runs-set_polarity, Runs-pure,
}
use thermostat.Config.Shows.{FilterWorks, TakesLimits, Shows, OutputsShow}

module _ ⦃p : Platform⦄ ⦃b : Board⦄ where
  module _ (laws : IsLawful) (works : BusWorks) (filter_works : FilterWorks) where
    module _ {X : Type 0} (look : b.Env → X)
        (apart : (e : b.Env) (j : ℕ) (bytes : List ℕ)
          → look (b.dac_transfer e j bytes).1 ≡ look e) where
      Runs-set_postfilter :
          (i : ℕ) (f : Option PostFilter) (x : X) (s : Channels) (v : View X)
          → ((e : b.Env) → look (b.set_postfilter e i f).1 ≡ x)
          → Runs look i (set_postfilter i f) s v (record v { seen = x })
      unfolding set_postfilter
      Runs-set_postfilter i f x s v put sees =
          let e = (b.set_postfilter s.env i f).1 in
          (
            tt,
            record s { env = e },
            ground (arith, filter_works s.env i f),
            record {
              channel = channel_at_env i s e ∙ sees.channel;
              duties = duties_at-same i s (record s { env = e }) refl refl ∙ sees.duties;
              seen = put s.env;
            },
          )

      -- What is seen after the limits, and before the last step of `apply`.
      abbrev limited_view : OutputLimits → ℕ → View X → View X
      limited_view l i v =
          with_max_i_neg i l.max_i_neg (with_max_i_pos i l.max_i_pos (with_max_v i l.max_v v))

      abbrev loaded : ChannelConfig → ℕ → X → View X → View X
      loaded cfg i x v =
          with_current cfg.i_set
            (record (limited_view cfg.output_limits i (with_state (written cfg) v)) { seen = x })

      Runs-apply_limits :
          (l : OutputLimits) (i : ℕ) (s : Channels) (v : View X)
          → Runs look i (apply_limits l i) s v (limited_view l i v)
      unfolding apply_limits
      Runs-apply_limits l i s v =
          let v₁ = with_max_v i l.max_v v in
          let v₂ = with_max_i_pos i l.max_i_pos v₁ in
          let v₃ = with_max_i_neg i l.max_i_neg v₂ in
          Runs->>= look i (set_max_v i l.max_v) _ s v v₁ v₃ (Runs-set_max_v look i l.max_v s v)
            λ _ s₁.
              Runs->>= look i (set_max_i_pos i l.max_i_pos) _ s₁ v₁ v₂ v₃
                (Runs-set_max_i_pos look i l.max_i_pos s₁ v₁)
                λ _ s₂.
                  Runs->>= look i (set_max_i_neg i l.max_i_neg) _ s₂ v₂ v₃ v₃
                    (Runs-set_max_i_neg look i l.max_i_neg s₂ v₂) λ _ s₃. Runs-pure look i tt s₃ v₃

      Runs-apply :
          (cfg : ChannelConfig) (i : ℕ) (x : X) (s : Channels) (v v' : View X)
          → ((e : b.Env) → look (b.set_postfilter e i (loaded_filter cfg.adc_postfilter)).1 ≡ x)
          → ((s' : Channels) → Runs look i (set_polarity i cfg.polarity) s' (loaded cfg i x v) v')
          → Runs look i (apply cfg i) s v v'
      unfolding apply
      Runs-apply cfg i x s v v' put last =
          let v₁ = with_state (written cfg) v in
          let v₂ = limited_view cfg.output_limits i v₁ in
          let v₃ = record v₂ { seen = x } in
          let f = loaded_filter cfg.adc_postfilter in
          Runs->>= look i (modify_state i (written cfg)) _ s v v₁ v'
            (Runs-modify_state look i (written cfg) s v)
            λ _ s₁.
              Runs->>= look i (apply_limits cfg.output_limits i) _ s₁ v₁ v₂ v'
                (Runs-apply_limits cfg.output_limits i s₁ v₁)
                λ _ s₂.
                  Runs->>= look i (set_postfilter i f) _ s₂ v₂ v₃ v'
                    (Runs-set_postfilter i f x s₂ v₂ put)
                    λ _ s₃.
                      Runs->>= look i (set_i i cfg.i_set) _ s₃ v₃ (loaded cfg i x v) v'
                        (Runs-set_i look laws works apart i cfg.i_set s₃ v₃) λ _ s₄. last s₄

      -- What `apply` leaves.
      abbrev Settles : ℕ → ChannelConfig → X → Channel → View X → Type 0
      Settles i cfg x c v' =
          Shows cfg v'.channel
          × OutputsShow i cfg v'.channel v'.duties
          × (v'.seen ≡ x)
          × (v'.channel.shdn ≡ c.shdn)

      takes_limits :
          (l : OutputLimits)
          → TakesLimits l (record {
            max_v = limited_to max_tec_v l.max_v;
            max_i_pos = limited_to max_tec_i l.max_i_pos;
            max_i_neg = limited_to max_tec_i l.max_i_neg;
          })
      takes_limits l = (
        limited_to-Takes laws 43 1 l.max_v,
        limited_to-Takes laws 20 1 l.max_i_pos,
        limited_to-Takes laws 20 1 l.max_i_neg,
      )

      loaded-Settles :
          (i : ℕ) (cfg : ChannelConfig) (x : X) (v : View X)
          → v.channel.state.polarity ≡ cfg.polarity
          → Settles i cfg x v.channel (loaded cfg i x v)
      loaded-Settles i cfg x v same =
          let c = (limited_view cfg.output_limits i (with_state (written cfg) v)).channel in
          let l = c.state.output_limits in
          (
            (
              refl,
              refl,
              refl,
              refl,
              refl,
              same,
              limited-IsSafe laws cfg.i_set,
              inl refl,
              takes_limits cfg.output_limits,
            ),
            (
              driven-Carries c cfg.i_set,
              subst (λ q. PinsCarry i q l (loaded cfg i x v).duties) same
                  (with_amps-PinsCarry i v.channel.state.polarity l v.duties),
            ),
            refl,
            refl,
          )

      repolarised-Settles :
          (i : ℕ) (cfg : ChannelConfig) (x : X) (v : View X)
          → Settles i cfg x v.channel (repolarised i cfg.polarity (loaded cfg i x v))
      repolarised-Settles i cfg x v =
          let v₁ = loaded cfg i x v in
          let v₂ = repolarised i cfg.polarity v₁ in
          let c = (with_state (λ st. record st { polarity = cfg.polarity }) v₁).channel in
          let l = v₂.channel.state.output_limits in
          let (volt, plus, minus) = takes_limits cfg.output_limits in
          let asked = cfg.output_limits in
          (
            (
              refl,
              refl,
              refl,
              refl,
              refl,
              refl,
              limited-IsSafe laws (limited cfg.i_set),
              inr refl,
              (
                volt,
                limited_to-Takes_again laws 20 1 asked.max_i_pos _ plus,
                limited_to-Takes_again laws 20 1 asked.max_i_neg _ minus,
              ),
            ),
            (
              driven-Carries c (limited cfg.i_set),
              with_amps-again i v.channel.state.polarity cfg.polarity
                  (limited_to max_tec_i asked.max_i_pos) (limited_to max_tec_i asked.max_i_neg) l
                  v.duties,
            ),
            refl,
            refl,
          )

      apply_run :
          (cfg : ChannelConfig) (i : ℕ) (x : X) (s : Channels) (v : View X)
          → ((e : b.Env) → look (b.set_postfilter e i (loaded_filter cfg.adc_postfilter)).1 ≡ x)
          → Sees look i s v
          → (s' : Channels) × (v' : View X) × (apply cfg i s ≡ some (tt, s'))
            × Sees look i s' v'
            × Settles i cfg x v.channel v'
      apply_run cfg i x s v put sees =
          let v₁ = loaded cfg i x v in
          let (v', last, which) = Runs-set_polarity look laws works apart i cfg.polarity v₁ in
          let (r, s', run, sees') = Runs-apply cfg i x s v v' put last sees in
          (
            s',
            v',
            run,
            sees',
            elim which [
              | inl (e, same) ↦
                  subst (Settles i cfg x v.channel) (sym e) (loaded-Settles i cfg x v same)
              | inr e ↦ subst (Settles i cfg x v.channel) (sym e) (repolarised-Settles i cfg x v)
            ],
          )

    -- To apply a configuration does not switch a channel on or off.
    pub apply_shdn :
        (cfg : ChannelConfig) (i : ℕ) (s : Channels) (c : Channel)
        → channel_at i s ≡ some c
        → (s' : Channels) × (c' : Channel) × (apply cfg i s ≡ some (tt, s'))
          × (channel_at i s' ≡ some c')
          × (c'.shdn ≡ c.shdn)
          × Shows cfg c'
    apply_shdn cfg i s c has =
        let (d, pins) = duties_of i s c has in
        let (s', v', run, sees', (shows, outputs, filter, shdn)) =
          apply_run (λ e. tt) (λ e j bytes. refl) cfg i tt s
            (record { channel = c; duties = d; seen = tt }) (λ e. refl)
            (record { channel = has; duties = pins; seen = refl }) in
        (s', v'.channel, run, sees'.channel, shdn, shows)
