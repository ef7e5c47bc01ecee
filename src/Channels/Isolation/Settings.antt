-- ===== src/Channels/Isolation/Settings.antt =====
-- The configuration of one channel, and the commands for it.
use thermostat.Prelude.{ℕ, refl}
use thermostat.Platform.{Platform}
use thermostat.Config
use thermostat.Channels.{
  Board, pure, ◌>>=◌, with_env, unwrap, get_state, get_max_v, get_max_i_pos, get_max_i_neg,
  modify_state,
}
use thermostat.Channels.Output.{set_i, set_max_v, set_max_i_pos, set_max_i_neg}
use thermostat.Channels.Control.{set_postfilter, get_postfilter}
use thermostat.Channels.Isolation.{
  IsLocal, IsLocal->>=, IsLocal-pure, IsLocal-with_env, IsLocal-unwrap, IsLocal-get_state,
  IsLocal-modify_state,
}
use thermostat.Channels.Isolation.Outputs.{
  IsLocal->>, IsLocal-set_i, IsLocal-set_max_v, IsLocal-set_max_i_pos, IsLocal-set_max_i_neg,
  IsLocal-set_polarity, IsLocal-set_postfilter,
}
use thermostat.ChannelState.{OutputLimits}
use thermostat.Config.{ChannelConfig, limits_of, apply_limits, apply, written, loaded_filter}

module _ ⦃p : Platform⦄ ⦃b : Board⦄ where
  IsLocal-apply_limits : (l : OutputLimits) (i : ℕ) → IsLocal i (apply_limits l i)
  unfolding apply_limits
  IsLocal-apply_limits l i = IsLocal->> i (set_max_v i l.max_v) _ (IsLocal-set_max_v i l.max_v) (
      IsLocal->> i (set_max_i_pos i l.max_i_pos) _ (IsLocal-set_max_i_pos i l.max_i_pos) (
        IsLocal->> i (set_max_i_neg i l.max_i_neg) (pure tt) (IsLocal-set_max_i_neg i l.max_i_neg)
          (IsLocal-pure i tt)))

  -- A configuration that is loaded into one channel.
  pub IsLocal-apply : (cfg : ChannelConfig) (i : ℕ) → IsLocal i (apply cfg i)
  unfolding apply
  IsLocal-apply cfg i =
      let f = loaded_filter cfg.adc_postfilter in
      IsLocal->> i (modify_state i (written cfg)) _ (IsLocal-modify_state i (written cfg)) (
        IsLocal->> i (apply_limits cfg.output_limits i) _ (IsLocal-apply_limits cfg.output_limits i)
          (IsLocal->> i (set_postfilter i f) _ (IsLocal-set_postfilter i f) (
            IsLocal->> i (set_i i cfg.i_set) _ (IsLocal-set_i i cfg.i_set)
              (IsLocal-set_polarity i cfg.polarity))))

  IsLocal-get_max_v : (i : ℕ) → IsLocal i (get_max_v i)
  unfolding get_max_v
  IsLocal-get_max_v i = IsLocal->>= i (get_state i) _ (IsLocal-get_state i) λ st s. refl

  IsLocal-get_max_i_pos : (i : ℕ) → IsLocal i (get_max_i_pos i)
  unfolding get_max_i_pos
  IsLocal-get_max_i_pos i = IsLocal->>= i (get_state i) _ (IsLocal-get_state i) λ st s. refl

  IsLocal-get_max_i_neg : (i : ℕ) → IsLocal i (get_max_i_neg i)
  unfolding get_max_i_neg
  IsLocal-get_max_i_neg i = IsLocal->>= i (get_state i) _ (IsLocal-get_state i) λ st s. refl

  IsLocal-limits_of : (i : ℕ) → IsLocal i (limits_of i)
  unfolding limits_of
  IsLocal-limits_of i = IsLocal->>= i (get_max_v i) _ (IsLocal-get_max_v i) λ _.
      IsLocal->>= i (get_max_i_pos i) _ (IsLocal-get_max_i_pos i)
        λ _. IsLocal->>= i (get_max_i_neg i) _ (IsLocal-get_max_i_neg i) λ _ s. refl

  -- A configuration that is made of one channel.
  pub IsLocal-new : (i : ℕ) → IsLocal i (Config.new i)
  unfolding Config.new get_postfilter
  IsLocal-new i =
      let read = λ (e : b.Env). b.get_postfilter e i in
      IsLocal->>= i (limits_of i) _ (IsLocal-limits_of i) λ limits.
        IsLocal->>= i (with_env read >>= unwrap) _
          (IsLocal->>= i (with_env read) unwrap (IsLocal-with_env i read) (IsLocal-unwrap i))
          λ filter. IsLocal->>= i (get_state i) _ (IsLocal-get_state i) λ st s. refl
