-- ===== src/Config/Shows.antt =====
-- What a channel shows of a configuration of `src/config.rs`, written apart from `apply`.
use thermostat.Prelude.{ℕ, ◌≡◌, refl, ◌⊎◌, true, Option, none, some, List}
use thermostat.Platform.{Platform}
use thermostat.ChannelState.{OutputLimits}
use thermostat.Ad7172.Filter.{PostFilter, invalid, f27sps, f25sps, f20sps, f16sps}
use thermostat.Channels.{Board, Channel, Duties}
use thermostat.Channels.Output.{limited, max_tec_i, max_tec_v}
use thermostat.Channels.Limits.Current.{Carries}
use thermostat.Channels.Limits.Pins.{Takes, PinsCarry}
use thermostat.Channels.Limits.Safety.{IsSafe}
use thermostat.Config.{ChannelConfig, loaded_filter}

-- The filter that a stored one stands for: `Invalid` stands for none.
abbrev pub meant : PostFilter → Option PostFilter
meant f27sps = some f27sps
meant f25sps = some f25sps
meant f20sps = some f20sps
meant f16sps = some f16sps
meant invalid = none

pub loaded_filter-meant : (f : PostFilter) → loaded_filter f ≡ meant f
loaded_filter-meant f27sps = refl
loaded_filter-meant f25sps = refl
loaded_filter-meant f20sps = refl
loaded_filter-meant f16sps = refl
loaded_filter-meant invalid = refl

module _ ⦃p : Platform⦄ ⦃b : Board⦄ where
  -- The converter takes every setting of its filter.
  abbrev pub FilterWorks : Type 0
  FilterWorks = (e : b.Env) (i : ℕ) (f : Option PostFilter) → (b.set_postfilter e i f).0 ≡ true

  -- The filter that is read, and that the converter keeps the one it was given, also when a DAC is
  -- written to.
  abbrev pub read_filter : ℕ → b.Env → Option (Option PostFilter)
  read_filter i e = (b.get_postfilter e i).0

  pub record FilterKeeps : Type 0 where
    pub kept :
        (e : b.Env) (i : ℕ) (f : Option PostFilter)
        → read_filter i (b.set_postfilter e i f).1 ≡ some f
    pub apart :
        (e : b.Env) (i j : ℕ) (bytes : List ℕ)
        → read_filter i (b.dac_transfer e j bytes).1 ≡ read_filter i e

  -- The limits as taken.
  abbrev pub TakesLimits : OutputLimits → OutputLimits → Type 0
  TakesLimits asked l =
      Takes max_tec_v asked.max_v l.max_v
      × Takes max_tec_i asked.max_i_pos l.max_i_pos
      × Takes max_tec_i asked.max_i_neg l.max_i_neg

  -- The channel shows the configuration: every setting is in place, and what was cut is safe.
  abbrev pub Shows : ChannelConfig → Channel → Type 0
  Shows cfg c =
      (c.state.center ≡ cfg.center)
      × (c.state.pid.parameters ≡ cfg.pid)
      × (c.state.pid.target ≡ p.widen cfg.pid_target)
      × (c.state.pid_engaged ≡ cfg.pid_engaged)
      × (c.state.bp ≡ cfg.bp)
      × (c.state.polarity ≡ cfg.polarity)
      × IsSafe c.state.i_set
      × ((c.state.i_set ≡ limited cfg.i_set) ⊎ (c.state.i_set ≡ limited (limited cfg.i_set)))
      × TakesLimits cfg.output_limits c.state.output_limits

  -- Also the outputs show it: the DAC carries the current, and the limit pins the limits.
  abbrev pub OutputsShow : ℕ → ChannelConfig → Channel → Duties → Type 0
  OutputsShow i cfg c d = Carries c × PinsCarry i cfg.polarity c.state.output_limits d
