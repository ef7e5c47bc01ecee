-- ===== src/Config.antt =====
-- `src/config.rs`: the settings of a channel that are saved to flash and loaded from it.
pub mod View
pub mod Chain
pub mod Shows
pub mod Apply
use thermostat.Prelude.{ℕ, Bool, true, false, Option, none, some, List, if◌then◌else◌}
use thermostat.Platform.{Platform, nought}
use thermostat.Command.{CenterPoint, Polarity}
use thermostat.Ad7172.Filter.{PostFilter, f27sps, f25sps, f20sps, f16sps, invalid}
use thermostat.Pid.{Parameters, Controller}
use thermostat.ChannelState.{ChannelState, BParameters, OutputLimits}
use thermostat.Channels.{
  Board, Channel, Channels, M, pure, ◌>>=◌, ◌>>◌, get_state, get_max_v, get_max_i_pos,
  get_max_i_neg, modify_state,
}
use thermostat.Channels.Output.{set_i, set_max_v, set_max_i_pos, set_max_i_neg, set_polarity}
use thermostat.Channels.Control.{get_postfilter, set_postfilter}

-- `get_postfilter(…).unwrap_or(PostFilter::Invalid)`
abbrev pub stored_filter : Option PostFilter → PostFilter
stored_filter none = invalid
stored_filter (some f) = f

-- The `match` that turns `Invalid` back into `None`
abbrev pub loaded_filter : PostFilter → Option PostFilter
loaded_filter invalid = none
loaded_filter f = some f

module _ ⦃p : Platform⦄ ⦃b : Board⦄ where
  open p use {F64, F32, narrow, widen}

  pub record ChannelConfig : Type 0 where
    pub center : CenterPoint
    pub pid : Parameters
    pub pid_target : F32
    pub pid_engaged : Bool
    pub i_set : F64
    pub polarity : Polarity
    pub bp : BParameters
    pub output_limits : OutputLimits
    pub adc_postfilter : PostFilter

  -- The settings of a state: an engaged channel is saved with no current.
  abbrev pub config_of : ChannelState → Option PostFilter → ChannelConfig
  config_of st filter = record {
    center = st.center;
    pid = st.pid.parameters;
    pid_target = narrow st.pid.target;
    pid_engaged = st.pid_engaged;
    i_set = if st.pid_engaged then nought else st.i_set;
    polarity = st.polarity;
    bp = st.bp;
    output_limits = st.output_limits;
    adc_postfilter = stored_filter filter;
  }

  -- `OutputLimits::new`
  unfoldable pub limits_of : ℕ → M OutputLimits
  unfolding get_max_v get_max_i_pos get_max_i_neg
  limits_of i = do
    top_v ← get_max_v i
    top_pos ← get_max_i_pos i
    top_neg ← get_max_i_neg i
    pure (record { max_v = top_v; max_i_pos = top_pos; max_i_neg = top_neg })

  -- `ChannelConfig::new`
  unfoldable pub new : ℕ → M ChannelConfig
  unfolding limits_of get_state get_postfilter
  new i = do
    limits ← limits_of i
    filter ← get_postfilter i
    st ← get_state i
    pure (record (config_of st filter) { output_limits = limits })

  -- The fields that `apply` writes to the state directly.
  abbrev pub written : ChannelConfig → ChannelState → ChannelState
  written cfg st = record st {
    center = cfg.center;
    pid = record (st.pid) { parameters = cfg.pid; target = widen cfg.pid_target };
    pid_engaged = cfg.pid_engaged;
    bp = cfg.bp;
  }

  -- `OutputLimits::apply`
  unfoldable pub apply_limits : OutputLimits → ℕ → M (Unit {0})
  apply_limits l i = do
    _ ← set_max_v i l.max_v
    _ ← set_max_i_pos i l.max_i_pos
    _ ← set_max_i_neg i l.max_i_neg
    pure tt

  -- `ChannelConfig::apply`
  unfoldable pub apply : ChannelConfig → ℕ → M (Unit {0})
  apply cfg i = do
    modify_state i (written cfg)
    apply_limits cfg.output_limits i
    set_postfilter i (loaded_filter cfg.adc_postfilter)
    _ ← set_i i cfg.i_set
    set_polarity i cfg.polarity
