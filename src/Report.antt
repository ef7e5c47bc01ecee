-- ===== src/Report.antt =====
-- The reports and summaries of `src/channels.rs`, `src/pid.rs`, `src/fan_ctrl.rs` and `src/hw_rev.rs`
-- that the firmware sends as JSON, before they are serialized.
use thermostat.Prelude.{ℕ, Bool, true, false, Option, none, some, List, [], ◌∷◌, bytes}
use thermostat.Platform.{Platform}
use thermostat.Command.{CenterPoint, vref, override, Polarity, normal, reversed}
use thermostat.Ad7172.Filter.{PostFilter, output_rate}
use thermostat.Pid
use thermostat.ChannelState.{ChannelState, BParameters, get_adc, get_sens, get_temperature}
use thermostat.Channels.{
  Board, dac_vfb, i_tec, M, pure, ◌>>=◌, get_state, get_dac, get_i_set, get_max_v, get_max_i_pos,
  get_max_i_neg,
}
use thermostat.Channels.Sense.{adc_read, get_tec_i, get_tec_v}
use thermostat.Channels.Control.{get_postfilter}
use thermostat.Fan.{FanCtrl, get_pwm}
use thermostat.HwRev.{HwRev, HwSettings, settings}

module _ ⦃p : Platform⦄ where
  open p use {F64, F32, lit, of_u32, div, to_celsius}

  pub record Report : Type 0 where
    pub channel : ℕ
    pub time : F64
    pub interval : F64
    pub adc : Option F64
    pub sens : Option F64
    pub temperature : Option F64
    pub pid_engaged : Bool
    pub i_set : F64
    pub dac_value : F64
    pub dac_feedback : F64
    pub itec : F64
    pub tec_i : F64
    pub tec_u_meas : F64
    pub pid_output : F64

  pub record PidSummary : Type 0 where
    pub channel : ℕ
    pub parameters : Pid.Parameters
    pub target : F64

  -- What a serializer is asked to write for a value.
  pub data Scalar : Type 0 where
    serialize_str : List ℕ → Scalar
    serialize_f32 : F32 → Scalar

  pub record OutputSummary : Type 0 where
    pub channel : ℕ
    pub center : Scalar
    pub i_set : F64
    pub max_v : F64
    pub max_i_pos : F64
    pub max_i_neg : F64
    pub polarity : Scalar

  pub record PostFilterSummary : Type 0 where
    pub channel : ℕ
    pub rate : Option F32

  pub record BParameterSummary : Type 0 where
    pub channel : ℕ
    pub params : BParameters

  pub record FanSummary : Type 0 where
    pub fan_pwm : ℕ
    pub abs_max_tec_i : F32
    pub auto_mode : Bool
    pub k_a : F32
    pub k_b : F32
    pub k_c : F32

  -- What is serialized.
  pub data Payload : Type 0 where
    reports : List Report → Payload
    pid_summaries : List PidSummary → Payload
    output_summaries : List OutputSummary → Payload
    post_filters : List PostFilterSummary → Payload
    b_parameters : List BParameterSummary → Payload
    fan_summary : Option FanSummary → Payload
    hw_summary : HwRev → HwSettings → Payload

  abbrev map_option : {A B : Type 0} → (A → B) → Option A → Option B
  map_option f none = none
  map_option f (some a) = some (f a)

  -- `Time::new::<millisecond>(t as f64)`, in seconds
  abbrev seconds : ℕ → F64
  seconds t = div (of_u32 t) (lit 1000 0)

  -- `ChannelState::get_adc_time` and `get_adc_interval`
  abbrev get_adc_time : ChannelState → F64
  get_adc_time st = seconds st.adc_time

  abbrev get_adc_interval : ChannelState → F64
  get_adc_interval st = seconds st.adc_interval

  -- `Serialize` for `CenterPointJson` and `PolarityJson`
  abbrev center_point_json : CenterPoint → Scalar
  center_point_json vref = serialize_str (bytes "vref")
  center_point_json (override v) = serialize_f32 v

  abbrev polarity_json : Polarity → Scalar
  polarity_json normal = serialize_str (bytes "normal")
  polarity_json reversed = serialize_str (bytes "reversed")

  -- `Controller::summary`
  unfoldable pub pid_summary : ℕ → ChannelState → PidSummary
  pid_summary i st = record { channel = i; parameters = st.pid.parameters; target = st.pid.target }

  -- `HWRev::summary`, up to `to_vec`
  unfoldable pub hw_rev_summary : HwRev → Payload
  hw_rev_summary rev = hw_summary rev (settings rev)

  abbrev rate_of : Option PostFilter → Option F32
  rate_of none = none
  rate_of (some f) = output_rate f

  -- The summary of `FanCtrl::summary`, if there is a fan
  unfoldable pub fan_payload : FanCtrl → Payload
  fan_payload f = fan_summary (elim (f.hw_settings.fan_available) [
    | true ↦ some (record {
      fan_pwm = get_pwm f;
      abs_max_tec_i = f.abs_max_tec_i;
      auto_mode = f.fan_auto;
      k_a = f.k_a;
      k_b = f.k_b;
      k_c = f.k_c;
    })
    | false ↦ none
  ])

  module _ ⦃b : Board⦄ where
    -- `Channels::report`
    unfoldable pub report : ℕ → M Report
    report i = do
      current ← get_i_set i
      itec ← adc_read i i_tec 16
      tec_i ← get_tec_i i
      voltage ← get_dac i
      st ← get_state i
      feedback ← adc_read i dac_vfb 1
      tec_u ← get_tec_v i
      pure (record {
        channel = i;
        time = get_adc_time st;
        interval = get_adc_interval st;
        adc = get_adc st;
        sens = get_sens st;
        temperature = map_option to_celsius (get_temperature st);
        pid_engaged = st.pid_engaged;
        i_set = current;
        dac_value = voltage;
        dac_feedback = feedback;
        itec = itec;
        tec_i = tec_i;
        tec_u_meas = tec_u;
        pid_output = st.pid.y1;
      })

    -- `Channels::output_summary`
    unfoldable pub output_summary : ℕ → M OutputSummary
    output_summary i = do
      st ← get_state i
      current ← get_i_set i
      top_v ← get_max_v i
      top_pos ← get_max_i_pos i
      top_neg ← get_max_i_neg i
      pure (record {
        channel = i;
        center = center_point_json st.center;
        i_set = current;
        max_v = top_v;
        max_i_pos = top_pos;
        max_i_neg = top_neg;
        polarity = polarity_json st.polarity;
      })

    -- `for channel in 0..CHANNELS` over a summary
    abbrev both : {A : Type 0} → (ℕ → M A) → M (List A)
    both f = do x ← f 0; y ← f 1; pure (x ∷ y ∷ [])

    -- `reports_json`, `pid_summaries_json`, `output_summaries_json`, `postfilter_summaries_json` and
    -- `b_parameter_summaries_json`, up to `to_vec`
    unfoldable pub all_reports : M Payload
    all_reports = do rs ← both report; pure (reports rs)

    unfoldable pub all_pids : M Payload
    all_pids = do
      xs ← both (λ i. do st ← get_state i; pure (pid_summary i st))
      pure (pid_summaries xs)

    unfoldable pub all_outputs : M Payload
    all_outputs = do xs ← both output_summary; pure (output_summaries xs)

    unfoldable pub all_post_filters : M Payload
    all_post_filters = do
      xs ← both (λ i. do f ← get_postfilter i; pure (record { channel = i; rate = rate_of f }))
      pure (post_filters xs)

    unfoldable pub all_b_parameters : M Payload
    all_b_parameters = do
      xs ← both (λ i. do st ← get_state i; pure (record { channel = i; params = st.bp }))
      pure (b_parameters xs)
