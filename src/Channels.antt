-- ===== src/Channels.antt =====
-- `src/channels.rs` and `src/channel.rs`: the two channels, their outputs, and the code that can
-- panic on them. What the code last wrote to an output (a DAC, a shutdown pin, a PWM pin) is state
-- here; what comes in is a `Board`.
pub mod Sense
pub mod Output
pub mod Converter
pub mod Control
pub mod Limits
pub mod Calibrate
pub mod Start
pub mod Isolation
use thermostat.Prelude.{ℕ, zero, suc, Bool, true, false, Option, none, some, List, [], ◌∷◌}
use thermostat.Platform.{Platform, nought}
use thermostat.Command.{PwmPin}
use thermostat.Ad7172.Filter.{PostFilter, ChannelCalibration}
use thermostat.ChannelState.{ChannelState, new_state}
use thermostat.Dac.{frame}

pub data PinsAdcReadTarget : Type 0 where
  vref dac_vfb i_tec v_tec : PinsAdcReadTarget

-- The inputs of the firmware and the devices on its buses. `none` and `false` are bus errors; the
-- last four are the driver of the AD7172, which Channels/Converter puts in its place.
pub record Board : Type 1 where
  pub Env : Type 0
  pub dac_transfer : Env → ℕ → List ℕ → Bool × Env
  pub convert : Env → ℕ → PinsAdcReadTarget → ℕ × Env
  pub to_millivolts : ℕ → ℕ
  pub max_duty : ℕ → PwmPin → ℕ
  pub data_ready : Env → Option (Option ℕ) × Env
  pub read_data : Env → Option ℕ × Env
  pub get_postfilter : Env → ℕ → Option (Option PostFilter) × Env
  pub set_postfilter : Env → ℕ → Option PostFilter → Bool × Env

module _ ⦃p : Platform⦄ ⦃b : Board⦄ where
  open p use {F64, lit}

  -- `Channel`: `dac` is the frame last sent to the converter, `shdn` the level of the shutdown pin
  -- (high: powered), `vref_analog` whether the reference pin can be read.
  pub record Channel : Type 0 where
    pub state : ChannelState
    pub dac : List ℕ
    pub vref_meas : F64
    pub shdn : Bool
    pub vref_analog : Bool

  -- `Channel::new` after its `dac.set(0)`; the levels of the pins come from `pins.rs`.
  unfoldable pub new_channel : ChannelCalibration → Bool → Bool → Channel
  new_channel calibration shdn vref_analog = record {
    state = new_state calibration;
    dac = frame 0;
    vref_meas = lit 15 1;
    shdn = shdn;
    vref_analog = vref_analog;
  }

  -- The duty cycles of the limit pins of one channel.
  pub record Duties : Type 0 where
    pub max_i_pos : ℕ
    pub max_i_neg : ℕ
    pub max_v : ℕ

  pub record Channels : Type 0 where
    pub channel0 : Channel
    pub channel1 : Channel
    pub pwm0 : Duties
    pub pwm1 : Duties
    pub env : b.Env

  -- A method of `Channels`; `none` is a panic.
  abbrev pub M : Type 0 → Type 0
  M A = Channels → Option (A × Channels)

  abbrev pub pure : {A : Type 0} → A → M A
  pure a s = some (a, s)

  abbrev pub panic : {A : Type 0} → M A
  panic s = none

  infixl 5 ◌>>=◌ ◌>>◌
  abbrev pub ◌>>=◌ : {A B : Type 0} → M A → (A → M B) → M B
  ◌>>=◌ m f s = elim (m s) [ none ↦ none | some (a, s') ↦ f a s' ]

  abbrev pub ◌>>◌ : {A B : Type 0} → M A → M B → M B
  m >> k = m >>= λ _. k

  -- A use of the environment.
  abbrev pub with_env : {A : Type 0} → (b.Env → A × b.Env) → M A
  with_env f s = let (a, e) = f s.env in some (a, record s { env = e })

  -- `unwrap`
  abbrev pub unwrap : {A : Type 0} → Option A → M A
  unwrap none = panic
  unwrap (some a) = pure a

  abbrev pub unwrap_ok : Bool → M (Unit {0})
  unwrap_ok true = pure tt
  unwrap_ok false = panic

  -- `match channel { 0 => …, 1 => …, _ => unreachable!() }`
  unfoldable pub channel_at : ℕ → Channels → Option Channel
  channel_at zero s = some s.channel0
  channel_at (suc zero) s = some s.channel1
  channel_at (suc (suc i)) s = none

  unfoldable pub put_channel : ℕ → Channel → M (Unit {0})
  put_channel zero c s = some (tt, record s { channel0 = c })
  put_channel (suc zero) c s = some (tt, record s { channel1 = c })
  put_channel (suc (suc i)) c s = none

  unfoldable pub get_channel : ℕ → M Channel
  unfolding channel_at
  get_channel i s = elim (channel_at i s) [ none ↦ none | some c ↦ some (c, s) ]

  unfoldable pub modify_channel : ℕ → (Channel → Channel) → M (Unit {0})
  unfolding get_channel put_channel
  modify_channel i f = do c ← get_channel i; put_channel i (f c)

  -- `channel_state(channel)` written through
  unfoldable pub modify_state : ℕ → (ChannelState → ChannelState) → M (Unit {0})
  unfolding modify_channel
  modify_state i f = modify_channel i (λ c. record c { state = f c.state })

  unfoldable pub get_state : ℕ → M ChannelState
  unfolding get_channel
  get_state i = do c ← get_channel i; pure c.state

  -- `get_dac`, `get_i_set`, `get_max_v`, `get_max_i_pos` and `get_max_i_neg` of `Channels`
  unfoldable pub get_dac : ℕ → M p.F64
  unfolding get_state
  get_dac i = do st ← get_state i; pure st.dac_value

  unfoldable pub get_i_set : ℕ → M p.F64
  unfolding get_state
  get_i_set i = do st ← get_state i; pure st.i_set

  unfoldable pub get_max_v : ℕ → M p.F64
  unfolding get_state
  get_max_v i = do st ← get_state i; pure st.output_limits.max_v

  unfoldable pub get_max_i_pos : ℕ → M p.F64
  unfolding get_state
  get_max_i_pos i = do st ← get_state i; pure st.output_limits.max_i_pos

  unfoldable pub get_max_i_neg : ℕ → M p.F64
  unfolding get_state
  get_max_i_neg i = do st ← get_state i; pure st.output_limits.max_i_neg
