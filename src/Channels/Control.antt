-- ===== src/Channels/Control.antt =====
-- `poll_adc` of `src/channels.rs`: a conversion, the PID step and the output that follows it.
pub mod Loop
pub mod Reading
use thermostat.Prelude.{ℕ, zero, suc, ◌||◌, Bool, true, false, Option, none, some, List}
use thermostat.Platform.{Platform}
use thermostat.ChannelState
use thermostat.ChannelState.{ChannelState}
use thermostat.Ad7172.Filter.{PostFilter}
use thermostat.Channels.{
  Board, Channel, Channels, M, pure, panic, ◌>>=◌, ◌>>◌, with_env, unwrap, unwrap_ok, get_state,
  modify_state,
}
use thermostat.Channels.Output.{set_i, power_up, power_down}

module _ ⦃p : Platform⦄ ⦃b : Board⦄ where
  open p use {F64}

  -- The `match` on the PID output and on whether the PID is engaged.
  unfoldable pub drive : ℕ → Option F64 → Bool → M (Unit {0})
  drive i (some output) true = do _ ← set_i i output; power_up i
  drive i none true = power_down i
  drive i (some output) false = pure tt
  drive i none false = pure tt

  -- What `poll_adc` does with the data of a channel.
  unfoldable pub process : ℕ → ℕ → ℕ → M (Unit {0})
  unfolding get_state modify_state
  process instant i reading = do
    modify_state i (λ st. ChannelState.update st instant reading)
    st ← get_state i
    (output, st') ← unwrap (ChannelState.update_pid st)
    modify_state i (λ _. st')
    drive i output st'.pid_engaged

  poll_channel : ℕ → Option ℕ → M (Option ℕ)
  unfolding process
  poll_channel instant none = pure none
  poll_channel instant (some i) = do
    r ← with_env b.read_data
    reading ← unwrap r
    process instant i reading
    pure (some i)

  -- `Channels::poll_adc`
  unfoldable pub poll_adc : ℕ → M (Option ℕ)
  unfolding poll_channel
  poll_adc instant = do r ← with_env b.data_ready; ready ← unwrap r; poll_channel instant ready

  -- `Channels::get_postfilter`
  unfoldable pub get_postfilter : ℕ → M (Option PostFilter)
  get_postfilter i = do r ← with_env (λ e. b.get_postfilter e i); unwrap r

  -- `Channels::set_postfilter`
  unfoldable pub set_postfilter : ℕ → Option PostFilter → M (Unit {0})
  set_postfilter i f = do done ← with_env (λ e. b.set_postfilter e i f); unwrap_ok done

  -- `Channels::pid_engaged`
  unfoldable pub pid_engaged : Channels → Bool
  pid_engaged s = s.channel0.state.pid_engaged || s.channel1.state.pid_engaged
