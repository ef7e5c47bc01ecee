-- ===== src/Channels/Limits.antt =====
-- The outputs that `src/channels.rs` can set: the current, its DAC word and the limits stay in range.
pub mod Current
pub mod Pins
pub mod Safety
use thermostat.Prelude.{
  ℕ, zero, suc, ◌≤◌, ◌≡◌, refl, sym, ap, ◌∙◌, ◌⊎◌, Bool, true, false, Option, none, some, List, min,
  arith, if◌then◌else◌,
}
use mathlib.Core.Path.{subst}
use mathlib.Core.Option.{some-injective}
use thermostat.Platform.{Platform, nought, IsNum, IsNan, ◌≼◌}
use thermostat.Platform.Laws.{IsLawful}
use thermostat.Command.{Polarity, PwmPin}
use thermostat.ChannelState.{ChannelState}
use thermostat.Dac.{frame}
use thermostat.Dac
use thermostat.Channels.{
  Board, Channel, Channels, Duties, M, channel_at, put_channel, get_channel, modify_channel,
  modify_state,
}
use thermostat.Channels.Output.{
  max_tec_i, max_tec_v, limited, limited_to, sign, control_voltage, dac_out_v_max, write_dac,
  set_dac, set_i, ten, r_sense,
}

module _ ⦃p : Platform⦄ ⦃b : Board⦄ where
  open p use {F64, of_u32, mul, div, neg, to_u32}

  -- The state with another channel at an index.
  abbrev pub with_channel : ℕ → Channel → Channels → Channels
  with_channel zero c s = record s { channel0 = c }
  with_channel (suc zero) c s = record s { channel1 = c }
  with_channel (suc (suc i)) c s = s

  -- The word that `set_dac` gives to the DAC for a voltage.
  abbrev pub dac_word : F64 → ℕ
  dac_word voltage = to_u32 (mul (div voltage dac_out_v_max) (of_u32 Dac.max_value))

  -- The voltage that `set_i` puts on the DAC of a channel.
  abbrev pub voltage_for : Channel → F64 → F64
  voltage_for c x = control_voltage (sign c.state.polarity) (limited x) c.vref_meas

  -- The transfer of the frame for a request succeeds, and leaves the environment `e`.
  abbrev pub Transfers : Channels → ℕ → Channel → F64 → b.Env → Type 0
  Transfers s i c x e = b.dac_transfer s.env i (frame (dac_word (voltage_for c x))) ≡ (true, e)

  -- The channel after `set_i`.
  abbrev pub driven : Channel → F64 → Channel
  driven c x =
      let v = voltage_for c x in
      record c {
        state = record (c.state) { i_set = limited x; dac_value = v };
        dac = frame (dac_word v);
      }

  -- The current that `set_i` reports.
  abbrev pub achieved : Channel → F64 → F64
  achieved c x =
      div (mul (sign c.state.polarity) (p.sub (voltage_for c x) c.vref_meas)) (mul ten r_sense)

  abbrev SetsI : ℕ → F64 → Channels → b.Env → Channel → Type 0
  SetsI i x s e c =
      Transfers s i c x e
      → set_i i x s ≡ some (achieved c x, with_channel i (driven c x) (record s { env = e }))

  set_i_run0 : (x : F64) (s : Channels) (e : b.Env) → SetsI 0 x s e s.channel0
  unfolding set_i
  set_i_run0 x s e sent = ground arith

  set_i_run1 : (x : F64) (s : Channels) (e : b.Env) → SetsI 1 x s e s.channel1
  unfolding set_i
  set_i_run1 x s e sent = ground arith

  -- On a channel that exists, and with its bus working, `set_i` returns and changes only that
  -- channel's current and DAC.
  pub set_i_run :
      (i : ℕ) (x : F64) (s : Channels) (c : Channel) (e : b.Env)
      → channel_at i s ≡ some c
      → SetsI i x s e c
  unfolding channel_at
  set_i_run zero x s c e has = subst (SetsI 0 x s e) (some-injective _ _ has) (set_i_run0 x s e)
  set_i_run (suc zero) x s c e has =
      subst (SetsI 1 x s e) (some-injective _ _ has) (set_i_run1 x s e)
  set_i_run (suc (suc i)) x s c e has = absurd (cc)
