-- ===== src/Handler/Commands/Isolation.antt =====
-- A command for one channel does not touch the other one.
pub mod Rules
pub mod Storage
use thermostat.Prelude.{
  ℕ, zero, suc, ◌≡◌, refl, sym, Bool, true, false, Option, none, some, Result, ok, err, ◌==◌,
  if◌then◌else◌, arith, Bool-cases, inl, inr,
}
use mathlib.Core.Path.{subst}
use thermostat.Platform.{Platform}
use thermostat.Command.{Command, PwmPin, CenterPoint}
use thermostat.HwRev.{HwRev}
use thermostat.Ad7172.Filter.{PostFilter, closest}
use thermostat.Channels
use thermostat.Channels.{Board, Channels, get_state, modify_state}
use thermostat.Channels.Output
use thermostat.Channels.Output.{set_i, set_max_v, set_max_i_pos, set_max_i_neg, power_up}
use thermostat.Channels.Control.{set_postfilter, get_postfilter}
use thermostat.Channels.Isolation.{
  beside, After, IsLocal, IsLocal->>=, IsLocal-pure, IsLocal-with_env, IsLocal-unwrap,
  IsLocal-modify_state, IsLocal-get_state,
}
use thermostat.Channels.Isolation.Outputs.{
  IsLocal->>, IsLocal-set_i, IsLocal-power_up, IsLocal-set_max_v, IsLocal-set_max_i_pos,
  IsLocal-set_max_i_neg, IsLocal-set_polarity, IsLocal-set_postfilter,
}
use thermostat.Channels.Isolation.Settings.{IsLocal-apply, IsLocal-new}
use thermostat.Config
use thermostat.Config.{ChannelConfig}
use thermostat.Handler.{
  Error, Outcome, handled, Host, World, H, pure, fail, continue, ◌>>=◌, ◌>>◌, on_channels, send,
  gets, done, Reply,
}
use thermostat.Handler.Commands.{
  engage_pid, set_polarity, set_i_output, write_output, set_output, set_center_point, set_pid,
  assign_pid, set_b_parameter, assign_bp, reset_post_filter, use_filter, set_post_filter, selects,
  load_result, load_one, load_channel, write_store, save_result, save_one, save_channel,
}
use thermostat.Handler.Commands.Dispatch.{handle_command}
use thermostat.Handler.Commands.Isolation.Rules.{
  Then, Spares, Spares->>=, Spares->>, Spares-on_channels, Spares-reply,
}
use thermostat.Handler.Commands.Isolation.Storage.{Spares-load_channel, Spares-save_channel}
use mathlib.Core.Option.{some-injective}

-- The channel that a command names.
abbrev pub channel_named : ⦃p : Platform⦄ → Command → Option ℕ
channel_named (Command.output_pid i) = some i
channel_named (Command.output_polarity i q) = some i
channel_named (Command.set_output i pin v) = some i
channel_named (Command.set_center i c) = some i
channel_named (Command.set_pid i parameter v) = some i
channel_named (Command.set_b_parameter i parameter v) = some i
channel_named (Command.set_post_filter i rate) = some i
channel_named (Command.load channel) = channel
channel_named (Command.save channel) = channel
channel_named Command.quit = none
channel_named (Command.show what) = none
channel_named (Command.set_ipv4 config) = none
channel_named Command.reset = none
channel_named Command.dfu = none
channel_named (Command.fan_set pwm) = none
channel_named Command.show_fan = none
channel_named Command.fan_auto = none
channel_named (Command.fan_curve a c d) = none
channel_named Command.fan_curve_defaults = none
channel_named Command.show_hw_rev = none

module _ ⦃p : Platform⦄ ⦃b : Board⦄ ⦃h : Host⦄ where
  -- A change of the channel, and the answer.
  Spares-answered :
      {A : Type 0} (i : ℕ) (m : Channels.M A) (r : Reply)
      → IsLocal i m
      → Spares i (do _ ← on_channels m; send r; pure handled)
  Spares-answered i m r is_local =
      Spares->> i (on_channels m) _ (Spares-on_channels i m is_local) (Spares-reply i r)

  Spares-write_output : (i : ℕ) (pin : PwmPin) (v : p.F64) → Spares i (write_output i pin v)
  unfolding write_output set_i_output
  Spares-write_output i PwmPin.i_set v = Spares-on_channels i (set_i_output i v) (
      IsLocal->> i (modify_state i _) _ (IsLocal-modify_state i _)
        (IsLocal->> i (set_i i v) _ (IsLocal-set_i i v) (IsLocal-power_up i)))
  Spares-write_output i PwmPin.max_v v =
      Spares->> i (on_channels (set_max_v i v)) _
        (Spares-on_channels i (set_max_v i v) (IsLocal-set_max_v i v)) λ w. refl
  Spares-write_output i PwmPin.max_i_pos v =
      Spares->> i (on_channels (set_max_i_pos i v)) _
        (Spares-on_channels i (set_max_i_pos i v) (IsLocal-set_max_i_pos i v)) λ w. refl
  Spares-write_output i PwmPin.max_i_neg v =
      Spares->> i (on_channels (set_max_i_neg i v)) _
        (Spares-on_channels i (set_max_i_neg i v) (IsLocal-set_max_i_neg i v)) λ w. refl

  Spares-set_output : (i : ℕ) (pin : PwmPin) (v : p.F64) → Spares i (set_output i pin v)
  unfolding set_output
  Spares-set_output i pin v =
      Spares->> i (write_output i pin v) _ (Spares-write_output i pin v) (Spares-reply i done)

  Spares-if :
      {A : Type 0} (i : ℕ) (c : Bool) (m k : H A)
      → Spares i m
      → Spares i k
      → Spares i (if c then m else k)
  Spares-if i true m k first rest = first
  Spares-if i false m k first rest = rest

  Spares-set_center_point : (i : ℕ) (c : CenterPoint) → Spares i (set_center_point i c)
  unfolding set_center_point
  Spares-set_center_point i c =
      Spares->>= i (on_channels (get_state i)) _
        (Spares-on_channels i (get_state i) (IsLocal-get_state i))
        λ st.
          Spares->> i (on_channels (modify_state i _)) _
            (Spares-on_channels i (modify_state i _) (IsLocal-modify_state i _))
            (Spares->> i (if st.pid_engaged then pure tt else _) _
              (Spares-if i st.pid_engaged (pure tt) _ (λ w. refl)
                (Spares->> i (on_channels (set_i i st.i_set)) (pure tt)
                  (Spares-on_channels i (set_i i st.i_set) (IsLocal-set_i i st.i_set)) λ w. refl))
              (Spares-reply i done))

  Spares-use_filter : (i : ℕ) (f : Option PostFilter) → Spares i (use_filter i f)
  unfolding use_filter
  Spares-use_filter i (some f) =
      Spares-answered i (set_postfilter i (some f)) done (IsLocal-set_postfilter i (some f))
  Spares-use_filter i none = λ w. refl

  Then-filter :
      (i : ℕ) (w : World) (o : Option (Option PostFilter))
      → Then
          (λ w'. beside i w'.channels ≡ beside i w.channels)
          (elim o [ none ↦ none | some found ↦ use_filter i found w ])
  Then-filter i w none = tt
  Then-filter i w (some found) = Spares-use_filter i found w

  Spares-set_post_filter : (i : ℕ) (rate : p.F32) → Spares i (set_post_filter i rate)
  unfolding set_post_filter
  Spares-set_post_filter i rate w = Then-filter i w (closest rate)

  by_name : {A : Type 0} (j i : ℕ) (m : H A) → some j ≡ some i → Spares j m → Spares i m
  by_name j i m same = subst (λ k. Spares k m) (some-injective j i same)

  -- A command that names a channel leaves the other channel as it was, its state, its DAC, its
  -- power pin and its limit pins, wherever it returns, with an answer or with an error.
  pub handle_command-Spares :
      (hwrev : HwRev) (cmd : Command) (i : ℕ)
      → channel_named cmd ≡ some i
      → (w : World)
      → Then (λ w'. beside i w'.channels ≡ beside i w.channels) (handle_command hwrev cmd w)
  unfolding handle_command engage_pid set_polarity set_pid set_b_parameter reset_post_filter
  handle_command-Spares hwrev (Command.output_pid j) i named =
      by_name j i _ named (Spares-answered j (modify_state j _) done (IsLocal-modify_state j _))
  handle_command-Spares hwrev (Command.output_polarity j q) i named =
      by_name j i _ named
        (Spares-answered j (Output.set_polarity j q) done (IsLocal-set_polarity j q))
  handle_command-Spares hwrev (Command.set_output j pin v) i named =
      by_name j i _ named (Spares-set_output j pin v)
  handle_command-Spares hwrev (Command.set_center j c) i named =
      by_name j i _ named (Spares-set_center_point j c)
  handle_command-Spares hwrev (Command.set_pid j parameter v) i named =
      by_name j i _ named (Spares-answered j (modify_state j _) done (IsLocal-modify_state j _))
  handle_command-Spares hwrev (Command.set_b_parameter j parameter v) i named =
      by_name j i _ named (Spares-answered j (modify_state j _) done (IsLocal-modify_state j _))
  handle_command-Spares hwrev (Command.set_post_filter j none) i named =
      by_name j i _ named
        (Spares-answered j (set_postfilter j none) done (IsLocal-set_postfilter j none))
  handle_command-Spares hwrev (Command.set_post_filter j (some rate)) i named =
      by_name j i _ named (Spares-set_post_filter j rate)
  handle_command-Spares hwrev (Command.load (some j)) i named =
      by_name j i _ named (Spares-load_channel j)
  handle_command-Spares hwrev (Command.save (some j)) i named =
      by_name j i _ named (Spares-save_channel j)
  handle_command-Spares hwrev (Command.load none) i named = absurd (cc)
  handle_command-Spares hwrev (Command.save none) i named = absurd (cc)
  handle_command-Spares hwrev Command.quit i named = absurd (cc)
  handle_command-Spares hwrev (Command.show what) i named = absurd (cc)
  handle_command-Spares hwrev (Command.set_ipv4 config) i named = absurd (cc)
  handle_command-Spares hwrev Command.reset i named = absurd (cc)
  handle_command-Spares hwrev Command.dfu i named = absurd (cc)
  handle_command-Spares hwrev (Command.fan_set pwm) i named = absurd (cc)
  handle_command-Spares hwrev Command.show_fan i named = absurd (cc)
  handle_command-Spares hwrev Command.fan_auto i named = absurd (cc)
  handle_command-Spares hwrev (Command.fan_curve a c d) i named = absurd (cc)
  handle_command-Spares hwrev Command.fan_curve_defaults i named = absurd (cc)
  handle_command-Spares hwrev Command.show_hw_rev i named = absurd (cc)
