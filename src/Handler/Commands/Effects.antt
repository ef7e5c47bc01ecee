-- ===== src/Handler/Commands/Effects.antt =====
-- What commands do, through `handle_command` of `src/command_handler.rs`.
use thermostat.Prelude.{ℕ, ◌≡◌, refl, ◌∙◌, true, false, some, [], ◌∷◌, ◌++◌, ok, arith}
use thermostat.Platform.{Platform}
use thermostat.Platform.Laws.{IsLawful}
use thermostat.Command.{Command, PwmPin, PidParameter}
use thermostat.Ad7172.Filter.{PostFilter}
use thermostat.Ad7172.Filter.Closest.{IsNearest, closest-IsNearest}
use thermostat.Channels
use thermostat.Channels.{Board, Channel, Channels, channel_at, modify_state}
use thermostat.Channels.Output.{power_up, power_down, set_i, limited, max_tec_i}
use thermostat.Channels.Control.{set_postfilter}
use thermostat.Channels.Control.Loop.{power_up_with}
use thermostat.Channels.Limits.{with_channel}
use thermostat.Channels.Limits.Current.{Carries, driven-Carries}
use thermostat.Channels.Limits.Safety.{BusWorks, IsSafe, limited-IsSafe, limited_inside}
use thermostat.Config.View.{View, with_state, with_current, duties_at-with_channel, duties_of}
use thermostat.Config.Chain.{Runs, Runs->>=, Runs-modify_state, Runs-set_i}
use thermostat.ChannelState.{ChannelState}
use thermostat.Config.Shows.{FilterWorks}
use thermostat.HwRev.{HwRev}
use thermostat.Handler.{handled, reset, Host, Reply, done, World, ◌>>=◌, on_channels}
use thermostat.Handler.Commands.{
  reset_all, dfu, set_output, write_output, set_i_output, set_post_filter, set_pid, assign_pid,
}
use thermostat.Handler.Commands.Dispatch.{handle_command}

module _ ⦃p : Platform⦄ ⦃b : Board⦄ ⦃h : Host⦄ (hwrev : HwRev) where
  -- `reset` and `dfu` never fail: both channels are powered down and nothing else changes, save
  -- that `dfu` sets the trigger of the boot loader, and the program is told to reset.
  pub reset_powers_down :
      (w : World)
      → let off = λ (c : Channel). record c { shdn = false } in
        let down = record (w.channels) {
          channel0 = off w.channels.channel0;
          channel1 = off w.channels.channel1;
        } in
        (handle_command hwrev Command.reset w ≡ some (ok reset, record w { channels = down }))
        × (handle_command hwrev Command.dfu w
            ≡ some (ok reset, record w { channels = down; dfu_trigger = true }))
  unfolding handle_command reset_all dfu power_down
  reset_powers_down w = (refl, refl)

  lift_run :
      {A : Type 0} (m : Channels.M A) (w : World) (a : A) (s' : Channels)
      → m w.channels ≡ some (a, s')
      → on_channels m w ≡ some (ok a, record w { channels = s' })
  lift_run m w a s' e = ground arith

  -- The environment of the devices is not looked at.
  abbrev blind : b.Env → Unit {0}
  blind e = tt

  abbrev switched_on : View Unit → View Unit
  switched_on v = record v { channel = record (v.channel) { shdn = true } }

  Runs-power_up :
      (i : ℕ) (s : Channels) (v : View Unit) → Runs blind i (power_up i) s v (switched_on v)
  Runs-power_up i s v sees =
      let (run, has) = power_up_with i s v.channel sees.channel in
      (
        tt,
        with_channel i (switched_on v).channel s,
        run,
        record {
          channel = has;
          duties = duties_at-with_channel i (switched_on v).channel s ∙ sees.duties;
          seen = refl;
        },
      )

  -- The command returns, answers with one line, and leaves the channel `c'` at the index.
  abbrev pub Answers : ℕ → Command → Reply → World → Channel → Type 0
  Answers i cmd line w c' =
      (w' : World) × (handle_command hwrev cmd w ≡ some (ok handled, w'))
      × (channel_at i w'.channels ≡ some c')
      × (w'.sent ≡ w.sent ++ line ∷ [])

  module _ (laws : IsLawful) (works : BusWorks) where
    abbrev idle_view : View Unit → View Unit
    idle_view v = with_state (λ st. record st { pid_engaged = false }) v

    Runs-set_i_output :
        (i : ℕ) (x : p.F64) (s : Channels) (v : View Unit)
        → Runs blind i (set_i_output i x) s v (switched_on (with_current x (idle_view v)))
    unfolding set_i_output
    Runs-set_i_output i x s v =
        let v₁ = idle_view v in
        let v₂ = with_current x v₁ in
        let v₃ = switched_on v₂ in
        Runs->>= blind i (modify_state i (λ st. record st { pid_engaged = false })) _ s v v₁ v₃
          (Runs-modify_state blind i (λ st. record st { pid_engaged = false }) s v)
          λ _ s₁.
            Runs->>= blind i (set_i i x) _ s₁ v₁ v₂ v₃
              (Runs-set_i blind laws works (λ e j bytes. refl) i x s₁ v₁)
              λ _ s₂. Runs-power_up i s₂ v₂

    -- With lawful arithmetic and a DAC bus that works, `output <i> i_set <x>` on a channel that
    -- exists, whatever the value: it answers with one line, the PID is switched off and keeps its
    -- state, the current is the value cut to -2 A and 2 A, and the value itself where it is
    -- strictly between them; the DAC holds the code for that current under the channel's polarity
    -- and reference, which stay; the channel is powered up.
    pub set_output-i_set :
        (i : ℕ) (x : p.F64) (w : World) (c : Channel)
        → channel_at i w.channels ≡ some c
        → (c' : Channel) × Answers i (Command.set_output i PwmPin.i_set x) done w c'
          × (c'.state.pid_engaged ≡ false)
          × (c'.state.i_set ≡ limited x)
          × IsSafe c'.state.i_set
          × (p.lt (p.neg max_tec_i) x ≡ true → p.lt x max_tec_i ≡ true → c'.state.i_set ≡ x)
          × Carries c'
          × (c'.state.polarity ≡ c.state.polarity)
          × (c'.vref_meas ≡ c.vref_meas)
          × (c'.shdn ≡ true)
          × (c'.state.pid ≡ c.state.pid)
    unfolding handle_command set_output write_output
    set_output-i_set i x w c has =
        let (d, pins) = duties_of i w.channels c has in
        let v : View Unit = record { channel = c; duties = d; seen = tt } in
        let (_, s', run, sees) =
          Runs-set_i_output i x w.channels v
            (record { channel = has; duties = pins; seen = refl }) in
        (
          (switched_on (with_current x (idle_view v))).channel,
          (
            record w { channels = s'; sent = w.sent ++ done ∷ [] },
            rw (run, ◌>>=◌) refl,
            sees.channel,
            refl,
          ),
          refl,
          refl,
          limited-IsSafe laws x,
          limited_inside laws x,
          driven-Carries (idle_view v).channel x,
          refl,
          refl,
          refl,
          refl,
        )

  -- `pid <i> <parameter> <x>` on a channel that exists answers with one line and changes nothing of
  -- the channel but its PID, of which it assigns the parameter.
  set_pid_lem :
      (i : ℕ) (parameter : PidParameter) (x : p.F64) (w : World) (c : Channel)
      → channel_at i w.channels ≡ some c
      → (c' : Channel) × Answers i (Command.set_pid i parameter x) done w c'
        × (c' ≡ record c { state = record (c.state) { pid = assign_pid parameter x c.state.pid } })
  unfolding handle_command set_pid
  set_pid_lem i parameter x w c has =
      let f = λ (st : ChannelState). record st { pid = assign_pid parameter x st.pid } in
      let (d, pins) = duties_of i w.channels c has in
      let (_, s', run, sees) =
        Runs-modify_state blind i f w.channels (record { channel = c; duties = d; seen = tt })
          (record { channel = has; duties = pins; seen = refl }) in
      (
        record c { state = f c.state },
        (
          record w { channels = s'; sent = w.sent ++ done ∷ [] },
          rw (run, ◌>>=◌) refl,
          sees.channel,
          refl,
        ),
        refl,
      )

  -- With an order of `f32` that is irreflexive and transitive where it holds and a converter that
  -- takes its settings, `postfilter <i> rate <x>` sets the nearest of the four filters and
  -- answers with one line that is no error, whatever the rate.
  pub set_post_filter_lem :
      (lt32_irrefl : (x : p.F32) → p.lt32 x x ≡ false)
      (lt32_trans : (x y z : p.F32) → p.lt32 x y ≡ true → p.lt32 y z ≡ true → p.lt32 x z ≡ true)
      (filter_works : FilterWorks) (i : ℕ) (rate : p.F32) (w : World)
      → (f : PostFilter) × IsNearest rate f
        × (w' : World) × (handle_command hwrev (Command.set_post_filter i (some rate)) w
            ≡ some (ok handled, w'))
        × (w'.channels.env ≡ (b.set_postfilter w.channels.env i (some f)).1)
        × (w'.sent ≡ w.sent ++ done ∷ [])
  unfolding handle_command set_post_filter set_postfilter
  set_post_filter_lem irrefl trans filter_works i rate w =
      let (f, chosen, nearest) = closest-IsNearest irrefl trans rate in
      let e = (b.set_postfilter w.channels.env i (some f)).1 in
      (
        f,
        nearest,
        record w { channels = record (w.channels) { env = e }; sent = w.sent ++ done ∷ [] },
        rw (chosen, set_post_filter) (rw (filter_works w.channels.env i (some f), ◌>>=◌) refl),
        refl,
        refl,
      )
