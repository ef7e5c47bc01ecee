-- ===== src/Config/Chain.antt =====
-- What a chain of methods of `src/channels.rs` does to one channel, step by step.
use thermostat.Prelude.{
  ap, ◌∙◌, List, Bool-cases, inl, inr, ◌⊎◌, ℕ, zero, suc, ◌≡◌, ◌≢◌, refl, true, false, some, arith,
}
use thermostat.Platform.{Platform}
use thermostat.Platform.Laws.{IsLawful}
use thermostat.Command.{PwmPin, Polarity}
use thermostat.ChannelState.{ChannelState}
use thermostat.Channels.{
  Board, Channel, Channels, Duties, M, pure, ◌>>=◌, channel_at, modify_state, get_state,
}
use thermostat.Channels.Output.{
  set_i, set_max_v, set_max_i_pos, set_max_i_neg, set_polarity, same_polarity, set_pwm, pos_pin,
  neg_pin,
}
use mathlib.Core.Option.{some-injective}
use thermostat.Channels.Limits.{driven, with_channel}
use thermostat.Channels.Limits.Safety.{BusWorks, sets_current}
use thermostat.Config.View.{
  View, duties_at, with_duties, with_state, with_pin, pin_value, limits_of_view, with_max_v,
  with_max_i_pos, with_max_i_neg, with_current, repolarised, duties_at-with_channel, duties_at-same,
  same_polarity_sound, pos_pin_ne, neg_pin_ne,
}

module _ ⦃p : Platform⦄ ⦃b : Board⦄ where
  module _ {X : Type 0} (look : b.Env → X) where
    pub record Sees (i : ℕ) (s : Channels) (v : View X) : Type 0 where
      pub channel : channel_at i s ≡ some v.channel
      pub duties : duties_at i s ≡ some v.duties
      pub seen : look s.env ≡ v.seen

    -- The method returns, and takes what is seen at the index from `v` to `v'`.
    abbrev pub Runs : {A : Type 0} → ℕ → M A → Channels → View X → View X → Type 0
    Runs {A} i m s v v' =
        Sees i s v → (r : A) × (s' : Channels) × (m s ≡ some (r, s')) × Sees i s' v'

    pub Runs->>= :
        {A B : Type 0} (i : ℕ) (m : M A) (k : A → M B) (s : Channels) (v v' v'' : View X)
        → Runs i m s v v'
        → ((r : A) (s' : Channels) → Runs i (k r) s' v' v'')
        → Runs i (m >>= k) s v v''
    Runs->>= i m k s v v' v'' first rest sees =
        let (r, s', run, sees') = first sees in
        let (q, s'', run', sees'') = rest r s' sees' in (q, s'', rw (run, ◌>>=◌) run', sees'')

    pub Runs-pure : {A : Type 0} (i : ℕ) (a : A) (s : Channels) (v : View X) → Runs i (pure a) s v v
    Runs-pure i a s v sees = (a, s, refl, sees)

    modify_state_run :
        (i : ℕ) (f : ChannelState → ChannelState) (s : Channels) (c : Channel)
        → channel_at i s ≡ some c
        → let c' = record c { state = f c.state } in
          (modify_state i f s ≡ some (tt, with_channel i c' s))
          × (channel_at i (with_channel i c' s) ≡ some c')
          × ((with_channel i c' s).env ≡ s.env)
    unfolding modify_state channel_at
    modify_state_run zero f s c has = (ground arith, refl, refl)
    modify_state_run (suc zero) f s c has = (ground arith, refl, refl)
    modify_state_run (suc (suc i)) f s c has = absurd (cc)

    pub Runs-modify_state :
        (i : ℕ) (f : ChannelState → ChannelState) (s : Channels) (v : View X)
        → Runs i (modify_state i f) s v (with_state f v)
    Runs-modify_state i f s v sees =
        let c' = record (v.channel) { state = f v.channel.state } in
        let (run, has, env) = modify_state_run i f s v.channel sees.channel in
        (
          tt,
          with_channel i c' s,
          run,
          record {
            channel = has;
            duties = duties_at-with_channel i c' s ∙ sees.duties;
            seen = ap look env ∙ sees.seen;
          },
        )

    Runs-get_state :
        (i : ℕ) (s : Channels) (c : Channel)
        → channel_at i s ≡ some c
        → get_state i s ≡ some (c.state, s)
    unfolding get_state
    Runs-get_state i s c has = ground arith

    Runs-get :
        {B : Type 0} (i : ℕ) (k : ChannelState → M B) (s : Channels) (v v' : View X)
        → Runs i (k v.channel.state) s v v'
        → Runs i (get_state i >>= k) s v v'
    Runs-get i k s v v' rest sees =
        let (q, s'', run', sees'') = rest sees in
        (q, s'', rw (Runs-get_state i s v.channel sees.channel, ◌>>=◌) run', sees'')

    put_duties :
        (i : ℕ) (f : Duties → Duties) (s : Channels) (v : View X)
        → Sees i s v
        → Sees i (with_duties i f s) (record v { duties = f v.duties })
    unfolding channel_at
    put_duties zero f s v sees = record {
      channel = sees.channel;
      duties = ap (λ d. some (f d)) (some-injective _ _ sees.duties);
      seen = sees.seen;
    }
    put_duties (suc zero) f s v sees = record {
      channel = sees.channel;
      duties = ap (λ d. some (f d)) (some-injective _ _ sees.duties);
      seen = sees.seen;
    }
    put_duties (suc (suc i)) f s v sees = let none_there = sees.channel in absurd (cc)

    -- A limit pin can be set on either channel, and leaves the channels alone.
    Runs-set_pwm :
        (i : ℕ) (pin : PwmPin) (duty : p.F64) (s : Channels) (v : View X)
        → pin ≢ PwmPin.i_set
        → Runs i
            (set_pwm i pin duty)
            s
            v
            (record v { duties = with_pin pin (pin_value i pin duty) v.duties })
    unfolding set_pwm channel_at
    Runs-set_pwm i PwmPin.i_set duty s v ne sees = absurd (ne refl)
    Runs-set_pwm zero PwmPin.max_i_pos duty s v ne sees =
        (_, _, refl, put_duties 0 (with_pin PwmPin.max_i_pos _) s v sees)
    Runs-set_pwm zero PwmPin.max_i_neg duty s v ne sees =
        (_, _, refl, put_duties 0 (with_pin PwmPin.max_i_neg _) s v sees)
    Runs-set_pwm zero PwmPin.max_v duty s v ne sees =
        (_, _, refl, put_duties 0 (with_pin PwmPin.max_v _) s v sees)
    Runs-set_pwm (suc zero) PwmPin.max_i_pos duty s v ne sees =
        (_, _, refl, put_duties 1 (with_pin PwmPin.max_i_pos _) s v sees)
    Runs-set_pwm (suc zero) PwmPin.max_i_neg duty s v ne sees =
        (_, _, refl, put_duties 1 (with_pin PwmPin.max_i_neg _) s v sees)
    Runs-set_pwm (suc zero) PwmPin.max_v duty s v ne sees =
        (_, _, refl, put_duties 1 (with_pin PwmPin.max_v _) s v sees)
    Runs-set_pwm (suc (suc i)) pin duty s v ne sees = let none_there = sees.channel in absurd (cc)

    -- A limit is written to the state, its pin is set, and a value is returned.
    Runs-limit :
        {A : Type 0} (i : ℕ) (f : ChannelState → ChannelState) (pin : PwmPin) (duty : p.F64)
        (k : p.F64 → A) (s : Channels) (v : View X)
        → pin ≢ PwmPin.i_set
        → Runs i
            (modify_state i f >>= λ _. set_pwm i pin duty >>= λ d. pure (k d))
            s
            v
            (record (with_state f v) { duties = with_pin pin (pin_value i pin duty) v.duties })
    Runs-limit i f pin duty k s v ne =
        let v₁ = with_state f v in
        let v₂ = record v₁ { duties = with_pin pin (pin_value i pin duty) v.duties } in
        Runs->>= i (modify_state i f) (λ _. set_pwm i pin duty >>= λ d. pure (k d)) s v v₁ v₂
          (Runs-modify_state i f s v)
          (λ _ s'.
            Runs->>= i (set_pwm i pin duty) (λ d. pure (k d)) s' v₁ v₂ v₂
              (Runs-set_pwm i pin duty s' v₁ ne) (λ d s''. Runs-pure i (k d) s'' v₂))

    pub Runs-set_max_v :
        (i : ℕ) (x : p.F64) (s : Channels) (v : View X)
        → Runs i (set_max_v i x) s v (with_max_v i x v)
    unfolding set_max_v
    Runs-set_max_v i x s v = Runs-limit i _ PwmPin.max_v _ _ s v cc

    pub Runs-set_max_i_pos :
        (i : ℕ) (x : p.F64) (s : Channels) (v : View X)
        → Runs i (set_max_i_pos i x) s v (with_max_i_pos i x v)
    unfolding set_max_i_pos
    Runs-set_max_i_pos i x s v =
        let q = v.channel.state.polarity in
        Runs-get i _ s v _ (Runs-limit i _ (pos_pin q) _ _ s v (pos_pin_ne q))

    pub Runs-set_max_i_neg :
        (i : ℕ) (x : p.F64) (s : Channels) (v : View X)
        → Runs i (set_max_i_neg i x) s v (with_max_i_neg i x v)
    unfolding set_max_i_neg
    Runs-set_max_i_neg i x s v =
        let q = v.channel.state.polarity in
        Runs-get i _ s v _ (Runs-limit i _ (neg_pin q) _ _ s v (neg_pin_ne q))

    module _ (laws : IsLawful) (works : BusWorks)
        (apart : (e : b.Env) (j : ℕ) (bytes : List ℕ)
          → look (b.dac_transfer e j bytes).1 ≡ look e) where
      pub Runs-set_i :
          (i : ℕ) (x : p.F64) (s : Channels) (v : View X)
          → Runs i (set_i i x) s v (with_current x v)
      Runs-set_i i x s v sees =
          let (r, s', run, has', _, pins₀, pins₁, env, _, _, _) =
            sets_current laws works i x s v.channel sees.channel in
          (
            r,
            s',
            run,
            record {
              channel = has';
              duties = duties_at-same i s s' pins₀ pins₁ ∙ sees.duties;
              seen = ap look env ∙ apart s.env i (driven v.channel x).dac ∙ sees.seen;
            },
          )

      -- The steps of `set_polarity` where the polarity changes.
      Runs-change :
          (i : ℕ) (q : Polarity) (s : Channels) (v : View X)
          → same_polarity v.channel.state.polarity q ≡ false
          → Runs i (set_polarity i q) s v (repolarised i q v)
      unfolding set_polarity
      Runs-change i q s v differs =
          let x = v.channel.state.i_set in
          let l = limits_of_view v in
          let v₁ = with_state (λ st. record st { polarity = q }) v in
          let v₂ = with_current x v₁ in
          let v₃ = with_max_i_pos i l.max_i_pos v₂ in
          let v₄ = repolarised i q v in
          Runs-get i _ s v v₄ (
            rw differs (
              Runs->>= i (modify_state i (λ st. record st { polarity = q })) _ s v v₁ v₄
                (Runs-modify_state i (λ st. record st { polarity = q }) s v)
                λ _ s₁. Runs->>= i (set_i i x) _ s₁ v₁ v₂ v₄ (Runs-set_i i x s₁ v₁) λ _ s₂.
                  Runs->>= i (set_max_i_pos i l.max_i_pos) _ s₂ v₂ v₃ v₄
                    (Runs-set_max_i_pos i l.max_i_pos s₂ v₂)
                    λ _ s₃.
                      Runs->>= i (set_max_i_neg i l.max_i_neg) _ s₃ v₃ v₄ v₄
                        (Runs-set_max_i_neg i l.max_i_neg s₃ v₃) λ _ s₄. Runs-pure i tt s₄ v₄))

      Runs-keep :
          (i : ℕ) (q : Polarity) (s : Channels) (v : View X)
          → same_polarity v.channel.state.polarity q ≡ true
          → Runs i (set_polarity i q) s v v
      unfolding set_polarity
      Runs-keep i q s v same = Runs-get i _ s v v (rw same (Runs-pure i tt s v))

      -- `set_polarity` leaves the channel with the polarity; where it changes, the current and the
      -- limits are set again under it.
      pub Runs-set_polarity :
          (i : ℕ) (q : Polarity) (v : View X)
          → (v' : View X) × ((s : Channels) → Runs i (set_polarity i q) s v v')
            × (((v' ≡ v) × (v.channel.state.polarity ≡ q)) ⊎ (v' ≡ repolarised i q v))
      Runs-set_polarity i q v = elim (Bool-cases (same_polarity v.channel.state.polarity q)) [
        | inl same ↦ (
          v,
          (λ s. Runs-keep i q s v same),
          inl (refl, same_polarity_sound v.channel.state.polarity q same),
        )
        | inr differs ↦ (repolarised i q v, (λ s. Runs-change i q s v differs), inr refl)
      ]
