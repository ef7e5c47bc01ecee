-- ===== src/Channels/Limits/Safety.antt =====
-- The current of a channel stays in range whatever is asked, and what a NaN does to it.
use thermostat.Prelude.{ℕ, zero, suc, ◌≤◌, ◌≡◌, ◌≢◌, refl, ap, ◌∙◌, Bool, true, some, List, arith}
use thermostat.Platform.{Platform, IsNan, ◌≼◌}
use thermostat.Platform.Laws.{IsLawful}
use thermostat.Dac.{frame}
use thermostat.Dac.Frame.{decode, decode-frame}
use thermostat.Dac
use thermostat.Channels.{Board, Channel, Channels, channel_at}
use thermostat.Channels.Output.{max_tec_i, limited, set_i}
use thermostat.Channels.Limits.Current.{Carries, driven-Carries}
use thermostat.Channels.Limits.{with_channel, dac_word, voltage_for, driven, achieved, set_i_run}

module _ ⦃p : Platform⦄ ⦃b : Board⦄ where
  open p use {F64, neg, lt}

  -- Every transfer to the DACs succeeds.
  abbrev pub BusWorks : Type 0
  BusWorks = (e : b.Env) (i : ℕ) (f : List ℕ) → (b.dac_transfer e i f).0 ≡ true

  -- `-MAX_TEC_I` to `MAX_TEC_I`
  abbrev pub IsSafe : F64 → Type 0
  IsSafe x = (neg max_tec_i ≼ x) × (x ≼ max_tec_i)

  pub channel_at-with_channel :
      (i : ℕ) (c c' : Channel) (s s' : Channels)
      → channel_at i s ≡ some c
      → channel_at i (with_channel i c' s') ≡ some c'
  unfolding channel_at
  channel_at-with_channel zero c c' s s' h = refl
  channel_at-with_channel (suc zero) c c' s s' h = refl
  channel_at-with_channel (suc (suc i)) c c' s s' h = absurd (cc)

  channel_at-with_channel_ne :
      (i j : ℕ) (c' : Channel) (s : Channels)
      → j ≢ i
      → channel_at j (with_channel i c' s) ≡ channel_at j s
  unfolding channel_at
  channel_at-with_channel_ne zero zero c' s h = absurd (h refl)
  channel_at-with_channel_ne zero (suc zero) c' s h = refl
  channel_at-with_channel_ne zero (suc (suc j)) c' s h = refl
  channel_at-with_channel_ne (suc zero) zero c' s h = refl
  channel_at-with_channel_ne (suc zero) (suc zero) c' s h = absurd (h refl)
  channel_at-with_channel_ne (suc zero) (suc (suc j)) c' s h = refl
  channel_at-with_channel_ne (suc (suc i)) zero c' s h = refl
  channel_at-with_channel_ne (suc (suc i)) (suc zero) c' s h = refl
  channel_at-with_channel_ne (suc (suc i)) (suc (suc j)) c' s h = refl

  pub channel_at_env :
      (j : ℕ) (s : Channels) (e : b.Env) → channel_at j (record s { env = e }) ≡ channel_at j s
  unfolding channel_at
  channel_at_env zero s e = refl
  channel_at_env (suc zero) s e = refl
  channel_at_env (suc (suc j)) s e = refl

  pwm0_same : (i : ℕ) (c : Channel) (s : Channels) → (with_channel i c s).pwm0 ≡ s.pwm0
  pwm0_same zero c s = refl
  pwm0_same (suc zero) c s = refl
  pwm0_same (suc (suc i)) c s = refl

  pwm1_same : (i : ℕ) (c : Channel) (s : Channels) → (with_channel i c s).pwm1 ≡ s.pwm1
  pwm1_same zero c s = refl
  pwm1_same (suc zero) c s = refl
  pwm1_same (suc (suc i)) c s = refl

  env_same : (i : ℕ) (c : Channel) (s : Channels) → (with_channel i c s).env ≡ s.env
  env_same zero c s = refl
  env_same (suc zero) c s = refl
  env_same (suc (suc i)) c s = refl

  module _ (laws : IsLawful) where
    open laws use {
      num_of_le, min_nan, min-le_right, le-max_right, max-le, min_of_lt, max_of_lt, neg-lit_le,
      neg-lit_lt,
    }

    -- A current inside of the range is not cut.
    pub limited_inside :
        (x : F64) → lt (neg max_tec_i) x ≡ true → lt x max_tec_i ≡ true → limited x ≡ x
    limited_inside x above below =
        ap (λ y. p.maximum y (neg max_tec_i)) (min_of_lt x max_tec_i below)
        ∙ max_of_lt x (neg max_tec_i) above

    pub limited-IsSafe : (x : F64) → IsSafe (limited x)
    limited-IsSafe x =
        let order = neg-lit_le 20 1 in
        let nums = num_of_le (neg max_tec_i) max_tec_i order in
        (
          le-max_right (p.minimum x max_tec_i) (neg max_tec_i) nums.0,
          max-le (p.minimum x max_tec_i) (neg max_tec_i) max_tec_i (min-le_right x max_tec_i nums.1)
              order,
        )

    pub limited_nan : (x : F64) → IsNan x → limited x ≡ max_tec_i
    limited_nan x n =
        ap (λ y. p.maximum y (neg max_tec_i)) (min_nan x max_tec_i n)
        ∙ max_of_lt max_tec_i (neg max_tec_i) (neg-lit_lt 20 1 (omega arith))

    -- `set_i` ran on a channel: the channel that it leaves, everything else being as before.
    abbrev pub SetsCurrent : ℕ → F64 → Channels → Channel → Channel → Type 0
    SetsCurrent i x s c c' =
        (r : F64) × (s' : Channels) × (set_i i x s ≡ some (r, s'))
        × (channel_at i s' ≡ some c')
        × ((j : ℕ) → j ≢ i → channel_at j s' ≡ channel_at j s)
        × (s'.pwm0 ≡ s.pwm0)
        × (s'.pwm1 ≡ s.pwm1)
        × (s'.env ≡ (b.dac_transfer s.env i c'.dac).1)
        × (c'.shdn ≡ c.shdn)
        × (c'.vref_meas ≡ c.vref_meas)
        × (c'.state.polarity ≡ c.state.polarity)

    pub sets_current :
        (works : BusWorks) (i : ℕ) (x : F64) (s : Channels) (c : Channel)
        → channel_at i s ≡ some c
        → SetsCurrent i x s c (driven c x)
    sets_current works i x s c has =
        let f = frame (dac_word (voltage_for c x)) in
        let e = (b.dac_transfer s.env i f).1 in
        let sent : b.dac_transfer s.env i f ≡ (true, e) =
          ap {B = Bool × b.Env} (λ t. (t, e)) (works s.env i f) in
        (
          achieved c x,
          with_channel i (driven c x) (record s { env = e }),
          set_i_run i x s c e has sent,
          channel_at-with_channel i c (driven c x) s (record s { env = e }) has,
          (λ j ne.
              channel_at-with_channel_ne i j (driven c x) (record s { env = e }) ne
              ∙ channel_at_env j s e),
          pwm0_same i (driven c x) (record s { env = e }),
          pwm1_same i (driven c x) (record s { env = e }),
          env_same i (driven c x) (record s { env = e }),
          refl,
          refl,
          refl,
        )

    -- With lawful arithmetic and a DAC bus that works, whatever current is asked for, NaN and
    -- infinities included: on a channel that exists `set_i` returns, the current stored is
    -- between -2 A and 2 A, and is the one asked for where that is strictly between them; the DAC
    -- holds the code of 18 bits for the voltage of the stored current, under the channel's
    -- polarity and reference, and was sent it; the power pin, the limit pins and the other channel
    -- are left alone.
    pub set_i-IsSafe :
        (works : BusWorks) (i : ℕ) (x : F64) (s : Channels) (c : Channel)
        → channel_at i s ≡ some c
        → (c' : Channel) × SetsCurrent i x s c c'
          × IsSafe c'.state.i_set
          × (lt (neg max_tec_i) x ≡ true → lt x max_tec_i ≡ true → c'.state.i_set ≡ x)
          × Carries c'
          × (decode c'.dac ≤ Dac.max_value)
    set_i-IsSafe works i x s c has = (
      driven c x,
      sets_current works i x s c has,
      limited-IsSafe x,
      limited_inside x,
      driven-Carries c x,
      omega (arith, (decode-frame (dac_word (voltage_for c x))).0),
    )

    -- With lawful arithmetic and a DAC bus that works, `set_i` of a current that is NaN on a
    -- channel that exists returns, and stores the largest positive current.
    set_i_nan :
        (works : BusWorks) (i : ℕ) (x : F64) (s : Channels) (c : Channel)
        → channel_at i s ≡ some c
        → IsNan x
        → (c' : Channel) × SetsCurrent i x s c c' × (c'.state.i_set ≡ max_tec_i)
    set_i_nan works i x s c has n = (driven c x, sets_current works i x s c has, limited_nan x n)
