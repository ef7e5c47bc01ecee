-- ===== src/Channels/Isolation.antt =====
-- A method of `src/channels.rs` that is called for one channel does not touch the other one.
pub mod Outputs
pub mod Measures
pub mod Settings
use thermostat.Prelude.{
  ℕ, zero, suc, ◌≡◌, refl, sym, ap, ◌∙◌, inl, inr, Bool, true, false, Option, none, some,
  Option-cases, arith,
}
use mathlib.Core.Path.{subst}
use thermostat.Platform.{Platform}
use thermostat.ChannelState.{ChannelState}
use thermostat.Command.{PwmPin}
use thermostat.Channels.{
  Board, Channel, Channels, Duties, M, pure, panic, ◌>>=◌, with_env, unwrap, unwrap_ok, get_channel,
  put_channel, modify_channel, modify_state, get_state, channel_at,
}

module _ ⦃p : Platform⦄ ⦃b : Board⦄ where
  -- The channel beside the one at the index, and its limit pins.
  abbrev pub beside : ℕ → Channels → Channel × Duties
  beside zero s = (s.channel1, s.pwm1)
  beside (suc i) s = (s.channel0, s.pwm0)

  -- What holds of the state after a method, if it returns.
  abbrev pub After : {A : Type 0} → (Channels → Type 0) → Option (A × Channels) → Type 0
  After P none = Unit
  After P (some (r, s)) = P s

  -- Wherever the method returns, what is beside the channel is as it was.
  abbrev pub IsLocal : {A : Type 0} → ℕ → M A → Type 0
  IsLocal i m = (s : Channels) → After (λ s'. beside i s' ≡ beside i s) (m s)

  After-bind :
      {A B : Type 0} (i : ℕ) (k : A → M B) (s : Channels) (o : Option (A × Channels))
      → After (λ s'. beside i s' ≡ beside i s) o
      → ((r : A) → IsLocal i (k r))
      → After (λ s'. beside i s' ≡ beside i s) (elim o [ none ↦ none | some (a, s') ↦ k a s' ])
  After-bind i k s none h rest = tt
  After-bind i k s (some (r, s')) h rest =
      subst (λ t. After (λ s''. beside i s'' ≡ t) (k r s')) h (rest r s')

  pub IsLocal->>= :
      {A B : Type 0} (i : ℕ) (m : M A) (k : A → M B)
      → IsLocal i m
      → ((r : A) → IsLocal i (k r))
      → IsLocal i (m >>= k)
  IsLocal->>= i m k first rest s = After-bind i k s (m s) (first s) rest

  pub IsLocal-pure : {A : Type 0} (i : ℕ) (a : A) → IsLocal i (pure a)
  IsLocal-pure i a s = refl

  pub IsLocal-with_env : {A : Type 0} (i : ℕ) (f : b.Env → A × b.Env) → IsLocal i (with_env f)
  IsLocal-with_env zero f s = refl
  IsLocal-with_env (suc i) f s = refl

  pub IsLocal-unwrap : {A : Type 0} (i : ℕ) (o : Option A) → IsLocal i (unwrap o)
  IsLocal-unwrap i none s = tt
  IsLocal-unwrap i (some a) s = refl

  pub IsLocal-unwrap_ok : (i : ℕ) (done : Bool) → IsLocal i (unwrap_ok done)
  IsLocal-unwrap_ok i false s = tt
  IsLocal-unwrap_ok i true s = refl

  pub IsLocal-get_channel : (i : ℕ) → IsLocal i (get_channel i)
  unfolding get_channel channel_at
  IsLocal-get_channel zero s = refl
  IsLocal-get_channel (suc zero) s = refl
  IsLocal-get_channel (suc (suc i)) s = tt

  IsLocal-put_channel : (i : ℕ) (c : Channel) → IsLocal i (put_channel i c)
  unfolding put_channel
  IsLocal-put_channel zero c s = refl
  IsLocal-put_channel (suc zero) c s = refl
  IsLocal-put_channel (suc (suc i)) c s = tt

  pub IsLocal-modify_channel : (i : ℕ) (f : Channel → Channel) → IsLocal i (modify_channel i f)
  unfolding modify_channel
  IsLocal-modify_channel i f =
      IsLocal->>= i (get_channel i) _ (IsLocal-get_channel i) λ c. IsLocal-put_channel i (f c)

  pub IsLocal-modify_state :
      (i : ℕ) (f : ChannelState → ChannelState) → IsLocal i (modify_state i f)
  unfolding modify_state
  IsLocal-modify_state i f = IsLocal-modify_channel i (λ c. record c { state = f c.state })

  pub IsLocal-get_state : (i : ℕ) → IsLocal i (get_state i)
  unfolding get_state
  IsLocal-get_state i =
      IsLocal->>= i (get_channel i) _ (IsLocal-get_channel i) λ c. IsLocal-pure i c.state
