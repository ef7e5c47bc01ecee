-- ===== src/Channels/Isolation/Outputs.antt =====
-- The outputs of one channel, and the settings that change them.
use thermostat.Prelude.{ℕ, zero, suc, refl, Bool, true, false, Option, none, some, if◌then◌else◌}
use thermostat.Platform.{Platform}
use thermostat.Command.{PwmPin, Polarity, i_set, max_i_pos, max_i_neg, max_v}
use thermostat.Ad7172.Filter.{PostFilter}
use thermostat.ChannelState.{OutputLimits}
use thermostat.ChannelState
use thermostat.Dac.{frame}
use thermostat.Channels.{
  Board, M, ◌>>◌, with_env, unwrap, unwrap_ok, get_channel, modify_state, get_state,
}
use thermostat.Channels.Output.{
  write_dac, set_dac, set_i, power_up, power_down, put_pwm, set_pwm, set_max_v, set_max_i_pos,
  set_max_i_neg, set_polarity, same_polarity, duty_value,
}
use thermostat.Channels.Control.{set_postfilter, drive, process}
use thermostat.Channels.Isolation.{
  IsLocal, IsLocal->>=, IsLocal-pure, IsLocal-with_env, IsLocal-unwrap, IsLocal-unwrap_ok,
  IsLocal-get_channel, IsLocal-modify_channel, IsLocal-modify_state, IsLocal-get_state,
}

module _ ⦃p : Platform⦄ ⦃b : Board⦄ where
  open p use {F64}

  pub IsLocal->> :
      {A B : Type 0} (i : ℕ) (m : M A) (k : M B) → IsLocal i m → IsLocal i k → IsLocal i (m >> k)
  IsLocal->> i m k first rest = IsLocal->>= i m (λ _. k) first λ _. rest

  pub IsLocal-write_dac : (i value : ℕ) → IsLocal i (write_dac i value)
  unfolding write_dac
  IsLocal-write_dac i value =
      let send = λ (e : b.Env). b.dac_transfer e i (frame value) in
      IsLocal->>= i (get_channel i) _ (IsLocal-get_channel i) λ _.
        IsLocal->>= i (with_env send) _ (IsLocal-with_env i send) λ sent.
          IsLocal->> i (unwrap_ok sent) _ (IsLocal-unwrap_ok i sent)
            (IsLocal-modify_channel i (λ c. record c { dac = frame value }))

  pub IsLocal-set_dac : (i : ℕ) (voltage : F64) → IsLocal i (set_dac i voltage)
  unfolding set_dac
  IsLocal-set_dac i voltage =
      IsLocal->> i (write_dac i _) _ (IsLocal-write_dac i _)
        (IsLocal->> i (modify_state i _) _ (IsLocal-modify_state i _) (λ s. refl))

  pub IsLocal-set_i : (i : ℕ) (x : F64) → IsLocal i (set_i i x)
  unfolding set_i
  IsLocal-set_i i x = IsLocal->> i (modify_state i _) _ (IsLocal-modify_state i _) (
      IsLocal->>= i (get_channel i) _ (IsLocal-get_channel i)
        λ c. IsLocal->>= i (set_dac i _) _ (IsLocal-set_dac i _) λ v. λ s. refl)

  pub IsLocal-power_up : (i : ℕ) → IsLocal i (power_up i)
  unfolding power_up
  IsLocal-power_up i = IsLocal-modify_channel i _

  IsLocal-power_down : (i : ℕ) → IsLocal i (power_down i)
  unfolding power_down
  IsLocal-power_down i = IsLocal-modify_channel i _

  IsLocal-put_pwm : (i : ℕ) (pin : PwmPin) (v : ℕ) → IsLocal i (put_pwm i pin v)
  unfolding put_pwm
  IsLocal-put_pwm zero i_set v s = tt
  IsLocal-put_pwm zero max_i_pos v s = refl
  IsLocal-put_pwm zero max_i_neg v s = refl
  IsLocal-put_pwm zero max_v v s = refl
  IsLocal-put_pwm (suc zero) i_set v s = tt
  IsLocal-put_pwm (suc zero) max_i_pos v s = refl
  IsLocal-put_pwm (suc zero) max_i_neg v s = refl
  IsLocal-put_pwm (suc zero) max_v v s = refl
  IsLocal-put_pwm (suc (suc i)) pin v s = tt

  IsLocal-set_pwm : (i : ℕ) (pin : PwmPin) (duty : F64) → IsLocal i (set_pwm i pin duty)
  unfolding set_pwm
  IsLocal-set_pwm i pin duty =
      let value = duty_value (b.max_duty i pin) duty in
      IsLocal->> i (put_pwm i pin value) _ (IsLocal-put_pwm i pin value) (λ s. refl)

  pub IsLocal-set_max_v : (i : ℕ) (x : F64) → IsLocal i (set_max_v i x)
  unfolding set_max_v
  IsLocal-set_max_v i x =
      IsLocal->> i (modify_state i _) _ (IsLocal-modify_state i _)
        (IsLocal->>= i (set_pwm i max_v _) _ (IsLocal-set_pwm i max_v _) λ d. λ s. refl)

  pub IsLocal-set_max_i_pos : (i : ℕ) (x : F64) → IsLocal i (set_max_i_pos i x)
  unfolding set_max_i_pos
  IsLocal-set_max_i_pos i x = IsLocal->>= i (get_state i) _ (IsLocal-get_state i) λ st.
      IsLocal->> i (modify_state i _) _ (IsLocal-modify_state i _)
        (IsLocal->>= i (set_pwm i _ _) _ (IsLocal-set_pwm i _ _) λ d. λ s. refl)

  pub IsLocal-set_max_i_neg : (i : ℕ) (x : F64) → IsLocal i (set_max_i_neg i x)
  unfolding set_max_i_neg
  IsLocal-set_max_i_neg i x = IsLocal->>= i (get_state i) _ (IsLocal-get_state i) λ st.
      IsLocal->> i (modify_state i _) _ (IsLocal-modify_state i _)
        (IsLocal->>= i (set_pwm i _ _) _ (IsLocal-set_pwm i _ _) λ d. λ s. refl)

  pub IsLocal-set_postfilter : (i : ℕ) (f : Option PostFilter) → IsLocal i (set_postfilter i f)
  unfolding set_postfilter
  IsLocal-set_postfilter i f =
      let set = λ (e : b.Env). b.set_postfilter e i f in
      IsLocal->>= i (with_env set) _ (IsLocal-with_env i set) λ done. IsLocal-unwrap_ok i done

  pub IsLocal-if :
      {A : Type 0} (i : ℕ) (c : Bool) (m k : M A)
      → IsLocal i m
      → IsLocal i k
      → IsLocal i (if c then m else k)
  IsLocal-if i true m k first rest = first
  IsLocal-if i false m k first rest = rest

  pub IsLocal-set_polarity : (i : ℕ) (q : Polarity) → IsLocal i (set_polarity i q)
  unfolding set_polarity
  IsLocal-set_polarity i q = IsLocal->>= i (get_state i) _ (IsLocal-get_state i) λ st.
      IsLocal-if i (same_polarity st.polarity q) _ _ (λ s. refl)
        (IsLocal->> i (modify_state i _) _ (IsLocal-modify_state i _) (
          IsLocal->> i (set_i i _) _ (IsLocal-set_i i _) (
            IsLocal->> i (set_max_i_pos i _) _ (IsLocal-set_max_i_pos i _)
              (IsLocal->> i (set_max_i_neg i _) _ (IsLocal-set_max_i_neg i _) (λ s. refl)))))

  IsLocal-drive : (i : ℕ) (o : Option F64) (engaged : Bool) → IsLocal i (drive i o engaged)
  unfolding drive
  IsLocal-drive i (some x) true =
      IsLocal->> i (set_i i x) _ (IsLocal-set_i i x) (IsLocal-power_up i)
  IsLocal-drive i none true = IsLocal-power_down i
  IsLocal-drive i (some x) false = IsLocal-pure i tt
  IsLocal-drive i none false = IsLocal-pure i tt

  -- A reading of one channel.
  IsLocal-process : (now i reading : ℕ) → IsLocal i (process now i reading)
  unfolding process
  IsLocal-process now i reading = IsLocal->> i (modify_state i _) _ (IsLocal-modify_state i _) (
      IsLocal->>= i (get_state i) _ (IsLocal-get_state i) λ st.
        IsLocal->>= i (unwrap (ChannelState.update_pid st)) _ (IsLocal-unwrap i _)
          λ r. IsLocal->> i (modify_state i _) _ (IsLocal-modify_state i _) (IsLocal-drive i r.0 _))
