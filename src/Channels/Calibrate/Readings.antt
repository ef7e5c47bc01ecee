-- ===== src/Channels/Calibrate/Readings.antt =====
-- A reading of `src/channels.rs` through the processor's converter returns and moves no output.
use thermostat.Prelude.{
  ℕ, zero, suc, ◌+◌, ◌/◌, ◌^◌, ◌≡◌, ◌∙◌, refl, Bool, true, false, some, arith, ◌%◌, ◌==◌,
}
use thermostat.Platform.{Platform}
use thermostat.Command
use thermostat.Channels.{
  Board, Channel, Channels, PinsAdcReadTarget, vref, dac_vfb, i_tec, v_tec, M, ◌>>=◌, channel_at,
  get_channel, get_state,
}
use thermostat.Channels.Sense.{accumulate, average, sample_of, adc_read, get_center}

module _ ⦃p : Platform⦄ ⦃b : Board⦄ where
  -- The method returns a result and a channel at the index that meet `P`.
  abbrev pub Leads : {A : Type 0} → (A → Channel → Type 0) → ℕ → M A → Channels → Type 0
  Leads {A} P i m s =
      (r : A) × (s' : Channels) × (c' : Channel) × (m s ≡ some (r, s'))
      × (channel_at i s' ≡ some c')
      × P r c'

  Leads->>= :
      {A B : Type 0} (P : A → Channel → Type 0) (Q : B → Channel → Type 0) (i : ℕ) (m : M A)
      (k : A → M B) (s : Channels)
      → Leads P i m s
      → ((r : A) (s' : Channels) (c' : Channel)
          → channel_at i s' ≡ some c'
          → P r c'
          → Leads Q i (k r) s')
      → Leads Q i (m >>= k) s
  Leads->>= P Q i m k s (r, s', c', run, has', h) rest =
      let (q, s'', c'', run', has'', h') = rest r s' c' has' h in
      (q, s'', c'', rw (run, ◌>>=◌) run', has'', h')

  pub channel_at-env :
      (i : ℕ) (s : Channels) (e : b.Env) → channel_at i (record s { env = e }) ≡ channel_at i s
  unfolding channel_at
  channel_at-env zero s e = refl
  channel_at-env (suc zero) s e = refl
  channel_at-env (suc (suc i)) s e = refl

  -- A reading takes only the environment.
  abbrev pub Reads : {A : Type 0} → ℕ → M A → Channels → Channel → Type 0
  Reads i m s c = Leads (λ _ c'. c' ≡ c) i m s

  accumulate-Reads :
      (i : ℕ) (target : PinsAdcReadTarget) (n sample : ℕ) (s : Channels) (c : Channel)
      → channel_at i s ≡ some c
      → Reads i (accumulate i target n sample) s c
  unfolding accumulate
  accumulate-Reads i target zero sample s c has = (_, s, c, refl, has, refl)
  accumulate-Reads i target (suc n) sample s c has =
      let (x, e) = b.convert s.env i target in
      accumulate-Reads i target n ((sample + x) % 2 ^ 32) (record s { env = e }) c
        (channel_at-env i s e ∙ has)

  average-Reads :
      (i : ℕ) (target : PinsAdcReadTarget) (n : ℕ) (s : Channels) (c : Channel)
      → (n == 0) ≡ false
      → channel_at i s ≡ some c
      → Reads i (average i target n) s c
  unfolding average
  average-Reads i target n s c some_points has =
      let (x, s', c', run, has', same) = accumulate-Reads i target n 0 s c has in
      (x / n, s', c', rw (average, ◌>>=◌, run, some_points) refl, has', same)

  sample_of-Reads :
      (i : ℕ) (target : PinsAdcReadTarget) (analog : Bool) (n : ℕ) (s : Channels) (c : Channel)
      → (n == 0) ≡ false
      → channel_at i s ≡ some c
      → Reads i (sample_of i target analog n) s c
  unfolding sample_of
  sample_of-Reads i vref false n s c some_points has = (_, s, c, refl, has, refl)
  sample_of-Reads i vref true n s c some_points has = average-Reads i vref n s c some_points has
  sample_of-Reads i dac_vfb analog n s c some_points has =
      average-Reads i dac_vfb n s c some_points has
  sample_of-Reads i i_tec analog n s c some_points has = average-Reads i i_tec n s c some_points has
  sample_of-Reads i v_tec analog n s c some_points has = average-Reads i v_tec n s c some_points has

  pub get_channel_run :
      (i : ℕ) (s : Channels) (c : Channel) → channel_at i s ≡ some c → get_channel i s ≡ some (c, s)
  unfolding get_channel
  get_channel_run i s c has = ground arith

  pub adc_read-Reads :
      (i : ℕ) (target : PinsAdcReadTarget) (n : ℕ) (s : Channels) (c : Channel)
      → (n == 0) ≡ false
      → channel_at i s ≡ some c
      → Reads i (adc_read i target n) s c
  unfolding adc_read
  adc_read-Reads i target n s c some_points has =
      let (x, s', c', run, has', same) =
        sample_of-Reads i target c.vref_analog n s c some_points has in
      (
        p.of_millivolt (p.of_u32 (b.to_millivolts (x % 2 ^ 16))),
        s',
        c',
        rw (adc_read, get_channel_run i s c has, ◌>>=◌) (rw (run, ◌>>=◌) refl),
        has',
        same,
      )

  center-Reads :
      (i : ℕ) (s : Channels) (c : Channel) (z : Command.CenterPoint)
      → c.state.center ≡ z
      → channel_at i s ≡ some c
      → Reads i (get_center i) s c
  unfolding get_center get_state
  center-Reads i s c Command.vref e has =
      let (x, s', c', run, has', same) = adc_read-Reads i vref 8 s c refl has in
      (x, s', c', rw (get_center, get_channel_run i s c has, ◌>>=◌) (rw e run), has', same)
  center-Reads i s c (Command.override v) e has =
      (p.widen v, s, c, rw (get_center, get_channel_run i s c has, ◌>>=◌) (rw e refl), has, refl)

  pub get_center-Reads :
      (i : ℕ) (s : Channels) (c : Channel) → channel_at i s ≡ some c → Reads i (get_center i) s c
  get_center-Reads i s c has = center-Reads i s c c.state.center refl has

  pub bind_run :
      {A B : Type 0} (m : M A) (k : A → M B) (s : Channels) (a : A) (s' : Channels)
      → m s ≡ some (a, s')
      → (m >>= k) s ≡ k a s'
  bind_run m k s a s' run = rw (run, ◌>>=◌) refl
