-- ===== src/Channels/Calibrate/Search.antt =====
-- The search of the calibration in `src/channels.rs` returns and stays in the scale of the DAC.
use thermostat.Prelude.{
  ℕ, zero, suc, List, ◌+◌, ◌*◌, ◌^◌, ◌≤◌, ◌<◌, ◌≡◌, ◌∙◌, ◌⊎◌, inl, inr, refl, sym, some, arith,
  if◌then◌else◌, Bool-cases,
}
use mathlib.Core.Path.{subst}
use native.Mathlib.Nat.{pow-suc}
use thermostat.Platform.{Platform, nought}
use thermostat.Dac.{max_value, frame}
use thermostat.Channels.{
  Board, Channel, Channels, dac_vfb, M, pure, ◌>>=◌, ◌>>◌, channel_at, get_channel, modify_channel,
  put_channel,
}
use thermostat.Channels.Output.{write_dac}
use thermostat.Channels.Sense.{adc_read, get_center}
use thermostat.Channels.Limits.Safety.{BusWorks}
use thermostat.Channels.Calibrate.{sum_center, Best, count, vref_for, scan, search}
use thermostat.Channels.Calibrate.Readings.{
  bind_run, Leads, Reads, channel_at-env, get_channel_run, adc_read-Reads, get_center-Reads,
}

module _ ⦃p : Platform⦄ ⦃b : Board⦄ where
  pub modify_channel-Leads :
      (i : ℕ) (f : Channel → Channel) (s : Channels) (c : Channel)
      → channel_at i s ≡ some c
      → Leads (λ _ c'. c' ≡ f c) i (modify_channel i f) s
  unfolding modify_channel get_channel put_channel channel_at
  modify_channel-Leads zero f s c has =
      (tt, record s { channel0 = f c }, f c, ground arith, refl, refl)
  modify_channel-Leads (suc zero) f s c has =
      (tt, record s { channel1 = f c }, f c, ground arith, refl, refl)
  modify_channel-Leads (suc (suc i)) f s c has = absurd (cc)

  -- A value of the DAC that is not zero.
  abbrev pub IsWord : ℕ → Type 0
  IsWord v = (1 ≤ v) × (v ≤ max_value)

  -- What the search changes of a channel: the word in the DAC, and the reference measured.
  pub record Calibrates (c c' : Channel) : Type 0 where
    pub state : c'.state ≡ c.state
    pub shdn : c'.shdn ≡ c.shdn
    pub vref_analog : c'.vref_analog ≡ c.vref_analog
    pub vref_meas :
        (c'.vref_meas ≡ c.vref_meas) ⊎ ((v : ℕ) × IsWord v × (c'.vref_meas ≡ vref_for v))

  pub Calibrates-refl : (c : Channel) → Calibrates c c
  Calibrates-refl c = record { state = refl; shdn = refl; vref_analog = refl; vref_meas = inl refl }

  Calibrates-dac :
      (c₀ c : Channel) (word : List ℕ) → Calibrates c₀ c → Calibrates c₀ (record c { dac = word })
  Calibrates-dac c₀ c word h = record {
    state = h.state;
    shdn = h.shdn;
    vref_analog = h.vref_analog;
    vref_meas = h.vref_meas;
  }

  Calibrates-vref :
      (c₀ c : Channel) (v : ℕ)
      → IsWord v
      → Calibrates c₀ c
      → Calibrates c₀ (record c { vref_meas = vref_for v })
  Calibrates-vref c₀ c v w h = record {
    state = h.state;
    shdn = h.shdn;
    vref_analog = h.vref_analog;
    vref_meas = inr (v, w, refl);
  }

  module _ (works : BusWorks) (i : ℕ) where
    pub write_dac-Leads :
        (value : ℕ) (s : Channels) (c : Channel)
        → channel_at i s ≡ some c
        → Leads (λ _ c'. c' ≡ record c { dac = frame value }) i (write_dac i value) s
    unfolding write_dac
    write_dac-Leads value s c has =
        let e = (b.dac_transfer s.env i (frame value)).1 in
        let (_, s', c', run, has', same) =
          modify_channel-Leads i (λ d. record d { dac = frame value }) (record s { env = e }) c
            (channel_at-env i s e ∙ has) in
        (
          tt,
          s',
          c',
          rw (write_dac, get_channel_run i s c has, ◌>>=◌) (rw (works s.env i (frame value)) run),
          has',
          same,
        )

    -- One value of the search.
    abbrev Turn : ℕ → Channels → Channel → p.F64 → Channels → Channel → Type 0
    Turn value s c feedback s' c' =
        (sₘ : Channels) × (write_dac i value s ≡ some (tt, sₘ))
        × (adc_read i dac_vfb 64 sₘ ≡ some (feedback, s'))
        × (channel_at i s' ≡ some c')
        × (c' ≡ record c { dac = frame value })

    turn :
        (value : ℕ) (s : Channels) (c : Channel)
        → channel_at i s ≡ some c
        → (feedback : p.F64) × (s' : Channels) × (c' : Channel) × Turn value s c feedback s' c'
    turn value s c has =
        let (_, s₁, c₁, run₁, has₁, same₁) = write_dac-Leads value s c has in
        let (x, s₂, c₂, run₂, has₂, same₂) = adc_read-Reads i dac_vfb 64 s₁ c₁ refl has₁ in
        (x, s₂, c₂, (s₁, run₁, run₂, has₂, same₂ ∙ same₁))

    -- So many values, `step` apart, stay within the scale.
    abbrev Fits : ℕ → ℕ → ℕ → Type 0
    Fits n step value = value + n * step ≤ max_value + step

    value_in : (n step value : ℕ) → Fits (suc n) step value → value ≤ max_value
    value_in n step value h = grind arith

    rest_in : (n step value : ℕ) → Fits (suc n) step value → Fits n step (value + step)
    rest_in n step value h = grind arith

    count_in : (start step : ℕ) → 0 < step → start ≤ max_value → Fits (count start step) step start
    count_in start step pos h = grind arith

    abbrev pub Finds : Channel → Best → Channel → Type 0
    Finds c₀ best c' = Calibrates c₀ c' × IsWord best.start_value

    -- The rest of a turn, by the reading.
    abbrev next : p.F64 → ℕ → ℕ → ℕ → Best → p.F64 → M Best
    next target step n value best error =
        if p.lt error nought
        then pure best
        else if p.lt error best.best_error
        then (modify_channel i (λ c. record c { vref_meas = vref_for value })
            >> scan i target step n (value + step)
                (record { start_value = value; best_error = error }))
        else scan i target step n (value + step) best

    scan_turn :
        (target : p.F64) (step n value : ℕ) (best : Best) (x : p.F64) (s sₘ s' : Channels)
        → write_dac i value s ≡ some (tt, sₘ)
        → adc_read i dac_vfb 64 sₘ ≡ some (x, s')
        → scan i target step (suc n) value best s
          ≡ next target step n value best (p.sub target x) s'
    unfolding scan
    scan_turn target step n value best x s sₘ s' wrote read =
        bind_run (write_dac i value) _ s tt sₘ wrote
        ∙ bind_run (adc_read i dac_vfb 64) _ sₘ x s' read

    scan-Leads :
        (c₀ : Channel) (target : p.F64) (step n value : ℕ) (best : Best) (s : Channels)
        (c : Channel)
        → channel_at i s ≡ some c
        → Calibrates c₀ c
        → IsWord best.start_value
        → 1 ≤ value
        → Fits n step value
        → Leads (Finds c₀) i (scan i target step n value best) s
    unfolding scan
    scan-Leads c₀ target step zero value best s c has kept word above fits =
        (best, s, c, refl, has, (kept, word))
    scan-Leads c₀ target step (suc n) value best s c has kept word above fits =
        let (x, s', c', (sₘ, wrote, read, has', dac)) = turn value s c has in
        let error = p.sub target x in
        let here : IsWord value = (above, value_in n step value fits) in
        let kept' : Calibrates c₀ c' =
          subst (Calibrates c₀) (sym dac) (Calibrates-dac c₀ c (frame value) kept) in
        let run = scan_turn target step n value best x s sₘ s' wrote read in
        elim (Bool-cases (p.lt error nought)) [
          | inl over ↦ (best, s', c', run ∙ rw over refl, has', (kept', word))
          | inr under ↦ elim (Bool-cases (p.lt error best.best_error)) [
            | inl better ↦
                let (_, s₁, c₁, set, has₁, same) =
                  modify_channel-Leads i (λ d. record d { vref_meas = vref_for value }) s' c'
                    has' in
                let (r, s'', c'', more, has'', found) =
                  scan-Leads c₀ target step n (value + step)
                    (record { start_value = value; best_error = error }) s₁ c₁ has₁
                    (subst (Calibrates c₀) (sym same) (Calibrates-vref c₀ c' value here kept')) here
                    (omega arith) (rest_in n step value fits) in
                (
                  r,
                  s'',
                  c'',
                  run ∙ rw (under, better) (bind_run (modify_channel i _) _ s' tt s₁ set ∙ more),
                  has'',
                  found,
                )
            | inr worse ↦
                let (r, s'', c'', more, has'', found) =
                  scan-Leads c₀ target step n (value + step) best s' c' has' kept' word
                    (omega arith) (rest_in n step value fits) in
                (r, s'', c'', run ∙ rw (under, worse) more, has'', found)
          ]
        ]

    pow_pos : (n : ℕ) → 0 < 2 ^ n
    pow_pos zero = omega arith
    pow_pos (suc n) = rw (pow-suc 2 n) (omega (arith, pow_pos n))

    pub search-Leads :
        (c₀ : Channel) (target : p.F64) (n : ℕ) (best : Best) (s : Channels) (c : Channel)
        → channel_at i s ≡ some c
        → Calibrates c₀ c
        → IsWord best.start_value
        → Leads (Finds c₀) i (search i target n best) s
    unfolding search
    search-Leads c₀ target zero best s c has kept word = (best, s, c, refl, has, (kept, word))
    search-Leads c₀ target (suc n) best s c has kept word =
        let step = 2 ^ (n + 5) in
        let (best', s₁, c₁, run, has₁, (kept₁, word₁)) =
          scan-Leads c₀ target step (count best.start_value step) best.start_value best s c has kept
            word word.0 (count_in best.start_value step (pow_pos (n + 5)) word.1) in
        let (r, s₂, c₂, more, has₂, found) =
          search-Leads c₀ target n best' s₁ c₁ has₁ kept₁ word₁ in
        (
          r,
          s₂,
          c₂,
          bind_run (scan i target step (count best.start_value step) best.start_value best)
                (search i target n) s best' s₁ run
              ∙ more,
          has₂,
          found,
        )

    pub sum_center-Reads :
        (n : ℕ) (sum : p.F64) (s : Channels) (c : Channel)
        → channel_at i s ≡ some c
        → Reads i (sum_center i n sum) s c
    unfolding sum_center
    sum_center-Reads zero sum s c has = (sum, s, c, refl, has, refl)
    sum_center-Reads (suc n) sum s c has =
        let (x, s₁, c₁, run, has₁, same) = get_center-Reads i s c has in
        let (r, s₂, c₂, more, has₂, same') = sum_center-Reads n (p.add sum x) s₁ c₁ has₁ in
        (r, s₂, c₂, bind_run (get_center i) _ s x s₁ run ∙ more, has₂, same' ∙ same)
