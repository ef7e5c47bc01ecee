-- ===== src/Dac/Driver.antt =====
-- `Dac` of `src/ad5680.rs`: the transfer of a frame between the edges of the line SYNC. What happens
-- on the lines is written down in order.
use thermostat.Prelude.{
  ℕ, ◌+◌, ◌≡◌, refl, ap, sym, ◌∙◌, Bool, true, false, Option, none, some, List, [], ◌∷◌, ◌++◌, min,
  leb, if◌then◌else◌, map,
}
use mathlib.Core.List.{append_assoc, append-nil}
use thermostat.Dac.{max_value, frame}
use thermostat.Dac.Frame.{decode, decode-frame}

-- The SPI bus: whether a transfer succeeds.
pub record Bus : Type 1 where
  pub Dev : Type 0
  pub transfer : List ℕ → Dev → Bool × Dev

-- What happens: an edge of SYNC, a sleep of milliseconds, and the bytes of a
-- transfer that succeeds.
pub data Signal : Type 0 where
  rises falls : Signal
  sleeps : ℕ → Signal
  moves : List ℕ → Signal

module _ ⦃bus : Bus⦄ where
  -- `Dac`, with what happened so far, the last first.
  pub record Dac : Type 0 where
    pub dev : bus.Dev
    pub signals : List Signal

  abbrev signal : Signal → Dac → Dac
  signal s d = record d { signals = s ∷ d.signals }

  abbrev moved : List ℕ → Bool × bus.Dev → Dac → Bool × Dac
  moved buf (true, dev) d = (true, signal (moves buf) (record d { dev = dev }))
  moved buf (false, dev) d = (false, record d { dev = dev })

  abbrev spi_transfer : List ℕ → Dac → Bool × Dac
  spi_transfer buf d = moved buf (bus.transfer buf d.dev) d

  -- `Dac::new`
  unfoldable pub new : bus.Dev → Dac
  new dev = signal falls (record { dev = dev; signals = [] })

  -- `Dac::write`
  unfoldable write : List ℕ → Dac → Bool × Dac
  write buf d = spi_transfer buf (signal falls (signal (sleeps 1) (signal rises d)))

  abbrev value_sent : ℕ → Bool × Dac → Option ℕ × Dac
  value_sent v (true, d) = (some v, d)
  value_sent v (false, d) = (none, d)

  -- `Dac::set`; no value is the error of the bus.
  unfoldable pub set : ℕ → Dac → Option ℕ × Dac
  unfolding write
  set value d = value_sent (min value max_value) (write (frame value) d)

  unfoldable pub set_all : List ℕ → Dac → Dac
  unfolding set
  set_all [] d = d
  set_all (v ∷ vs) d = set_all vs (set v d).1

-- SYNC as the converter sees it: low, high for so many milliseconds, or low again after a pulse that
-- is long enough, so that the next bytes are a frame.
pub data Line : Type 0 where
  low selected : Line
  high : ℕ → Line

-- What the converter makes of a signal after the values that it has received.
abbrev pub listen : Signal → Line × List ℕ → Line × List ℕ
listen rises (line, vs) = (high 0, vs)
listen falls (high n, vs) = (if leb 1 n then selected else low, vs)
listen falls (low, vs) = (low, vs)
listen falls (selected, vs) = (selected, vs)
listen (sleeps m) (high n, vs) = (high (n + m), vs)
listen (sleeps m) (low, vs) = (low, vs)
listen (sleeps m) (selected, vs) = (selected, vs)
listen (moves bs) (selected, vs) = (low, vs ++ decode bs ∷ [])
listen (moves bs) (low, vs) = (low, vs)
listen (moves bs) (high n, vs) = (high n, vs)

abbrev pub received : List Signal → Line × List ℕ
received [] = (low, [])
received (s ∷ before) = listen s (received before)

abbrev pub cut : ℕ → ℕ
cut v = min v max_value

-- A bus on which every transfer succeeds.
abbrev pub Works : ⦃bus : Bus⦄ → Type 0
Works ⦃bus⦄ = (buf : List ℕ) (dev : bus.Dev) → (bus.transfer buf dev).0 ≡ true

module _ ⦃bus : Bus⦄ (works : Works) where
  -- One transfer of a frame.
  set_received :
      (v : ℕ) (d : Dac) → received (set v d).1.signals ≡ (low, (received d.signals).1 ++ cut v ∷ [])
  unfolding set write
  set_received v d =
      rw (works (frame v) d.dev)
        (ap (λ k. (low, (received d.signals).1 ++ k ∷ [])) (decode-frame v).0)

  set_all_appends :
      (vs : List ℕ) (d : Dac) (sent : List ℕ)
      → received d.signals ≡ (low, sent)
      → received (set_all vs d).signals ≡ (low, sent ++ map cut vs)
  unfolding set_all
  set_all_appends [] d sent e = e ∙ ap (λ k. (low, k)) (sym (append-nil sent))
  set_all_appends (v ∷ vs) d sent e =
      set_all_appends vs (set v d).1 (sent ++ cut v ∷ [])
        (set_received v d ∙ ap (λ q. (low, q.1 ++ cut v ∷ [])) e)
      ∙ ap (λ k. (low, k)) (append_assoc sent (cut v ∷ []) (map cut vs))

  -- On a bus whose transfers succeed: a converter that takes a frame only after SYNC was high for a
  -- millisecond and fell receives every value that is set, in order and cut at the full scale, and
  -- SYNC is low afterwards.
  pub set_all_received :
      (vs : List ℕ) (dev : bus.Dev) → received (set_all vs (new dev)).signals ≡ (low, map cut vs)
  unfolding new
  set_all_received vs dev = set_all_appends vs (new dev) [] refl
