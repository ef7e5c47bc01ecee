-- ===== src/Channels/Converter.antt =====
-- The board of `src/channels.rs` with its AD7172 driver in place: `self.adc` is the `Adc` of
-- `src/ad7172/adc.rs`. An access that retries for ever is a panic here, as no caller goes on after it.
use thermostat.Prelude.{ℕ, suc, ◌≡◌, Bool, true, false, Option, none, some, List, ap, ◌∙◌}
use thermostat.Platform.{Platform}
use thermostat.Command.{PwmPin}
use thermostat.Ad7172.Filter.{PostFilter}
use thermostat.Ad7172.Regs.{BitField, filt_con_reg}
use thermostat.Ad7172.Bus.{Spi, Adc, Access, got, fault, starved, Op}
use thermostat.Ad7172.Bus.Retry.{checked}
use thermostat.Ad7172.Bus.Device.{Keeps}
use thermostat.Ad7172.Adc
use thermostat.Ad7172.Adc.Filters.{FieldLaws, get_postfilter-set_postfilter}
use thermostat.Channels.{Board, Channels, PinsAdcReadTarget, unwrap, unwrap_ok}
use thermostat.Channels.Control.{get_postfilter, set_postfilter}

-- The devices other than the AD7172.
pub record Periphery : Type 1 where
  pub Env : Type 0
  pub dac_transfer : Env → ℕ → List ℕ → Bool × Env
  pub convert : Env → ℕ → PinsAdcReadTarget → ℕ × Env
  pub to_millivolts : ℕ → ℕ
  pub max_duty : ℕ → PwmPin → ℕ

abbrev pub value_of : {A : Type 0} → Access A → Option A
value_of (got a) = some a
value_of fault = none
value_of starved = none

abbrev pub succeeded : {A : Type 0} → Access A → Bool
succeeded (got a) = true
succeeded fault = false
succeeded starved = false

module _ ⦃f : BitField⦄ ⦃spi : Spi⦄ (fuel : ℕ) (rest : Periphery) where
  -- An access to the converter; the other devices stay.
  abbrev pub on_adc : {A : Type 0} → Op A → Adc × rest.Env → Access A × (Adc × rest.Env)
  on_adc m (adc, e) = let (r, adc') = m adc in (r, (adc', e))

  abbrev pub board_of : Board
  board_of = record {
    Env = Adc × rest.Env;
    dac_transfer =
        λ env i frame. let (sent, e) = rest.dac_transfer env.1 i frame in (sent, (env.0, e));
    convert = λ env i target. let (x, e) = rest.convert env.1 i target in (x, (env.0, e));
    to_millivolts = rest.to_millivolts;
    max_duty = rest.max_duty;
    data_ready = λ env. let (r, env') = on_adc (Adc.data_ready fuel) env in (value_of r, env');
    read_data = λ env. let (r, env') = on_adc (Adc.read_data fuel) env in (value_of r, env');
    get_postfilter =
        λ env i. let (r, env') = on_adc (Adc.get_postfilter fuel i) env in (value_of r, env');
    set_postfilter =
        λ env i p. let (r, env') = on_adc (Adc.set_postfilter fuel i p) env in (succeeded r, env');
  }

module _ ⦃p : Platform⦄ ⦃f : BitField⦄ ⦃spi : Spi⦄ (fuel : ℕ) (rest : Periphery) where
  -- With the CRC on, a converter that keeps the filter register of the channel, and the documented
  -- behaviour of bit fields: `set_postfilter` of `Channels` does not panic, and `get_postfilter` after
  -- it does not either and gives the filter that was set.
  pub filter_round :
      (laws : FieldLaws) (i : ℕ) (keeps : Keeps (filt_con_reg i) 2) (q : Option PostFilter)
      (s : Channels ⦃b = board_of (suc fuel) rest⦄) (d : spi.Dev) (e : rest.Env)
      → s.env ≡ (checked d, e)
      → (s₁ : Channels ⦃b = board_of (suc fuel) rest⦄) × (s₂ : Channels
          ⦃b = board_of (suc fuel) rest⦄)
        × (set_postfilter ⦃b = board_of (suc fuel) rest⦄ i q s ≡ some (tt, s₁))
        × (get_postfilter ⦃b = board_of (suc fuel) rest⦄ i s₁ ≡ some (q, s₂))
  unfolding set_postfilter get_postfilter
  filter_round laws i keeps q s d e here =
      let (d₁, d₂, written, read) = get_postfilter-set_postfilter laws i fuel keeps q d in
      (
        record s { env = (checked d₁, e) },
        record s { env = (checked d₂, e) },
        ap (λ v. set_postfilter ⦃b = board_of (suc fuel) rest⦄ i q (record s { env = v })) here
            ∙ ap
                (λ r.
                  unwrap_ok ⦃b = board_of (suc fuel) rest⦄ (succeeded r.0)
                    (record s { env = (r.1, e) }))
                written,
        ap (λ r. unwrap ⦃b = board_of (suc fuel) rest⦄ (value_of r.0) (record s { env = (r.1, e) }))
            read,
      )
