-- ===== src/Ad7172/Adc/Filters.antt =====
-- `set_postfilter` and `get_postfilter` of `src/ad7172/adc.rs` against each other.
use thermostat.Prelude.{
  ℕ, suc, ◌<◌, ◌≡◌, refl, ap, ◌∙◌, Bool, true, false, Option, none, some, List, [], ◌∷◌, arith,
  length, length-set,
}
use thermostat.Ad7172.Filter.{PostFilter, f27sps, f25sps, f20sps, f16sps, invalid, to_u8}
use thermostat.Ad7172.Filter.Closest.{of_u8-to_u8}
use thermostat.Ad7172.Regs.{BitField, filt_con_reg}
use thermostat.Ad7172.Bus.{Spi, got, read_reg, pure}
use thermostat.Ad7172.Bus.Retry.{checked}
use thermostat.Ad7172.Bus.Device.{Keeps, bind-run, read_kept, update_kept}
use thermostat.Ad7172.Adc.{filter_of, put_filter, get_postfilter, set_postfilter}

-- What the documentation of `bit_field` says of the bits of the filter register.
pub record FieldLaws ⦃f : BitField⦄ : Type 0 where
  pub get_bits-set_bits : (x v : ℕ) → v < 8 → f.get_bits (f.set_bits x 0 2 v) 0 2 ≡ v
  pub get_bit-set_bits : (x v : ℕ) → v < 8 → f.get_bit (f.set_bits x 0 2 v) 3 ≡ f.get_bit x 3
  pub get_bit-set_bit : (x : ℕ) (b : Bool) → f.get_bit (f.set_bit x 3 b) 3 ≡ b

to_u8-lt : (p : PostFilter) → to_u8 p < 8
unfolding to_u8
to_u8-lt f27sps = omega arith
to_u8-lt f25sps = omega arith
to_u8-lt f20sps = omega arith
to_u8-lt f16sps = omega arith
to_u8-lt invalid = omega arith

module _ ⦃f : BitField⦄ (laws : FieldLaws) where
  -- The filter that is put into a register is read off it.
  filter_of-put_filter :
      (p : Option PostFilter) (x : ℕ) (rest : List ℕ) → filter_of (put_filter p (x ∷ rest)) ≡ p
  unfolding filter_of put_filter
  filter_of-put_filter none x rest = rw (laws.get_bit-set_bit x false) refl
  filter_of-put_filter (some p) x rest =
      rw
        (
          laws.get_bit-set_bits (f.set_bit x 3 true) (to_u8 p) (to_u8-lt p),
          laws.get_bit-set_bit x true,
          laws.get_bits-set_bits (f.set_bit x 3 true) (to_u8 p) (to_u8-lt p),
          of_u8-to_u8 p,
        )
        refl

  put_filter-read :
      (p : Option PostFilter) (r : List ℕ) → length r ≡ 2 → filter_of (put_filter p r) ≡ p
  put_filter-read p [] h = absurd (omega arith)
  put_filter-read p (x ∷ rest) h = filter_of-put_filter p x rest

  length-put_filter : (p : Option PostFilter) (r : List ℕ) → length (put_filter p r) ≡ length r
  unfolding put_filter
  length-put_filter none r = length-set r 0 _
  length-put_filter (some p) r = length-set _ 0 _ ∙ length-set r 0 _

  module _ ⦃spi : Spi⦄ where
    -- With the CRC on, a converter that keeps the filter register of the channel, and the documented
    -- behaviour of bit fields: setting any filter, or none, succeeds with fuel for one try, and
    -- getting the filter then succeeds and gives the one that was set.
    pub get_postfilter-set_postfilter :
        (index n : ℕ) (keeps : Keeps (filt_con_reg index) 2) (p : Option PostFilter) (d : spi.Dev)
        → (d₁ : spi.Dev) × (d₂ : spi.Dev) × (set_postfilter (suc n) index p (checked d)
            ≡ (got tt, checked d₁))
          × (get_postfilter (suc n) index (checked d₁) ≡ (got p, checked d₂))
    unfolding set_postfilter get_postfilter
    get_postfilter-set_postfilter index n keeps p d =
        let (d₁, written, now) =
          update_kept keeps n (put_filter p) d (λ r h. length-put_filter p r ∙ h) in
        let (d₂, read, _) = read_kept keeps n d₁ in
        (
          d₁,
          d₂,
          written,
          bind-run (read_reg (suc n) 2 (filt_con_reg index)) (λ r. pure (filter_of r)) (checked d₁)
                (checked d₂) (keeps.content d₁) read
              ∙ ap (λ q. (got q, checked d₂))
                  (ap filter_of now ∙ put_filter-read p (keeps.content d) (keeps.sized d)),
        )
