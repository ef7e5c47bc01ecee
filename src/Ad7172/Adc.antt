-- ===== src/Ad7172/Adc.antt =====
-- The operations of `Adc` in `src/ad7172/adc.rs`, over the access to registers. `fuel` bounds the
-- retries of every access.
pub mod Filters
pub mod Inputs
use thermostat.Prelude.{
  ℕ, zero, suc, ◌/◌, ◌*◌, Bool, true, false, Option, none, some, List, [], ◌∷◌, ◌==◌, if◌then◌else◌,
  replicate,
}
use thermostat.Ad7172.Checksum.{ChecksumMode, off, crc}
use thermostat.Ad7172.Filter.{PostFilter, f16sps, ChannelCalibration}
use thermostat.Ad7172.Codes.{continuous_conversion, standby, Input, external, sinc5_sinc1}
use thermostat.Ad7172.Regs.{
  BitField, status_reg, adc_mode_reg, if_mode_reg, data_reg, gpio_con_reg, id_reg, channel_reg,
  setup_con_reg, filt_con_reg, offset_reg, gain_reg, data24, id_of, ready, status_channel,
  set_ref_en, set_mode, set_crc, set_sync_en, set_enabled, set_setup, set_a_in_pos, set_a_in_neg,
  bipolar, set_bipolar, set_refbuf_pos, set_refbuf_neg, set_ainbuf_pos, set_ainbuf_neg, set_ref_sel,
  enh_filt_en, set_enh_filt_en, enh_filt, set_enh_filt, set_order, set_odr,
}
use thermostat.Ad7172.Bus.{
  Spi, Adc, Access, starved, Op, pure, ◌>>=◌, ◌>>◌, spi_transfer, read_reg, write_reg, update_reg,
}

module _ ⦃f : BitField⦄ where
  -- The changes that `setup_channel` makes to its three registers.
  abbrev pub with_setup : List ℕ → List ℕ
  with_setup r = set_ref_sel external (
      set_ainbuf_neg true
        (set_ainbuf_pos true (set_refbuf_neg true (set_refbuf_pos true (set_bipolar false r)))))

  abbrev pub with_filter : List ℕ → List ℕ
  with_filter r =
      set_odr 0b10011 (set_order sinc5_sinc1 (set_enh_filt f16sps (set_enh_filt_en true r)))

  abbrev pub with_inputs : ℕ → Input → Input → List ℕ → List ℕ
  with_inputs index in_pos in_neg r =
      set_a_in_neg in_neg (set_a_in_pos in_pos (set_enabled true (set_setup index r)))

  -- What `get_postfilter` reads off a register, and what `set_postfilter` makes of one.
  unfoldable pub filter_of : List ℕ → Option PostFilter
  filter_of r = if enh_filt_en r then some (enh_filt r) else none

  unfoldable pub put_filter : Option PostFilter → List ℕ → List ℕ
  put_filter none r = set_enh_filt_en false r
  put_filter (some p) r = set_enh_filt p (set_enh_filt_en true r)

  module _ ⦃spi : Spi⦄ (fuel : ℕ) where
    -- `Adc::identify`
    unfoldable pub identify : Op ℕ
    identify = do r ← read_reg fuel 2 id_reg; pure (id_of r)

    -- `Adc::set_checksum_mode`: the mode changes between the read and the write.
    unfoldable pub set_checksum_mode : ChecksumMode → Op (Unit {0})
    set_checksum_mode mode = do
      r ← read_reg fuel 2 if_mode_reg
      (λ s. pure tt (record s { checksum_mode = mode }))
      write_reg fuel fuel if_mode_reg (set_crc mode r)

    -- `Adc::set_sync_enable`
    unfoldable pub set_sync_enable : Bool → Op (Unit {0})
    set_sync_enable enable = update_reg fuel 2 gpio_con_reg (set_sync_en enable)

    -- `Adc::setup_channel`
    unfoldable pub setup_channel : ℕ → Input → Input → Op (Unit {0})
    setup_channel index in_pos in_neg = do
      update_reg fuel 2 (setup_con_reg index) with_setup
      update_reg fuel 2 (filt_con_reg index) with_filter
      update_reg fuel 2 (channel_reg index) (with_inputs index in_pos in_neg)

    -- `Adc::get_calibration`
    unfoldable pub get_calibration : ℕ → Op ChannelCalibration
    get_calibration index = do
      offset ← read_reg fuel 3 (offset_reg index)
      gain ← read_reg fuel 3 (gain_reg index)
      setup ← read_reg fuel 2 (setup_con_reg index)
      pure (record { offset = data24 offset; gain = data24 gain; bipolar = bipolar setup })

    -- `Adc::start_continuous_conversion`
    unfoldable pub start_continuous_conversion : Op (Unit {0})
    start_continuous_conversion =
        write_reg fuel fuel adc_mode_reg
          (set_mode continuous_conversion (set_ref_en true (replicate 2 0)))

    -- `Adc::get_postfilter`
    unfoldable pub get_postfilter : ℕ → Op (Option PostFilter)
    get_postfilter index = do r ← read_reg fuel 2 (filt_con_reg index); pure (filter_of r)

    -- `Adc::set_postfilter`
    unfoldable pub set_postfilter : ℕ → Option PostFilter → Op (Unit {0})
    set_postfilter index filter = update_reg fuel 2 (filt_con_reg index) (put_filter filter)

    -- `Adc::data_ready`
    unfoldable pub data_ready : Op (Option ℕ)
    data_ready = do
      r ← read_reg fuel 1 status_reg
      pure (if ready r then some (status_channel r) else none)

    -- `Adc::read_data`
    unfoldable pub read_data : Op ℕ
    read_data = do r ← read_reg fuel 3 data_reg; pure (data24 r)

    -- `Adc::reset`
    unfoldable pub reset : Op (Unit {0})
    reset = do
      (λ s. pure tt (record s { dev = spi.select s.dev }))
      (λ s.
          let (r, s') = spi_transfer (replicate 8 0xff) s in
          (r, record s' { dev = spi.release s'.dev }))
      pure tt

    -- The loop of `Adc::new` that waits for the converter: it ends at an identity `0x00DX`.
    unfoldable pub await_id : ℕ → Op ℕ
    await_id zero s = (starved, s)
    await_id (suc n) s =
        let again = await_id n in
        (do id ← identify; if (id / 16) == 0x00d then pure id else again) s

    -- `Adc::new` after the pins: `id & 0xFFF0 == 0x00D0` looks at all but four bits.
    unfoldable pub start : Op (Unit {0})
    start = do
      reset
      set_checksum_mode crc
      _ ← await_id fuel
      write_reg fuel fuel adc_mode_reg (set_mode standby (set_ref_en true (replicate 2 0)))
