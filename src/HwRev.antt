-- ===== src/HwRev.antt =====
-- `src/hw_rev.rs`: the hardware revision and what depends on it.
use thermostat.Prelude.{ℕ, Bool, true, false, ◌==◌, ◌&&◌, if◌then◌else◌}
use thermostat.Platform.{Platform}

pub record HwRev : Type 0 where
  pub major : ℕ
  pub minor : ℕ

-- `HWRev::detect_hw_rev` of the levels of the four pins
unfoldable pub detect_hw_rev : Bool → Bool → Bool → Bool → HwRev
detect_hw_rev true true true false = record { major = 1; minor = 0 }
detect_hw_rev true false false false = record { major = 2; minor = 0 }
detect_hw_rev false true false false = record { major = 2; minor = 2 }
detect_hw_rev _ _ _ _ = record { major = 0; minor = 0 }

module _ ⦃p : Platform⦄ where
  open p use {F32, lit32}

  pub record HwSettings : Type 0 where
    pub fan_k_a : F32
    pub fan_k_b : F32
    pub fan_k_c : F32
    pub min_fan_pwm : F32
    pub max_fan_pwm : F32
    pub fan_pwm_freq_hz : ℕ
    pub fan_available : Bool
    pub fan_pwm_recommended : Bool

  -- `HWRev::settings`
  unfoldable pub settings : HwRev → HwSettings
  settings r =
      if r.major == 2 && r.minor == 2
      then record {
        fan_k_a = lit32 10 1;
        fan_k_b = lit32 0 1;
        fan_k_c = lit32 0 1;
        min_fan_pwm = lit32 4 2;
        max_fan_pwm = lit32 10 1;
        fan_pwm_freq_hz = 25_000;
        fan_available = true;
        fan_pwm_recommended = false;
      }
      else record {
        fan_k_a = lit32 0 1;
        fan_k_b = lit32 0 1;
        fan_k_c = lit32 0 1;
        min_fan_pwm = lit32 0 1;
        max_fan_pwm = lit32 0 1;
        fan_pwm_freq_hz = 0;
        fan_available = false;
        fan_pwm_recommended = false;
      }
