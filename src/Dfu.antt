-- ===== src/Dfu.antt =====
-- `src/dfu.rs`: the word of memory that a reset keeps, by which the program asks for the boot loader.
use thermostat.Prelude.{ℕ, ◌==◌, if◌then◌else◌}

-- `DFU_TRIG_MSG`
abbrev pub dfu_trig_msg : ℕ
dfu_trig_msg = 0xDECAFBAD

-- `set_dfu_trigger` on the word `_dfu_msg`.
unfoldable pub set_dfu_trigger : ℕ → ℕ
set_dfu_trigger word = dfu_trig_msg

-- What runs after a reset.
pub data Program : Type 0 where
  bootloader firmware : Program

-- `__pre_init` of the word: the jump to the boot loader, or the return to the start of the firmware.
unfoldable pub pre_init : ℕ → Program × ℕ
pre_init word = if word == dfu_trig_msg then (bootloader, 0x00000000) else (firmware, word)
