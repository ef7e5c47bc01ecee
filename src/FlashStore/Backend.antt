-- ===== src/FlashStore/Backend.antt =====
-- `FlashBackend` of `src/flash_store.rs`: the part of the flash that the store uses. The flash
-- peripheral of `stm32f4xx_hal` is a parameter.
use thermostat.Prelude.{
  ℕ, ◌+◌, ◌-◌, ◌<◌, ◌≡◌, Bool, true, Option, none, some, List, arith, ltb, if◌then◌else◌,
}

-- `FLASH_SECTOR_SIZE` and `FLASH_SECTOR`
abbrev flash_sector_size : ℕ
flash_sector_size = 0x4000

abbrev flash_sector : ℕ
flash_sector = 12

-- `get_offset`, of the symbols of `memory.x`.
abbrev get_offset : ℕ
get_offset = 0x8100000 - 0x8000000

-- The flash: the byte at an offset, and whether a sector is erased and bytes are programmed.
pub record Flash : Type 1 where
  pub Dev : Type 0
  pub read : Dev → ℕ → ℕ
  pub erase : ℕ → Dev → Bool × Dev
  pub program : ℕ → List ℕ → Dev → Bool × Dev

module _ ⦃f : Flash⦄ where
  -- `data`: the byte at an index of the slice, if it is in it.
  unfoldable data_at : f.Dev → ℕ → Option ℕ
  data_at d j = if ltb j flash_sector_size then some (f.read d (get_offset + j)) else none

  -- `erase`
  unfoldable erase : f.Dev → Bool × f.Dev
  erase d = f.erase flash_sector d

  -- `program`
  unfoldable program : ℕ → List ℕ → f.Dev → Bool × f.Dev
  program offset payload d = f.program (get_offset + offset) payload d

  -- What the manual says of the flash: the sector 12 is the first 16 KiB of the second bank, of which
  -- erasing leaves bytes of ones, and erasing and programming change no other bytes.
  pub record IsBanked : Type 0 where
    pub erased :
        (d : f.Dev) (j : ℕ)
        → (f.erase 12 d).0 ≡ true
        → j < 0x4000
        → f.read (f.erase 12 d).1 (0x100000 + j) ≡ 0xff
    pub erase_keeps : (d : f.Dev) (a : ℕ) → a < 0x100000 → f.read (f.erase 12 d).1 a ≡ f.read d a
    pub program_keeps :
        (offset : ℕ) (payload : List ℕ) (d : f.Dev) (a : ℕ)
        → a < offset
        → f.read (f.program offset payload d).1 a ≡ f.read d a

  module _ (banked : IsBanked) where
    -- An erased store is all ones.
    data_at-erase :
        (d : f.Dev) (j : ℕ)
        → (erase d).0 ≡ true
        → j < flash_sector_size
        → data_at (erase d).1 j ≡ some 0xff
    unfolding data_at erase
    data_at-erase d j ok small = rw (banked.erased d j ok small) (ground (arith, small))

    -- Whatever the store programs or erases, the firmware below it stays as it was.
    erase_spares : (d : f.Dev) (a : ℕ) → a < get_offset → f.read (erase d).1 a ≡ f.read d a
    unfolding erase
    erase_spares d a below = banked.erase_keeps d a below

    program_spares :
        (offset : ℕ) (payload : List ℕ) (d : f.Dev) (a : ℕ)
        → a < get_offset
        → f.read (program offset payload d).1 a ≡ f.read d a
    unfolding program
    program_spares offset payload d a below =
        banked.program_keeps (get_offset + offset) payload d a (omega (arith, below))
