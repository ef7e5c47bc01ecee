-- ===== src/Ad7172/Checksum.antt =====
-- `src/ad7172/checksum.rs`: the running checksum of an SPI transaction. A `u8` is a number below 256.
pub mod Laws
use thermostat.Prelude.{
  ℕ, zero, suc, ◌*◌, ◌/◌, ◌%◌, ◌^◌, Bool, true, false, xor, Option, none, some, List, [], ◌∷◌, ltb,
  leb, ◌==◌, bit_xor, if◌then◌else◌,
}

pub data ChecksumMode : Type 0 where
  off by_xor crc : ChecksumMode

-- `From<u8> for ChecksumMode`
abbrev pub of_u8 : ℕ → ChecksumMode
of_u8 x = if x == 0 then off else if x == 1 then by_xor else crc

pub record Checksum : Type 0 where
  pub mode : ChecksumMode
  pub state : ℕ

-- `Checksum::new`
unfoldable pub new : ChecksumMode → Checksum
new m = record { mode = m; state = 0 }

-- The byte has bit `7 - i`: `(input & (0x80 >> i)) != 0`.
abbrev pub bit_at : ℕ → ℕ → Bool
bit_at input i = ((input / 2 ^ i) % 2) == 1

-- One round of the CRC: `state << 1` in a byte, and the polynomial if the bits differ.
unfoldable pub crc_bit : ℕ → Bool → ℕ
unfolding xor
crc_bit state b = bit_xor ((state * 2) % 256) (if xor (leb 128 state) b then 7 else 0)

-- The loop of the CRC over the bits of a byte, the highest first: `n` rounds are left.
unfoldable pub crc_rounds : ℕ → ℕ → ℕ → ℕ
crc_rounds zero state input = state
crc_rounds (suc n) state input = crc_rounds n (crc_bit state (bit_at input n)) input

-- `Checksum::feed_byte`
unfoldable pub feed_state : ChecksumMode → ℕ → ℕ → ℕ
unfolding crc_rounds crc_bit
feed_state off state input = state
feed_state by_xor state input = bit_xor state input
feed_state crc state input = crc_rounds 8 state input

unfoldable pub feed_byte : Checksum → ℕ → Checksum
unfolding feed_state
feed_byte c input = record c { state = feed_state c.mode c.state input }

-- `Checksum::feed`
unfoldable pub feed : Checksum → List ℕ → Checksum
unfolding feed_byte
feed c [] = c
feed c (b ∷ bs) = feed (feed_byte c b) bs

-- `Checksum::result`
unfoldable pub result : Checksum → Option ℕ
result c = result_of c.mode c.state
  where
    result_of : ChecksumMode → ℕ → Option ℕ
    result_of off s = none
    result_of _ s = some s
