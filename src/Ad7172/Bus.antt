-- ===== src/Ad7172/Bus.antt =====
-- `src/ad7172/adc.rs`: the access to the registers of the converter over SPI, with its retries.
-- The SPI peripheral and the select pin are a parameter, the crate `bit_field` is another.
pub mod Retry
pub mod Device
use thermostat.Prelude.{
  ℕ, zero, suc, ◌+◌, Bool, true, false, Option, none, some, List, [], ◌∷◌, ◌==◌, ◌&&◌,
  if◌then◌else◌, length, replicate,
}
use thermostat.Ad7172.Checksum.{ChecksumMode, off, by_xor, crc, Checksum, new, feed, result}

-- `Transfer<u8>`, which gives the bytes that came in or an error, and the level of the select pin.
pub record Spi : Type 1 where
  pub Dev : Type 0
  pub exchange : Dev → List ℕ → Option (List ℕ) × Dev
  pub select : Dev → Dev
  pub release : Dev → Dev

-- What an access gives: a value, an error of the SPI, or nothing yet when the fuel is out.
pub data Access (A : Type 0) : Type 0 where
  got : A → Access A
  fault : Access A
  starved : Access A

-- `==` of two slices.
abbrev pub same_bytes : List ℕ → List ℕ → Bool
same_bytes [] [] = true
same_bytes (x ∷ xs) (y ∷ ys) = x == y && same_bytes xs ys
same_bytes _ _ = false

-- `==` of two checksums.
abbrev pub same_sum : Option ℕ → Option ℕ → Bool
same_sum none none = true
same_sum (some x) (some y) = x == y
same_sum _ _ = false

-- The checksum mode of a write: always CRC if there is one.
abbrev pub write_mode : ChecksumMode → ChecksumMode
write_mode off = off
write_mode by_xor = crc
write_mode crc = crc

module _ ⦃spi : Spi⦄ where
  pub record Adc : Type 0 where
    pub checksum_mode : ChecksumMode
    pub dev : spi.Dev

  abbrev pub Op : Type 0 → Type 0
  Op A = Adc → Access A × Adc

  abbrev pub pure : {A : Type 0} → A → Op A
  pure a s = (got a, s)

  infixl 5 ◌>>=◌ ◌>>◌
  abbrev pub ◌>>=◌ : {A B : Type 0} → Op A → (A → Op B) → Op B
  ◌>>=◌ m f s =
      let (r, s') = m s in elim r [ got a ↦ f a s' | fault ↦ (fault, s') | starved ↦ (starved, s') ]

  abbrev pub ◌>>◌ : {A B : Type 0} → Op A → Op B → Op B
  m >> k = m >>= λ _. k

  -- `self.spi.transfer`
  abbrev pub spi_transfer : List ℕ → Op (List ℕ)
  spi_transfer out s =
      let (r, d) = spi.exchange s.dev out in
      elim r [
        | none ↦ (fault, record s { dev = d })
        | some bytes ↦ (got bytes, record s { dev = d })
      ]

  -- The checksum that comes in for the one that goes out.
  abbrev pub head_sum : List ℕ → Option ℕ
  head_sum [] = none
  head_sum (b ∷ bs) = some b

  unfoldable pub transfer_sum : Option ℕ → Op (Option ℕ)
  transfer_sum none = pure none
  transfer_sum (some out) = do bytes ← spi_transfer (out ∷ []); pure (head_sum bytes)

  -- `Adc::transfer`, between its two writes of the select pin.
  unfoldable pub selected : ℕ → List ℕ → Option ℕ → Op (List ℕ × Option ℕ)
  unfolding transfer_sum
  selected addr data_out sum = do
    _ ← spi_transfer (addr ∷ [])
    bytes ← spi_transfer data_out
    sum_in ← transfer_sum sum
    pure (bytes, sum_in)

  -- `Adc::transfer`
  unfoldable pub transfer : ℕ → List ℕ → Option ℕ → Op (List ℕ × Option ℕ)
  unfolding selected
  transfer addr data_out sum s =
      let (r, s') = selected addr data_out sum (record s { dev = spi.select s.dev }) in
      (r, record s' { dev = spi.release s'.dev })

  -- The loop of `Adc::read_reg`: the checksum that it keeps is not reset by a retry.
  unfoldable pub read_loop : ℕ → ℕ → List ℕ → Option ℕ → Checksum → Op (List ℕ)
  read_loop zero address buffer out sum s = (starved, s)
  read_loop (suc n) address buffer out sum s =
      (do
        (bytes, sum_in) ← transfer address buffer out
        let sum' = feed sum bytes
        let again = read_loop n address bytes out sum'
        if same_sum (result sum') sum_in then pure bytes else again)
        s

  -- `Adc::read_reg` of a register of `size` bytes; setting bit 6 of an address below 64 adds 64.
  unfoldable pub read_reg : ℕ → ℕ → ℕ → Op (List ℕ)
  unfolding read_loop
  read_reg fuel size address s =
      let sum = feed (new s.checksum_mode) ((64 + address) ∷ []) in
      read_loop fuel (64 + address) (replicate size 0) (result sum) sum s

  -- `Adc::write_reg`, with fuel for its own loop and for the reads that verify.
  unfoldable pub write_reg : ℕ → ℕ → ℕ → List ℕ → Op (Unit {0})
  write_reg zero reads address content s = (starved, s)
  write_reg (suc n) reads address content s =
      let sum = feed (feed (new (write_mode s.checksum_mode)) (address ∷ [])) content in
      let again = write_reg n reads address content in
      (do
        _ ← transfer address content (result sum)
        readback ← read_reg reads (length content) address
        if same_bytes readback content then pure tt else again)
        s

  -- `Adc::update_reg`
  unfoldable pub update_reg : ℕ → ℕ → ℕ → (List ℕ → List ℕ) → Op (Unit {0})
  unfolding write_reg
  update_reg fuel size address f = do
    content ← read_reg fuel size address
    write_reg fuel fuel address (f content)
