-- ===== src/Tests/Model/Chip.antt =====
-- A converter on an SPI bus that keeps one register, the bits of a byte by arithmetic, and a bus that
-- answers by a script.
use thermostat.Prelude.{
  ℕ, ◌+◌, ◌-◌, ◌*◌, ◌/◌, ◌%◌, ◌^◌, ◌<◌, ◌≡◌, refl, Bool, true, false, Option, none, some, List, [],
  ◌∷◌, ap, arith, length, ◌==◌, if◌then◌else◌,
}
use thermostat.Ad7172.Checksum.Laws.{crc_over}
use thermostat.Ad7172.Regs.{BitField, byte_at}
use thermostat.Ad7172.Bus.{Spi, got, transfer}
use thermostat.Ad7172.Bus.Retry.{checked}
use thermostat.Ad7172.Bus.Device.{Keeps}
use thermostat.Ad7172.Adc.Filters.{FieldLaws}
use thermostat.Ad7172.Adc.Inputs.{ChannelFields}
use thermostat.Channels.Converter.{Periphery}

abbrev bit_of : ℕ → ℕ → ℕ
bit_of x i = x / 2 ^ i % 2

abbrev range_of : ℕ → ℕ → ℕ → ℕ
range_of x first last = x / 2 ^ first % 2 ^ (last + 1 - first)

instance abbrev pub arithmetic : BitField
arithmetic = record {
  get_bit = λ x i. bit_of x i == 1;
  set_bit = λ x i b. x - bit_of x i * 2 ^ i + (if b then 2 ^ i else 0);
  get_bits = range_of;
  set_bits = λ x first last v. x - range_of x first last * 2 ^ first + v * 2 ^ first;
}

set_three : (x : ℕ) (b : Bool) → ((x - x / 8 % 2 * 8 + (if b then 8 else 0)) / 8 % 2 == 1) ≡ b
set_three x true = ground arith
set_three x false = ground arith

low_kept : (x v : ℕ) → v < 8 → (x - x / 1 % 8 * 1 + v * 1) / 8 % 2 ≡ x / 8 % 2
low_kept x v h = omega arith

pub arithmetic-FieldLaws : FieldLaws
arithmetic-FieldLaws = record {
  get_bits-set_bits = λ x v h. omega arith;
  get_bit-set_bits = λ x v h. ap (λ k. k == 1) (low_kept x v h);
  get_bit-set_bit = set_three;
}

put_seven :
    (x : ℕ) (b : Bool) → ((x - x / 128 % 2 * 128 + (if b then 128 else 0)) / 128 % 2 == 1) ≡ b
put_seven x true = ground arith
put_seven x false = ground arith

below_seven :
    (x : ℕ) (b : Bool) → (x - x / 128 % 2 * 128 + (if b then 128 else 0)) / 16 % 4 ≡ x / 16 % 4
below_seven x true = omega arith
below_seven x false = omega arith

top_kept : (x v : ℕ) → v < 4 → (x - x / 1 % 4 * 1 + v * 1) / 128 % 2 ≡ x / 128 % 2
top_kept x v h = omega arith

pub arithmetic-ChannelFields : ChannelFields
arithmetic-ChannelFields = record {
  enabled_same = put_seven;
  enabled_pos = λ x v h. ap (λ k. k == 1) (top_kept x v h);
  setup_same = λ x v h. omega arith;
  setup_enabled = below_seven;
  setup_pos = λ x v h. omega arith;
  high_same = λ x v h. omega arith;
  low_same = λ x v h. omega arith;
  low_neg = λ x v h. omega arith;
  neg_same = λ x v h. omega arith;
}

pub data Phase : Type 0 where
  fresh : Phase
  addressed : ℕ → Phase
  moved : ℕ → List ℕ → Phase

-- The filter register of channel 0 and how far a transfer is.
pub record Chip : Type 0 where
  pub phase : Phase
  pub high : ℕ
  pub low : ℕ

abbrev exchange_in : Phase → Chip → List ℕ → Option (List ℕ) × Chip
exchange_in fresh c out = (some (0 ∷ []), record c { phase = addressed (byte_at out 0) })
exchange_in (addressed a) c out =
    (some (if a == 0x68 then c.high ∷ c.low ∷ [] else 0 ∷ 0 ∷ []), record c { phase = moved a out })
exchange_in (moved a moved_out) c out = (
  some ((if a == 0x68 then crc_over 0 (0x68 ∷ c.high ∷ c.low ∷ []) else 0) ∷ []),
  if a == 0x28
      then record { phase = fresh; high = byte_at moved_out 0; low = byte_at moved_out 1 }
      else c,
)

abbrev pub chip : Spi
chip = record {
  Dev = Chip;
  exchange = λ c. exchange_in c.phase c;
  select = λ c. record c { phase = fresh };
  release = λ c. record c { phase = fresh };
}

abbrev pub new_chip : Chip
new_chip = record { phase = fresh; high = 0x05; low = 0x13 }

chip_writes :
    (c : Chip) (bytes : List ℕ)
    → length bytes ≡ 2
    → (c' : Chip) × (answer : List ℕ × Option ℕ) × (transfer ⦃spi = chip⦄ 0x28 bytes
          (some (crc_over 0 (0x28 ∷ bytes)))
          (checked ⦃spi = chip⦄ c)
        ≡ (got answer, checked ⦃spi = chip⦄ c'))
      × ((c'.high ∷ c'.low ∷ []) ≡ bytes)
unfolding transfer
chip_writes c [] h = absurd (omega arith)
chip_writes c (x ∷ []) h = absurd (omega arith)
chip_writes c (x ∷ y ∷ []) h = (record { phase = fresh; high = x; low = y }, _, refl, refl)
chip_writes c (x ∷ y ∷ z ∷ rest) h = absurd (omega arith)

pub chip-Keeps : Keeps ⦃spi = chip⦄ 0x28 2
unfolding transfer
chip-Keeps = record {
  content = λ c. c.high ∷ c.low ∷ [];
  sized = λ c. refl;
  reads = λ c. (record c { phase = fresh }, refl, refl);
  writes = chip_writes;
}

-- Each exchange answers with the next line of the script.
abbrev next_line : List (List ℕ) → List ℕ → Option (List ℕ) × List (List ℕ)
next_line [] out = (none, [])
next_line (l ∷ ls) out = (some l, ls)

abbrev pub script : Spi
script = record { Dev = List (List ℕ); exchange = next_line; select = λ d. d; release = λ d. d }

abbrev pub quiet : Periphery
quiet = record {
  Env = Unit;
  dac_transfer = λ e i f. (true, e);
  convert = λ e i t. (2000, e);
  to_millivolts = λ x. x * 3300 / 4095;
  max_duty = λ i pin. 1000;
}
