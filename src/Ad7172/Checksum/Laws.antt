-- ===== src/Ad7172/Checksum/Laws.antt =====
-- The CRC of `src/ad7172/checksum.rs` as an error-detecting code.
use thermostat.Prelude.{
  ℕ, zero, suc, ◌+◌, ◌/◌, ◌%◌, ◌<◌, ◌≡◌, refl, sym, ap, ◌∙◌, Bool, true, false, xor, ◌&&◌, List, [],
  ◌∷◌, ◌++◌, arith, ltb, ◌==◌, ==_iff, bit_xor, if◌then◌else◌, holds_below, holds_below_at,
}
use thermostat.Ad7172.Checksum.{crc, bit_at, crc_bit, crc_rounds, feed_byte, feed, feed_state}

-- The state before a round, from the state after it and the bit: the lowest bit tells whether the
-- polynomial was added.
uncrc_bit : ℕ → Bool → ℕ
uncrc_bit t b =
    bit_xor t (if (t % 2) == 1 then 7 else 0) / 2 + (if xor ((t % 2) == 1) b then 128 else 0)

round_table :
    holds_below
      (λ s.
        ltb (crc_bit s true) 256
        && ltb (crc_bit s false) 256
        && uncrc_bit (crc_bit s true) true == s
        && uncrc_bit (crc_bit s false) false == s)
      256
    ≡ true
unfolding holds_below crc_bit uncrc_bit xor
round_table = refl

round_facts : (s : ℕ) (b : Bool) → s < 256 → (crc_bit s b < 256) × (uncrc_bit (crc_bit s b) b ≡ s)
round_facts s true h = ground (arith, holds_below_at _ 256 s h round_table)
round_facts s false h = ground (arith, holds_below_at _ 256 s h round_table)

crc_rounds-lt : (n s input : ℕ) → s < 256 → crc_rounds n s input < 256
unfolding crc_rounds
crc_rounds-lt zero s input h = h
crc_rounds-lt (suc n) s input h =
    crc_rounds-lt n (crc_bit s (bit_at input n)) input ((round_facts s (bit_at input n) h).0)

crc_rounds_injective :
    (n s t input : ℕ) → s < 256 → t < 256 → crc_rounds n s input ≡ crc_rounds n t input → s ≡ t
unfolding crc_rounds
crc_rounds_injective zero s t input hs ht e = e
crc_rounds_injective (suc n) s t input hs ht e =
    let b = bit_at input n in
    let same =
      crc_rounds_injective n (crc_bit s b) (crc_bit t b) input ((round_facts s b hs).0)
        ((round_facts t b ht).0) e in
    sym ((round_facts s b hs).1) ∙ ap (λ k. uncrc_bit k b) same ∙ (round_facts t b ht).1

residue_table : holds_below (λ s. crc_rounds 8 s s == 0) 256 ≡ true
unfolding holds_below crc_rounds crc_bit
residue_table = refl

-- A CRC over bytes, from any state.
unfoldable pub crc_over : ℕ → List ℕ → ℕ
unfolding feed
crc_over s bs = (feed (record { mode = crc; state = s }) bs).state

pub crc_over-cons : (s b : ℕ) (bs : List ℕ) → crc_over s (b ∷ bs) ≡ crc_over (crc_rounds 8 s b) bs
unfolding crc_over feed feed_byte feed_state
crc_over-cons s b bs = refl

pub crc_over-nil : (s : ℕ) → crc_over s [] ≡ s
unfolding crc_over feed
crc_over-nil s = refl

pub crc_over-append : (s : ℕ) (xs ys : List ℕ) → crc_over s (xs ++ ys) ≡ crc_over (crc_over s xs) ys
crc_over-append s [] ys = rw crc_over-nil
crc_over-append s (x ∷ xs) ys =
    rw (crc_over-cons s x (xs ++ ys), crc_over-cons s x xs)
      (crc_over-append (crc_rounds 8 s x) xs ys)

pub crc_over-lt : (s : ℕ) (bs : List ℕ) → s < 256 → crc_over s bs < 256
crc_over-lt s [] h = rw crc_over-nil h
crc_over-lt s (b ∷ bs) h =
    rw (crc_over-cons s b bs) (crc_over-lt (crc_rounds 8 s b) bs (crc_rounds-lt 8 s b h))

-- The CRC of the same bytes from two different bytes as the state is never the same.
pub crc_over_injective :
    (s t : ℕ) (bs : List ℕ) → s < 256 → t < 256 → crc_over s bs ≡ crc_over t bs → s ≡ t
crc_over_injective s t [] hs ht e = sym (crc_over-nil s) ∙ e ∙ crc_over-nil t
crc_over_injective s t (b ∷ bs) hs ht e = crc_rounds_injective 8 s t b hs ht (
    crc_over_injective (crc_rounds 8 s b) (crc_rounds 8 t b) bs (crc_rounds-lt 8 s b hs)
      (crc_rounds-lt 8 t b ht) (sym (crc_over-cons s b bs) ∙ e ∙ crc_over-cons t b bs))

-- From any byte as the state, the CRC of a message that ends in its own CRC is zero, whatever the
-- message.
pub crc_residue : (s : ℕ) (bs : List ℕ) → s < 256 → crc_over s (bs ++ crc_over s bs ∷ []) ≡ 0
crc_residue s bs h =
    let r = crc_over s bs in
    crc_over-append s bs (r ∷ [])
    ∙ crc_over-cons r r []
    ∙ crc_over-nil (crc_rounds 8 r r)
    ∙ (==_iff _ 0).0 (holds_below_at _ 256 r (crc_over-lt s bs h) residue_table)
