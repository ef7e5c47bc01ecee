-- ===== src/Ad7172/Bus/Retry.antt =====
-- What `read_reg` of `src/ad7172/adc.rs` makes of a transfer with a wrong checksum.
use thermostat.Prelude.{
  ℕ, suc, ◌+◌, ◌≡◌, ◌≢◌, ◌↔◌, refl, sym, ap, ◌∙◌, Bool, true, false, Option, some, List, [], ◌∷◌,
  ◌==◌, ==_iff, arith, if◌then◌else◌, replicate, Bool-cases, inl, inr,
}
use thermostat.Ad7172.Checksum.{Checksum, crc, new, feed, feed_byte, feed_state, result}
use thermostat.Ad7172.Checksum.Laws.{
  crc_over, crc_over-nil, crc_over-cons, crc_over-append, crc_over-lt, crc_over_injective,
}
use thermostat.Ad7172.Bus.{
  Spi, Adc, Access, got, starved, same_sum, transfer, read_loop, read_reg, ◌>>=◌, pure,
}

abbrev pub crc_sum : ℕ → Checksum
crc_sum k = record { mode = crc; state = k }

pub feed-crc_sum : (k : ℕ) (bs : List ℕ) → feed (crc_sum k) bs ≡ crc_sum (crc_over k bs)
unfolding feed feed_byte feed_state
feed-crc_sum k [] = ap crc_sum (sym (crc_over-nil k))
feed-crc_sum k (b ∷ bs) =
    feed-crc_sum ((feed_byte (crc_sum k) b).state) bs ∙ ap crc_sum (sym (crc_over-cons k b bs))

pub if_applied :
    {A B : Type 0} (b : Bool) (f g : A → B) (x : A)
    → (if b then f else g) x ≡ (if b then f x else g x)
if_applied true f g x = refl
if_applied false f g x = refl

==_differ : (a b : ℕ) → a ≢ b → (a == b) ≡ false
==_differ a b h = ground arith

module _ ⦃spi : Spi⦄ where
  -- The driver after its start, which switches the CRC on.
  abbrev pub checked : spi.Dev → Adc
  checked d = record { checksum_mode = crc; dev = d }

  -- The CRC of the address of a read.
  abbrev pub address_sum : ℕ → ℕ
  address_sum a = crc_over 0 ((64 + a) ∷ [])

  -- One turn of the loop.
  read_turn :
      (n address k : ℕ) (buffer bytes : List ℕ) (out sum_in : Option ℕ) (s s' : Adc)
      → transfer address buffer out s ≡ (got (bytes, sum_in), s')
      → read_loop (suc n) address buffer out (crc_sum k) s ≡ (
          if same_sum (some (crc_over k bytes)) sum_in
          then (got bytes, s')
          else read_loop n address bytes out (crc_sum (crc_over k bytes)) s')
  unfolding read_loop result
  read_turn n address k buffer bytes out sum_in s s' e =
      rw (e, ◌>>=◌)
        (rw (feed-crc_sum k bytes) (
          rw e (
            if_applied (same_sum (some (crc_over k bytes)) sum_in) (pure bytes)
              (read_loop n address bytes out (crc_sum (crc_over k bytes))) s')))

  sum-after_address :
      (a : ℕ) (bs : List ℕ) → crc_over 0 ((64 + a) ∷ bs) ≡ crc_over (address_sum a) bs
  sum-after_address a bs = crc_over-append 0 ((64 + a) ∷ []) bs

  got_differs :
      {bytes : List ℕ} {s t : Adc} → ◌≢◌ {A = Access (List ℕ) × Adc} (got bytes, s) (starved, t)
  got_differs e = cc

  -- `read_reg` is its loop from the checksum of the address.
  read_reg_loop :
      (n size a : ℕ) (d : spi.Dev)
      → read_reg n size a (checked d)
        ≡ read_loop n
            (64 + a)
            (replicate size 0)
            (some (address_sum a))
            (crc_sum (address_sum a))
            (checked d)
  unfolding read_reg new result
  read_reg_loop n size a d = rw (feed-crc_sum 0 ((64 + a) ∷ [])) refl

  -- A first transfer whose checksum is that of its address and its bytes ends the read.
  pub read_reg_good :
      (n size a : ℕ) (d : spi.Dev) (bytes : List ℕ) (s' : Adc)
      → transfer (64 + a) (replicate size 0) (some (address_sum a)) (checked d)
        ≡ (got (bytes, some (crc_over 0 ((64 + a) ∷ bytes))), s')
      → read_reg (suc n) size a (checked d) ≡ (got bytes, s')
  read_reg_good n size a d bytes s' e =
      let good = (==_iff _ _).1 (sym (sum-after_address a bytes)) in
      read_reg_loop (suc n) size a d
      ∙ read_turn n (64 + a) (address_sum a) (replicate size 0) bytes _ _ (checked d) s' e
      ∙ rw good refl

  -- Both turns of a read whose first transfer came with a wrong checksum.
  two_turns :
      (size a x : ℕ) (d : spi.Dev) (bad good : List ℕ) (y : Option ℕ) (s₁ s₂ : Adc)
      → transfer (64 + a) (replicate size 0) (some (address_sum a)) (checked d)
        ≡ (got (bad, some x), s₁)
      → crc_over (address_sum a) bad ≢ x
      → transfer (64 + a) bad (some (address_sum a)) s₁ ≡ (got (good, y), s₂)
      → read_reg 2 size a (checked d) ≡ (
          if same_sum (some (crc_over (crc_over (address_sum a) bad) good)) y
          then (got good, s₂)
          else (starved, s₂))
  unfolding read_loop
  two_turns size a x d bad good y s₁ s₂ first wrong second =
      let k = address_sum a in
      let k₁ = crc_over k bad in
      read_reg_loop 2 size a d
      ∙ read_turn 1 (64 + a) k (replicate size 0) bad _ _ (checked d) s₁ first
      ∙ rw (==_differ k₁ x wrong) (read_turn 0 (64 + a) k₁ bad good _ _ s₁ s₂ second)

  -- With the CRC on, a read whose first transfer came with a wrong checksum and whose second one is
  -- right takes the second one's bytes exactly when the bytes of the first happen to leave the
  -- checksum as it was after the address: a retry goes on from the checksum of the failed try.
  pub read_retry_iff :
      (size a x : ℕ) (d : spi.Dev) (bad good : List ℕ) (s₁ s₂ : Adc)
      → transfer (64 + a) (replicate size 0) (some (address_sum a)) (checked d)
        ≡ (got (bad, some x), s₁)
      → crc_over 0 ((64 + a) ∷ bad) ≢ x
      → transfer (64 + a) bad (some (address_sum a)) s₁
        ≡ (got (good, some (crc_over 0 ((64 + a) ∷ good))), s₂)
      → (read_reg 2 size a (checked d) ≡ (got good, s₂))
        ↔ (crc_over 0 ((64 + a) ∷ bad) ≡ crc_over 0 ((64 + a) ∷ []))
  read_retry_iff size a x d bad good s₁ s₂ first wrong second =
      let k = address_sum a in
      let k₁ = crc_over k bad in
      let shift = sum-after_address a bad in
      let e = sum-after_address a good in
      let run = two_turns size a x d bad good _ s₁ s₂ first (λ q. wrong (shift ∙ q)) second in
      let k-lt = crc_over-lt 0 ((64 + a) ∷ []) (omega arith) in
      (
        λ done. elim (Bool-cases (crc_over k₁ good == crc_over 0 ((64 + a) ∷ good))) [
          | inl t ↦
              shift
              ∙ crc_over_injective k₁ k good (crc_over-lt k bad k-lt) k-lt ((==_iff _ _).0 t ∙ e)
          | inr f ↦ absurd (
              got_differs
                (sym done ∙ run ∙ ap (λ t. if t then (got good, s₂) else (starved, s₂)) f))
        ],
        λ same.
            run
            ∙ ap (λ t. if t then (got good, s₂) else (starved, s₂))
                ((==_iff _ _).1 (ap (λ q. crc_over q good) (sym shift ∙ same) ∙ sym e)),
      )
