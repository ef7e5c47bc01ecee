-- ===== src/Ad7172/Bus/Device.antt =====
-- The register accesses of `src/ad7172/adc.rs` against a converter that keeps a register.
use thermostat.Prelude.{
  ℕ, zero, suc, ◌+◌, ◌≡◌, refl, sym, ap, ◌∙◌, Bool, true, Option, some, List, [], ◌∷◌, arith,
  length, replicate, Bool-cases, inl, inr, if◌then◌else◌,
}
use thermostat.Ad7172.Checksum.{new, feed, result}
use thermostat.Ad7172.Checksum.Laws.{crc_over, crc_over-append}
use thermostat.Ad7172.Bus.{
  Spi, Adc, Access, got, fault, starved, same_bytes, transfer, read_reg, write_reg, update_reg,
  ◌>>=◌, pure, write_mode, Op,
}
use thermostat.Ad7172.Bus.Retry.{
  checked, address_sum, crc_sum, feed-crc_sum, read_reg_good, if_applied,
}

same_bytes_refl : (xs : List ℕ) → same_bytes xs xs ≡ true
same_bytes_refl [] = refl
same_bytes_refl (x ∷ xs) = ground (arith, same_bytes_refl xs)

same_bytes_eq : (xs ys : List ℕ) → same_bytes xs ys ≡ true → xs ≡ ys
same_bytes_eq [] [] e = refl
same_bytes_eq [] (y ∷ ys) e = absurd (cc)
same_bytes_eq (x ∷ xs) [] e = absurd (cc)
same_bytes_eq (x ∷ xs) (y ∷ ys) e = ground (arith, same_bytes_eq xs ys)

module _ ⦃spi : Spi⦄ where
  -- The converter keeps a register of `size` bytes at the address: a read with its checksum gives the
  -- content with the checksum of it, a write with its checksum sets it.
  pub record Keeps (a size : ℕ) : Type 0 where
    pub content : spi.Dev → List ℕ
    pub sized : (d : spi.Dev) → length (content d) ≡ size
    pub reads :
        (d : spi.Dev)
        → (d' : spi.Dev) × (transfer (64 + a) (replicate size 0) (some (address_sum a)) (checked d)
            ≡ (got (content d, some (crc_over 0 ((64 + a) ∷ content d))), checked d'))
          × (content d' ≡ content d)
    pub writes :
        (d : spi.Dev) (bytes : List ℕ)
        → length bytes ≡ size
        → (d' : spi.Dev) × (answer : List ℕ × Option ℕ) × (transfer a bytes
              (some (crc_over 0 (a ∷ bytes)))
              (checked d)
            ≡ (got answer, checked d'))
          × (content d' ≡ bytes)

  -- What a sequence of two that succeeds consists of.
  bind-got :
      {A B : Type 0} (m : Op A) (f : A → Op B) (s s' : Adc) (y : B)
      → (m >>= f) s ≡ (got y, s')
      → (x : A) × (s₁ : Adc) × (m s ≡ (got x, s₁)) × (f x s₁ ≡ (got y, s'))
  bind-got {A} {B} m f s s' y = split (m s) refl
    where
      split :
          (r : Access A × Adc)
          → m s ≡ r
          → (let (q, t) = r in
              elim q [ got x ↦ f x t | fault ↦ (fault, t) | starved ↦ (starved, t) ])
            ≡ (got y, s')
          → (x : A) × (s₁ : Adc) × (m s ≡ (got x, s₁)) × (f x s₁ ≡ (got y, s'))
      split (got x, t) r e = (x, t, r, e)
      split (fault, t) r e = absurd (cc)
      split (starved, t) r e = absurd (cc)

  pub bind-run :
      {A B : Type 0} (m : Op A) (f : A → Op B) (s s₁ : Adc) (x : A)
      → m s ≡ (got x, s₁)
      → (m >>= f) s ≡ f x s₁
  bind-run m f s s₁ x e =
      ap
        (λ q.
          let (r, t) = q in elim r [ got y ↦ f y t | fault ↦ (fault, t) | starved ↦ (starved, t) ])
        e

  abbrev write_sum : Adc → ℕ → List ℕ → Option ℕ
  write_sum s a bytes = result (feed (feed (new (write_mode s.checksum_mode)) (a ∷ [])) bytes)

  same_state :
      (back bytes : List ℕ) (s s' : Adc)
      → back ≡ bytes
      → ◌≡◌ {A = Access (Unit {0}) × Adc} (got tt, s) (got tt, s')
      → ◌≡◌ {A = Access (List ℕ) × Adc} (got back, s) (got bytes, s')
  same_state back bytes s s' e h =
      ap (λ q. (got q, s)) e ∙ ap (λ q. (got bytes, q)) (ap (λ q. q.1) h)

  -- The second half of a turn of `write_reg`.
  abbrev checked_by : List ℕ → Op (Unit {0}) → List ℕ → Op (Unit {0})
  checked_by bytes again back = if same_bytes back bytes then pure tt else again

  abbrev verify : ℕ → ℕ → List ℕ → Op (Unit {0}) → Op (Unit {0})
  verify reads a bytes again = read_reg reads (length bytes) a >>= checked_by bytes again

  -- Of any device: a write that succeeds has read the same bytes back in the end.
  pub write_reg_verified :
      (n reads a : ℕ) (bytes : List ℕ) (s s' : Adc)
      → write_reg n reads a bytes s ≡ (got tt, s')
      → (s₁ : Adc) × (read_reg reads (length bytes) a s₁ ≡ (got bytes, s'))
  unfolding write_reg
  write_reg_verified zero reads a bytes s s' e = absurd (cc)
  write_reg_verified (suc n) reads a bytes s s' e =
      let again = write_reg n reads a bytes in
      let (_, s₁, _, after) =
        bind-got (transfer a bytes (write_sum s a bytes)) (λ _. verify reads a bytes again) s s' tt
          e in
      let (back, s₂, read, rest) =
        bind-got (read_reg reads (length bytes) a) (checked_by bytes again) s₁ s' tt after in
      let rest' = sym (if_applied (same_bytes back bytes) (pure tt) again s₂) ∙ rest in
      let turn = λ (t : Bool). if t then (got tt, s₂) else again s₂ in
      elim (Bool-cases (same_bytes back bytes)) [
        | inl t ↦ (
          s₁,
          read ∙ same_state back bytes s₂ s' (same_bytes_eq back bytes t) (sym (ap turn t) ∙ rest'),
        )
        | inr f ↦ write_reg_verified n reads a bytes s₂ s' (sym (ap turn f) ∙ rest')
      ]

  -- One turn of the loop of a write.
  write_turn :
      (n reads a : ℕ) (bytes back : List ℕ) (answer : List ℕ × Option ℕ) (d : spi.Dev) (s₁ s₂ : Adc)
      → transfer a bytes (some (crc_over 0 (a ∷ bytes))) (checked d) ≡ (got answer, s₁)
      → read_reg reads (length bytes) a s₁ ≡ (got back, s₂)
      → write_reg (suc n) reads a bytes (checked d)
        ≡ (if same_bytes back bytes then (got tt, s₂) else write_reg n reads a bytes s₂)
  unfolding write_reg result new
  write_turn n reads a bytes back answer d s₁ s₂ sent read =
      let sum =
        ap (λ c. feed c bytes) (feed-crc_sum 0 (a ∷ []))
        ∙ feed-crc_sum (crc_over 0 (a ∷ [])) bytes
        ∙ ap crc_sum (sym (crc_over-append 0 (a ∷ []) bytes)) in
      let again = write_reg n reads a bytes in
      bind-run (transfer a bytes (write_sum (checked d) a bytes)) (λ _. verify reads a bytes again)
        (checked d) s₁ answer (ap (λ c. transfer a bytes (result c) (checked d)) sum ∙ sent)
      ∙ bind-run (read_reg reads (length bytes) a) (checked_by bytes again) s₁ s₂ back read
      ∙ if_applied (same_bytes back bytes) (pure tt) again s₂

  module _ {a size : ℕ} (keeps : Keeps a size) where
    pub read_kept :
        (n : ℕ) (d : spi.Dev)
        → (d' : spi.Dev) × (read_reg (suc n) size a (checked d)
            ≡ (got (keeps.content d), checked d'))
          × (keeps.content d' ≡ keeps.content d)
    read_kept n d =
        let (d', e, same) = keeps.reads d in
        (d', read_reg_good n size a d (keeps.content d) (checked d') e, same)

    pub write_kept :
        (n m : ℕ) (bytes : List ℕ) (d : spi.Dev)
        → length bytes ≡ size
        → (d' : spi.Dev) × (write_reg (suc n) (suc m) a bytes (checked d) ≡ (got tt, checked d'))
          × (keeps.content d' ≡ bytes)
    write_kept n m bytes d h =
        let (d₁, answer, sent, same) = keeps.writes d bytes h in
        let (d₂, read, same') = read_kept m d₁ in
        let back =
          ap (λ k. read_reg (suc m) k a (checked d₁)) h
          ∙ read
          ∙ ap (λ q. (got q, checked d₂)) same in
        (
          d₂,
          write_turn n (suc m) a bytes bytes answer d (checked d₁) (checked d₂) sent back
              ∙ rw (same_bytes_refl bytes) refl,
          same' ∙ same,
        )

    -- An update of the register applies its function to the content.
    pub update_kept :
        (n : ℕ) (f : List ℕ → List ℕ) (d : spi.Dev)
        → ((bytes : List ℕ) → length bytes ≡ size → length (f bytes) ≡ size)
        → (d' : spi.Dev) × (update_reg (suc n) size a f (checked d) ≡ (got tt, checked d'))
          × (keeps.content d' ≡ f (keeps.content d))
    unfolding update_reg
    update_kept n f d fits =
        let (d₁, read, same) = read_kept n d in
        let (d₂, written, e) =
          write_kept n n (f (keeps.content d)) d₁ (fits (keeps.content d) (keeps.sized d)) in
        (
          d₂,
          bind-run (read_reg (suc n) size a) (λ k. write_reg (suc n) (suc n) a (f k)) (checked d)
                (checked d₁) (keeps.content d) read
              ∙ written,
          e,
        )
