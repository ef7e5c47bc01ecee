-- ===== src/Dac/Frame.antt =====
-- What the frame of `src/ad5680.rs` says to the converter.
use thermostat.Prelude.{ℕ, ◌+◌, ◌*◌, ◌/◌, ◌<◌, ◌≡◌, min, List, [], ◌∷◌, arith, All}
use thermostat.Dac.{max_value, frame}

-- The value of a frame: the data stand above two unused bits of 24.
unfoldable pub decode : List ℕ → ℕ
decode (a ∷ b ∷ c ∷ []) = (a * 65536 + b * 256 + c) / 4
decode _ = 0

-- Every value is sent as three bytes that carry it exactly, cut at the full scale.
pub decode-frame : (v : ℕ) → (decode (frame v) ≡ min v max_value) × All (λ b. b < 256) (frame v)
unfolding decode frame
decode-frame v = omega arith
