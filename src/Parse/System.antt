-- ===== src/Parse/System.antt =====
-- `src/command_parser.rs`: the commands for the flash, the network and the fan.
use thermostat.Prelude.{ℕ, ◌%◌, ◌^◌, Option, none, some, List, [], ◌∷◌, Result, ok, err, bytes}
use thermostat.Platform.{Platform}
use thermostat.Command.{Command, ShowCommand}
use thermostat.Nom.{IResult, Parser, Nom, ◌>>=◌, ◌>>◌, pure}
use thermostat.Parse.{
  Error, FloatText, Outcome, map_ok, and_then, end, whitespace, channel, unsigned, float,
}

-- `x as u8`
abbrev pub as_u8 : ℕ → ℕ
as_u8 x = x % 2 ^ 8

-- The closure `address` of `ipv4_addr`: the first error, or the numbers cut to bytes.
abbrev pub octets :
    Result ℕ Error → Result ℕ Error → Result ℕ Error → Result ℕ Error → Result (List ℕ) Error
octets a b c d = and_then a (λ a'.
    and_then b
      (λ b'. and_then c (λ c'. map_ok (λ d'. as_u8 a' ∷ as_u8 b' ∷ as_u8 c' ∷ as_u8 d' ∷ []) d)))

-- `unwrap_or(0)`
abbrev pub or_zero : Result ℕ Error → ℕ
or_zero (ok v) = v
or_zero (err e) = 0

module _ ⦃p : Platform⦄ where
  -- The closure `result` of `ipv4`.
  abbrev pub net_config :
      Result (List ℕ) Error → Result ℕ Error → Result (Option (List ℕ)) Error → Outcome
  net_config address mask gateway = and_then address (λ a. and_then mask (λ m.
      map_ok (λ g. Command.set_ipv4 (record { address = a; mask_len = as_u8 m; gateway = g }))
        gateway))

module _ ⦃n : Nom⦄ ⦃p : Platform⦄ ⦃f : FloatText⦄ where
  -- The channel of `load` and `save`, if there is one.
  unfoldable pub maybe_channel : Parser (Option ℕ)
  maybe_channel = n.alt (do whitespace; i ← channel; end; pure (some i)) (n.value none end ∷ [])

  unfoldable pub load : Parser Outcome
  load = do n.tag (bytes "load"); i ← maybe_channel; pure (ok (Command.load i))

  unfoldable pub save : Parser Outcome
  save = do n.tag (bytes "save"); i ← maybe_channel; pure (ok (Command.save i))

  unfoldable pub ipv4_addr : Parser (Result (List ℕ) Error)
  ipv4_addr = do
    a ← unsigned
    n.tag (bytes ".")
    b ← unsigned
    n.tag (bytes ".")
    c ← unsigned
    n.tag (bytes ".")
    d ← unsigned
    pure (octets a b c d)

  unfoldable pub ipv4_setting : Parser Outcome
  ipv4_setting = do
    whitespace
    address ← ipv4_addr
    n.tag (bytes "/")
    mask ← unsigned
    gateway ←
        n.alt (do whitespace; g ← ipv4_addr; pure (map_ok some g)) (n.value (ok none) end ∷ [])
    pure (net_config address mask gateway)

  unfoldable pub ipv4 : Parser Outcome
  ipv4 = do
    n.tag (bytes "ipv4")
    n.alt ipv4_setting (n.value (ok (Command.show ShowCommand.ipv4)) end ∷ [])

  unfoldable pub fan_setting : Parser Outcome
  fan_setting =
      n.alt (do n.tag (bytes "auto"); pure (ok Command.fan_auto))
        ((do v ← unsigned; pure (ok (Command.fan_set (or_zero v)))) ∷ [])

  unfoldable pub fan : Parser Outcome
  fan = do
    n.tag (bytes "fan")
    n.alt (do whitespace; fan_setting) (n.value (ok Command.show_fan) end ∷ [])

  -- The `if let` of `fan_curve`: a number that is none ends the parse as incomplete.
  abbrev pub curve_of :
      Result p.F64 Error → Result p.F64 Error → Result p.F64 Error → Parser Outcome
  curve_of (ok a) (ok b) (ok c) =
      pure (ok (Command.fan_curve (p.narrow a) (p.narrow b) (p.narrow c)))
  curve_of _ _ _ = λ input. IResult.incomplete

  unfoldable pub curve_setting : Parser Outcome
  curve_setting =
      n.alt (do n.tag (bytes "default"); pure (ok Command.fan_curve_defaults))
        ((do a ← float; whitespace; b ← float; whitespace; c ← float; curve_of a b c) ∷ [])

  unfoldable pub fan_curve : Parser Outcome
  fan_curve = do
    n.tag (bytes "fcurve")
    n.alt (do whitespace; curve_setting) (n.value (err Error.incomplete) end ∷ [])
