-- ===== src/Parse/Syntax/Services.antt =====
-- What `src/command_parser.rs` makes of the lines for the flash, the network and the fan, and of those
-- that ask for a report.
use thermostat.Prelude.{
  ℕ, ◌≡◌, refl, sym, ap, ◌∙◌, true, false, none, some, List, [], ◌∷◌, ◌++◌, Result, ok, err, arith,
  bytes, ◌==◌, ltb,
}
use mathlib.Core.List.{append-nil}
use thermostat.Platform.{Platform}
use thermostat.Nom.{IResult, done}
use thermostat.Nom.Documented.{documented, or_else, digit}
use thermostat.Command.{Command}
use thermostat.Parse.{Error, FloatText, unsigned, channel, map_ok, Outcome}
use thermostat.Parse.System.{
  maybe_channel, load, save, ipv4_addr, net_config, ipv4_setting, ipv4, fan_setting, fan, or_zero,
  curve_of, curve_setting, fan_curve,
}
use thermostat.Parse.Syntax.{first, second, IsDecimal, decimal, number, IsAddress, address}
use thermostat.Parse.Words.{
  Digits, digits_of, Consists, Side, side_byte, index, gap, Decimal, text_of, Address, address_text,
  IsTrail,
}
use thermostat.Parse.Syntax.Tokens.{
  StopsAt, whitespace-gap, unsigned-digits, float-decimal, at_then, at_alt,
}
use thermostat.Parse.Syntax.Trails.{
  Fails, Fails->>=, trail-stops, end-trail, channel-trail, unsigned-trail, tag-trail, bare_read,
}
use thermostat.Parse.Syntax.Bare.{addressless}
use thermostat.Parse.Syntax.Decimals.{
  decimal-tag, decimal-stops, text-stops, float-end, tag-differs,
}

unsigned-end : (d : Digits) → Consists digit d → unsigned (digits_of d) ≡ done [] (number d)
unsigned-end d h = ap unsigned (sym (append-nil (digits_of d))) ∙ unsigned-digits d [] h tt

digit-blank : (c : ℕ) → digit c ≡ true → (c == b' ') ≡ false
digit-blank c h = ground arith

letter_digit : (w c : ℕ) → ltb w b'a' ≡ false → digit c ≡ true → (w == c) ≡ false
letter_digit w c l h = ground arith

module _ ⦃p : Platform⦄ ⦃f : FloatText⦄ where
  -- The numbers of an address.
  address_read :
      (x : Address) (rest : List ℕ)
      → IsAddress x
      → StopsAt digit rest
      → ipv4_addr (address_text x rest) ≡ done rest (address x)
  unfolding ipv4_addr
  address_read x rest (ha, hb, hc, hd) s =
      at_then _ (unsigned-digits x.a _ ha refl)
      ∙ at_then _ (unsigned-digits x.b _ hb refl)
      ∙ at_then _ (unsigned-digits x.c _ hc refl)
      ∙ at_then _ (unsigned-digits x.d rest hd s)

  maybe_channel-bare : (t : List ℕ) → IsTrail t → maybe_channel t ≡ done [] none
  unfolding maybe_channel
  maybe_channel-bare t h = bare_read _ _ t (λ t' h'. Fails->>= channel _ t' (channel-trail t' h')) h

  maybe_channel-one :
      (g : ℕ) (i : Side) (t : List ℕ)
      → IsTrail t
      → maybe_channel (gap g ++ (side_byte i ∷ t)) ≡ done [] (some (index i))
  unfolding maybe_channel channel
  maybe_channel-one g first t h =
      at_alt _ (at_then _ (whitespace-gap g (b'0' ∷ t) refl)) ∙ at_alt _ (at_then _ (end-trail t h))
  maybe_channel-one g second t h =
      at_alt _ (at_then _ (whitespace-gap g (b'1' ∷ t) refl)) ∙ at_alt _ (at_then _ (end-trail t h))

  pub load_line :
      (t : List ℕ) → IsTrail t → load (bytes "load" ++ t) ≡ done [] (ok (Command.load none))
  unfolding load
  load_line t h = at_then _ (maybe_channel-bare t h)

  pub load_one_line :
      (g : ℕ) (i : Side) (t : List ℕ)
      → IsTrail t
      → load (bytes "load" ++ (gap g ++ (side_byte i ∷ t)))
        ≡ done [] (ok (Command.load (some (index i))))
  unfolding load
  load_one_line g i t h = at_then _ (maybe_channel-one g i t h)

  pub save_line :
      (t : List ℕ) → IsTrail t → save (bytes "save" ++ t) ≡ done [] (ok (Command.save none))
  unfolding save
  save_line t h = at_then _ (maybe_channel-bare t h)

  pub save_one_line :
      (g : ℕ) (i : Side) (t : List ℕ)
      → IsTrail t
      → save (bytes "save" ++ (gap g ++ (side_byte i ∷ t)))
        ≡ done [] (ok (Command.save (some (index i))))
  unfolding save
  save_one_line g i t h = at_then _ (maybe_channel-one g i t h)

  pub net_line :
      (g : ℕ) (a : Address) (m : Digits) (t : List ℕ)
      → IsAddress a
      → Consists digit m
      → IsTrail t
      → ipv4 (bytes "ipv4" ++ (gap g ++ address_text a (b'/' ∷ (digits_of m ++ t))))
        ≡ done [] (net_config (address a) (number m) (ok none))
  unfolding ipv4 ipv4_setting
  net_line g a m t ha hm h =
      at_alt _ (at_then _ (whitespace-gap g _ (digit-blank a.a.first (ha.0).0)))
      ∙ at_alt _ (at_then _ (address_read a _ ha refl))
      ∙ at_alt _ (at_then _ (unsigned-digits m t hm (trail-stops t h)))
      ∙ at_alt _
          (at_then _ (bare_read _ _ t (λ t' h'. Fails->>= ipv4_addr _ t' (addressless t' h')) h))

  pub net_via_line :
      (g : ℕ) (a : Address) (m : Digits) (k : ℕ) (b : Address)
      → IsAddress a
      → Consists digit m
      → IsAddress b
      → ipv4 (
          bytes "ipv4"
          ++ (gap g ++ address_text a (b'/' ∷ (digits_of m ++ (gap k ++ address_text b [])))))
        ≡ done [] (net_config (address a) (number m) (map_ok some (address b)))
  unfolding ipv4 ipv4_setting
  net_via_line g a m k b ha hm hb =
      at_alt _ (at_then _ (whitespace-gap g _ (digit-blank a.a.first (ha.0).0)))
      ∙ at_alt _ (at_then _ (address_read a _ ha refl))
      ∙ at_alt _ (at_then _ (unsigned-digits m _ hm refl))
      ∙ at_alt _
          (at_then _ (at_alt _ (at_then _ (whitespace-gap k _ (digit-blank b.a.first (hb.0).0)))))
      ∙ at_alt _ (at_then _ (at_alt _ (at_then _ (address_read b [] hb tt))))

  pub fan_trail_line :
      (t : List ℕ) → IsTrail t → fan (bytes "fan" ++ t) ≡ done [] (ok Command.show_fan)
  unfolding fan fan_setting
  fan_trail_line t h = bare_read _ _ t fails h
    where
      fails : (t' : List ℕ) → IsTrail t' → Fails fan_setting t'
      fails t' h' =
          let (_, e) = tag-trail b'a' (bytes "uto") t' refl h' in
          let (k, e') = unsigned-trail t' h' in (k, at_alt _ (at_then _ e) ∙ at_then _ e')

  pub fan_auto_line :
      (g : ℕ) → fan (bytes "fan" ++ (gap g ++ bytes "auto")) ≡ done [] (ok Command.fan_auto)
  unfolding fan fan_setting
  fan_auto_line g = at_alt _ (at_then _ (whitespace-gap g (bytes "auto") refl))

  pub fan_set_line :
      (g : ℕ) (n : Digits)
      → Consists digit n
      → fan (bytes "fan" ++ (gap g ++ digits_of n))
        ≡ done [] (ok (Command.fan_set (or_zero (number n))))
  unfolding fan fan_setting
  fan_set_line g n h =
      at_alt _ (at_then _ (whitespace-gap g (digits_of n) (digit-blank n.first h.0)))
      ∙ at_alt _ (
          at_alt _ (
            at_then _ (
              tag-differs b'a' n.first (bytes "uto") n.others
                (letter_digit b'a' n.first refl h.0))))
      ∙ at_alt _ (at_then _ (unsigned-end n h))

  pub curve_default_line :
      (g : ℕ)
      → fan_curve (bytes "fcurve" ++ (gap g ++ bytes "default"))
        ≡ done [] (ok Command.fan_curve_defaults)
  unfolding fan_curve curve_setting
  curve_default_line g = at_alt _ (at_then _ (whitespace-gap g (bytes "default") refl))

  -- A curve that is no curve ends the parse: no other form is tried.
  pub curve_of-alone :
      (a b c : Result p.F64 Error) (other : IResult Outcome)
      → or_else (curve_of a b c []) other ≡ curve_of a b c []
  curve_of-alone (ok a) (ok b) (ok c) other = refl
  curve_of-alone (ok a) (ok b) (err c) other = refl
  curve_of-alone (ok a) (err b) c other = refl
  curve_of-alone (err a) b c other = refl

  pub curve_line :
      (g h k : ℕ) (x y z : Decimal)
      → IsDecimal x
      → IsDecimal y
      → IsDecimal z
      → fan_curve (
          bytes "fcurve"
          ++ (gap g ++ (text_of x ++ (gap h ++ (text_of y ++ (gap k ++ text_of z))))))
        ≡ curve_of (decimal x) (decimal y) (decimal z) []
  unfolding fan_curve curve_setting
  curve_line g h k x y z hx hy hz =
      at_alt _ (at_then _ (whitespace-gap g _ (decimal-stops x _ hx)))
      ∙ at_alt _ (at_alt _ (at_then _ (decimal-tag b'd' (bytes "efault") x _ refl hx)))
      ∙ at_alt _ (at_then _ (float-decimal x _ hx refl))
      ∙ at_alt _ (at_then _ (whitespace-gap h _ (decimal-stops y _ hy)))
      ∙ at_alt _ (at_then _ (float-decimal y _ hy refl))
      ∙ at_alt _ (at_then _ (whitespace-gap k (text_of z) (text-stops z hz)))
      ∙ at_alt _ (at_then _ (float-end z hz))
      ∙ curve_of-alone (decimal x) (decimal y) (decimal z) _
