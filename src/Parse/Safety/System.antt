-- ===== src/Parse/Safety/System.antt =====
-- The ranges that the parsers of Parse/System give.
use thermostat.Prelude.{◌<◌, none, some, Result, ok, err, bytes}
use thermostat.Platform.{Platform}
use thermostat.Command.{Command, ShowCommand}
use thermostat.Nom.{Nom}
use thermostat.Nom.Documented.{IsDocumented}
use thermostat.Parse.{Error, FloatText, map_ok, end, whitespace, channel, unsigned, float}
use thermostat.Parse.System.{
  or_zero, net_config, maybe_channel, load, save, ipv4_addr, ipv4_setting, ipv4, fan_setting, fan,
  curve_of, curve_setting, fan_curve,
}
use thermostat.Parse.Safety.Rules.{
  Gives, Gives->>=, Gives-skip, Gives-pure, Gives-alt, Gives-value, Gives-channel, IsU32,
  Gives-unsigned,
}
use thermostat.Parse.Safety.Ranges.{
  IsChannel, Fits, IsOctets, octets-IsOctets, IsVia, map_ok-IsVia, net_config-Fits, or_zero_lt,
}

module _ ⦃p : Platform⦄ ⦃n : Nom⦄ ⦃f : FloatText⦄ (laws : IsDocumented n) where
  Gives-maybe_channel : Gives IsChannel maybe_channel
  unfolding maybe_channel
  Gives-maybe_channel =
      Gives-alt laws IsChannel _ _
        (Gives-skip IsChannel whitespace _ λ _.
          Gives->>= (λ i. i < 2) IsChannel channel _ (Gives-channel laws)
            λ i small. Gives-skip IsChannel end _ λ _. Gives-pure IsChannel (some i) small)
        (Gives-value laws IsChannel none end tt, tt)

  pub Gives-load : Gives Fits load
  unfolding load
  Gives-load = Gives-skip Fits (n.tag (bytes "load")) _ λ _.
      Gives->>= IsChannel Fits maybe_channel _ Gives-maybe_channel
        λ i h. Gives-pure Fits (ok (Command.load i)) h

  pub Gives-save : Gives Fits save
  unfolding save
  Gives-save = Gives-skip Fits (n.tag (bytes "save")) _ λ _.
      Gives->>= IsChannel Fits maybe_channel _ Gives-maybe_channel
        λ i h. Gives-pure Fits (ok (Command.save i)) h

  Gives-ipv4_addr : Gives IsOctets ipv4_addr
  unfolding ipv4_addr
  Gives-ipv4_addr = Gives-skip IsOctets unsigned _ λ a.
      Gives-skip IsOctets (n.tag (bytes ".")) _ λ _. Gives-skip IsOctets unsigned _ λ b.
        Gives-skip IsOctets (n.tag (bytes ".")) _ λ _. Gives-skip IsOctets unsigned _ λ c.
          Gives-skip IsOctets (n.tag (bytes ".")) _
            λ _. Gives-skip IsOctets unsigned _ λ d. Gives-pure IsOctets _ (octets-IsOctets a b c d)

  pub Gives-ipv4 : Gives Fits ipv4
  unfolding ipv4 ipv4_setting
  Gives-ipv4 = Gives-skip Fits (n.tag (bytes "ipv4")) _ λ _.
      Gives-alt laws Fits _ _
        (Gives-skip Fits whitespace _ λ _.
          Gives->>= IsOctets Fits ipv4_addr _ Gives-ipv4_addr λ a is_address.
            Gives-skip Fits (n.tag (bytes "/")) _ λ _. Gives-skip Fits unsigned _ λ m.
              Gives->>= IsVia Fits (n.alt _ _) _
                (Gives-alt laws IsVia _ _
                  (Gives-skip IsVia whitespace _ λ _.
                    Gives->>= IsOctets IsVia ipv4_addr _ Gives-ipv4_addr
                      λ g is_gateway. Gives-pure IsVia (map_ok some g) (map_ok-IsVia g is_gateway))
                  (Gives-value laws IsVia (ok none) end tt, tt))
                λ g is_via.
                  Gives-pure Fits (net_config a m g) (net_config-Fits a m g is_address is_via))
        (Gives-value laws Fits (ok (Command.show ShowCommand.ipv4)) end tt, tt)

  pub Gives-fan : Gives Fits fan
  unfolding fan fan_setting
  Gives-fan = Gives-skip Fits (n.tag (bytes "fan")) _ λ _.
      Gives-alt laws Fits _ _
        (Gives-skip Fits whitespace _ λ _.
          Gives-alt laws Fits _ _
            (Gives-skip Fits (n.tag (bytes "auto")) _ λ _. Gives-pure Fits (ok Command.fan_auto) tt)
            (
              Gives->>= IsU32 Fits unsigned _ (Gives-unsigned laws) λ v small.
                  Gives-pure Fits (ok (Command.fan_set (or_zero v))) (or_zero_lt v small),
              tt,
            ))
        (Gives-value laws Fits (ok Command.show_fan) end tt, tt)

  Gives-curve_of : (a b c : Result p.F64 Error) → Gives Fits (curve_of a b c)
  Gives-curve_of (ok a) (ok b) (ok c) = Gives-pure Fits _ tt
  Gives-curve_of (ok a) (ok b) (err c) = record { on = λ input. tt }
  Gives-curve_of (ok a) (err b) c = record { on = λ input. tt }
  Gives-curve_of (err a) b c = record { on = λ input. tt }

  pub Gives-fan_curve : Gives Fits fan_curve
  unfolding fan_curve curve_setting
  Gives-fan_curve = Gives-skip Fits (n.tag (bytes "fcurve")) _ λ _.
      Gives-alt laws Fits _ _
        (Gives-skip Fits whitespace _ λ _.
          Gives-alt laws Fits _ _
            (Gives-skip Fits (n.tag (bytes "default")) _
              λ _. Gives-pure Fits (ok Command.fan_curve_defaults) tt)
            (
              Gives-skip Fits float _ λ a. Gives-skip Fits whitespace _ λ _.
                  Gives-skip Fits float _ λ b.
                    Gives-skip Fits whitespace _
                      λ _. Gives-skip Fits float _ λ c. Gives-curve_of a b c,
              tt,
            ))
        (Gives-value laws Fits (err Error.incomplete) end tt, tt)
