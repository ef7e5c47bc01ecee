-- ===== src/Handler/Commands/Isolation/Storage.antt =====
-- `load` and `save` of one channel.
use thermostat.Prelude.{
  ℕ, refl, sym, Option, none, some, Result, ok, err, ◌==◌, if◌then◌else◌, arith, Bool-cases, inl,
  inr,
}
use mathlib.Core.Path.{subst}
use thermostat.Platform.{Platform}
use thermostat.Channels.{Board}
use thermostat.Channels.Isolation.Settings.{IsLocal-apply, IsLocal-new}
use thermostat.Config
use thermostat.Config.{ChannelConfig}
use thermostat.Handler.{Host, H, pure, ◌>>=◌, on_channels, gets}
use thermostat.Handler.Commands.{
  selects, load_result, load_one, load_channel, write_store, save_result, save_one, save_channel,
}
use thermostat.Handler.Commands.Isolation.Rules.{Spares, Spares->>=, Spares->>, Spares-on_channels}

module _ ⦃p : Platform⦄ ⦃b : Board⦄ ⦃h : Host⦄ where
  Spares-load_result :
      (i : ℕ) (r : Result (Option ChannelConfig) h.Fault) → Spares i (load_result i r)
  unfolding load_result
  Spares-load_result i (ok (some cfg)) =
      Spares->> i (on_channels (Config.apply cfg i)) _
        (Spares-on_channels i (Config.apply cfg i) (IsLocal-apply cfg i)) λ w. refl
  Spares-load_result i (ok none) = λ w. refl
  Spares-load_result i (err e) = λ w. refl

  Spares-selected :
      (i c : ℕ) (m : H (Unit {0}))
      → Spares c m
      → Spares i (if selects (some i) c then m else pure tt)
  Spares-selected i c m spares = elim (Bool-cases (i == c)) [
    | inl same ↦ rw same (subst (λ k. Spares k m) (sym (ground (arith, same))) spares)
    | inr differs ↦ rw differs (λ w. refl)
  ]

  Spares-load_one : (i c : ℕ) → Spares i (load_one (some i) c)
  unfolding load_one
  Spares-load_one i c =
      Spares-selected i c (do r ← gets (λ w. h.read_config w.store c); load_result c r)
        (Spares->>= c (gets (λ w. h.read_config w.store c)) (load_result c) (λ w. refl)
          (Spares-load_result c))

  pub Spares-load_channel : (i : ℕ) → Spares i (load_channel (some i))
  unfolding load_channel
  Spares-load_channel i =
      Spares->> i (load_one (some i) 0) _ (Spares-load_one i 0)
        (Spares->> i (load_one (some i) 1) _ (Spares-load_one i 1) λ w. refl)

  Spares-save_result : (i : ℕ) (r : Result (Unit {0}) h.Fault) → Spares i (save_result r)
  unfolding save_result
  Spares-save_result i (ok _) = λ w. refl
  Spares-save_result i (err e) = λ w. refl

  Spares-write_store : (i c : ℕ) (cfg : ChannelConfig) → Spares i (write_store c cfg)
  unfolding write_store
  Spares-write_store i c cfg w = refl

  Spares-save_one : (i c : ℕ) → Spares i (save_one (some i) c)
  unfolding save_one
  Spares-save_one i c =
      Spares-selected i c
        (do cfg ← on_channels (Config.new c); r ← write_store c cfg; save_result r)
        (Spares->>= c (on_channels (Config.new c)) _
          (Spares-on_channels c (Config.new c) (IsLocal-new c))
          λ cfg.
            Spares->>= c (write_store c cfg) save_result (Spares-write_store c c cfg)
              (Spares-save_result c))

  pub Spares-save_channel : (i : ℕ) → Spares i (save_channel (some i))
  unfolding save_channel
  Spares-save_channel i =
      Spares->> i (save_one (some i) 0) _ (Spares-save_one i 0)
        (Spares->> i (save_one (some i) 1) _ (Spares-save_one i 1) λ w. refl)
