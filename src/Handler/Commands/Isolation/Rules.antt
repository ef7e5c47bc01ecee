-- ===== src/Handler/Commands/Isolation/Rules.antt =====
-- When a handler leaves what is beside a channel as it is, step by step.
use thermostat.Prelude.{ℕ, ◌≡◌, refl, Option, none, some, Result, ok, err}
use mathlib.Core.Path.{subst}
use thermostat.Platform.{Platform}
use thermostat.Channels
use thermostat.Channels.{Board, Channels, get_state, modify_state}
use thermostat.Channels.Isolation.{beside, After, IsLocal}
use thermostat.Handler.{
  Error, handled, Host, World, H, pure, continue, ◌>>=◌, ◌>>◌, on_channels, send, Reply,
}

module _ ⦃p : Platform⦄ ⦃b : Board⦄ ⦃h : Host⦄ where
  -- What holds of the world after a handler, if it returns.
  abbrev pub Then : {A : Type 0} → (World → Type 0) → Option (Result A Error × World) → Type 0
  Then P none = Unit
  Then P (some (r, w)) = P w

  -- Wherever the handler returns, what is beside the channel is as it was.
  abbrev pub Spares : {A : Type 0} → ℕ → H A → Type 0
  Spares i m = (w : World) → Then (λ w'. beside i w'.channels ≡ beside i w.channels) (m w)

  Spares-continue :
      {A B : Type 0} (i : ℕ) (k : A → H B) (r : Result A Error)
      → ((a : A) → Spares i (k a))
      → Spares i (continue k r)
  Spares-continue i k (ok a) rest = rest a
  Spares-continue i k (err e) rest = λ w. refl

  Then-bind :
      {A B : Type 0} (i : ℕ) (k : A → H B) (w : World) (o : Option (Result A Error × World))
      → Then (λ w'. beside i w'.channels ≡ beside i w.channels) o
      → ((a : A) → Spares i (k a))
      → Then
          (λ w'. beside i w'.channels ≡ beside i w.channels)
          (elim o [ none ↦ none | some (r, w') ↦ continue k r w' ])
  Then-bind i k w none spared rest = tt
  Then-bind i k w (some (r, w')) spared rest =
      subst (λ t. Then (λ w''. beside i w''.channels ≡ t) (continue k r w')) spared
        (Spares-continue i k r rest w')

  pub Spares->>= :
      {A B : Type 0} (i : ℕ) (m : H A) (k : A → H B)
      → Spares i m
      → ((a : A) → Spares i (k a))
      → Spares i (m >>= k)
  Spares->>= i m k first rest w = Then-bind i k w (m w) (first w) rest

  pub Spares->> :
      {A B : Type 0} (i : ℕ) (m : H A) (k : H B) → Spares i m → Spares i k → Spares i (m >> k)
  Spares->> i m k first rest = Spares->>= i m (λ _. k) first λ _. rest

  Then-channels :
      {A : Type 0} (i : ℕ) (w : World) (o : Option (A × Channels))
      → After (λ s'. beside i s' ≡ beside i w.channels) o
      → Then
          (λ w'. beside i w'.channels ≡ beside i w.channels)
          (elim o [ none ↦ none | some (a, c) ↦ some (ok a, record w { channels = c }) ])
  Then-channels i w none spared = tt
  Then-channels i w (some (a, c)) spared = spared

  pub Spares-on_channels :
      {A : Type 0} (i : ℕ) (m : Channels.M A) → IsLocal i m → Spares i (on_channels m)
  Spares-on_channels i m is_local w = Then-channels i w (m w.channels) (is_local w.channels)

  pub Spares-reply : (i : ℕ) (r : Reply) → Spares i (do send r; pure handled)
  Spares-reply i r w = refl
