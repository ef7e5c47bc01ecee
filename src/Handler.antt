-- ===== src/Handler.antt =====
-- `src/command_handler.rs`: what a command does to the channels, the flash, the fan and the socket.
pub mod SendLine
pub mod Commands
use thermostat.Prelude.{
  ℕ, Bool, true, false, Option, none, some, List, [], ◌∷◌, ◌++◌, Result, ok, err, if◌then◌else◌,
}
use thermostat.Platform.{Platform}
use thermostat.Command.{Ipv4Config}
use thermostat.ChannelState.{ChannelState}
use thermostat.Channels
use thermostat.Channels.{Board, Channels}
use thermostat.Config.{ChannelConfig}
use thermostat.Fan.{FanCtrl}
use thermostat.Report.{Payload}

-- `Handler`
pub data Outcome : Type 0 where
  handled close_socket reset : Outcome
  new_ipv4 : Ipv4Config → Outcome

-- `Error`
pub data Error : Type 0 where
  report post_filter_rate flash : Error

module _ ⦃p : Platform⦄ ⦃b : Board⦄ where
  -- The flash store of the `sfkv` crate under the keys of the channels and of the network, and the
  -- serializer, which fails where its buffer is too small.
  pub record Host : Type 1 where
    pub Store : Type 0
    pub Fault : Type 0
    pub read_config : Store → ℕ → Result (Option ChannelConfig) Fault
    pub write_config : Store → ℕ → ChannelConfig → Result (Unit {0}) Fault × Store
    pub write_ipv4 : Store → Ipv4Config → Bool × Store
    pub fits : Payload → Bool

  -- The lines that are handed to the socket. `done` is `{}`; the warnings and errors are the texts of
  -- the source.
  pub data Reply : Type 0 where
    done : Reply
    json : Payload → Reply
    net_config : Ipv4Config → Reply
    no_fan no_full_pwm no_filter not_found debug_error : Reply

  module _ ⦃h : Host⦄ where
    pub record World : Type 0 where
      pub channels : Channels
      pub store : h.Store
      pub ipv4_config : Ipv4Config
      pub fan_ctrl : FanCtrl
      pub sent : List Reply
      pub dfu_trigger : Bool

    -- A handler: `none` is a panic, and an error keeps what was done before it.
    abbrev pub H : Type 0 → Type 0
    H A = World → Option (Result A Error × World)

    abbrev pub pure : {A : Type 0} → A → H A
    pure a w = some (ok a, w)

    abbrev pub fail : {A : Type 0} → Error → H A
    fail e w = some (err e, w)

    abbrev pub continue : {A B : Type 0} → (A → H B) → Result A Error → H B
    continue f (ok a) = f a
    continue f (err e) = fail e

    infixl 5 ◌>>=◌ ◌>>◌
    abbrev pub ◌>>=◌ : {A B : Type 0} → H A → (A → H B) → H B
    ◌>>=◌ m f w = elim (m w) [ none ↦ none | some (r, w') ↦ continue f r w' ]

    abbrev pub ◌>>◌ : {A B : Type 0} → H A → H B → H B
    m >> k = m >>= λ _. k

    -- A method of the channels.
    abbrev pub on_channels : {A : Type 0} → Channels.M A → H A
    on_channels m w = elim (m w.channels) [
      | none ↦ none
      | some (a, c) ↦ some (ok a, record w { channels = c })
    ]

    -- A method of the fan.
    abbrev pub on_fan : (FanCtrl → FanCtrl) → H (Unit {0})
    on_fan f w = some (ok tt, record w { fan_ctrl = f w.fan_ctrl })

    -- `send_line`, whose result the handlers ignore, and `writeln!`.
    abbrev pub send : Reply → H (Unit {0})
    send r w = some (ok tt, record w { sent = w.sent ++ r ∷ [] })

    abbrev pub gets : {A : Type 0} → (World → A) → H A
    gets f w = some (ok (f w), w)

    -- `to_vec`, then the line or the error.
    abbrev pub send_json : Payload → H Outcome
    send_json x =
        if h.fits x then (do send (json x); pure handled) else (do send debug_error; fail report)
