-- ===== src/Main.antt =====
-- The main loop of `src/main.rs`: one iteration, from the converter to the sockets.
pub mod Lines
pub mod Reset
pub mod Repower
pub mod Address
pub mod Start
pub mod Dfu
pub mod Sessions
use thermostat.Prelude.{
  ℕ, suc, Bool, true, false, not, ◌&&◌, Option, none, some, List, [], ◌∷◌, Result, ok, err, foldl,
  if◌then◌else◌, bytes,
}
use thermostat.Platform.{Platform}
use thermostat.Command.{Command, Ipv4Config}
use thermostat.HwRev.{HwRev}
use thermostat.Leds.{turn_on, turn_off}
use thermostat.Channels
use thermostat.Channels.{Board, Channels}
use thermostat.Channels.Control.{poll_adc, pid_engaged}
use thermostat.Channels.Sense.{current_abs_max_tec_i}
use thermostat.Fan
use thermostat.Report.{Payload}
use thermostat.Nom.{Nom}
use thermostat.Parse.{FloatText}
use thermostat.Parse
use thermostat.Parse.Line.{parse}
use thermostat.Session.{Session, SessionInput, nothing, command, error, reset, feed}
use thermostat.Handler
use thermostat.Handler.{
  Host, World, Reply, done, json, net_config, no_fan, no_full_pwm, no_filter, not_found,
  debug_error, Outcome, handled, close_socket, new_ipv4,
}
use thermostat.Handler.SendLine.{TcpSocket, send_line}
use thermostat.Handler.Commands.Dispatch.{handle_command}
use thermostat.Server.{Tcp, Interface, Server, for_each, poll, set_ipv4_config, ◌>>=◌}

-- `TCP_PORT`
abbrev pub tcp_port : ℕ
tcp_port = 23

-- The texts that `serde_json` and `write!` make, the latter written to the socket.
pub record Texts ⦃p : Platform⦄ ⦃b : Board⦄ ⦃t : TcpSocket⦄ : Type 1 where
  pub json_text : Payload → List ℕ
  pub write_net : Ipv4Config → t.Socket → t.Socket
  pub write_error : t.Socket → t.Socket

module _ ⦃n : Nom⦄ ⦃p : Platform⦄ ⦃f : FloatText⦄ where
  -- `session.feed(buf)`
  unfoldable pub feed_session : Session → List ℕ → ℕ × (SessionInput Command Parse.Error × Session)
  feed_session session buf =
      let (n, input, session') = feed parse session buf in (n, (input, session'))

module _ ⦃p : Platform⦄ ⦃b : Board⦄ where
  -- The converter, and the current that the fan follows.
  unfoldable pub sense : ℕ → Channels → Option (p.F64 × Channels)
  sense instant s = do (_, s') ← poll_adc instant s; current_abs_max_tec_i s'

module _ ⦃t : TcpSocket⦄ ⦃k : Tcp⦄ where
  -- The callback over the sockets before a reset; it captures `any_socket_alive`.
  unfoldable pub shut : t.Socket → Session → Bool → Option (t.Socket × Session × Bool)
  shut s session alive =
      if k.is_active s then some (k.abort s, session, true) else some (s, session, alive)

module _ ⦃p : Platform⦄ ⦃b : Board⦄ ⦃h : Host⦄ ⦃t : TcpSocket⦄ ⦃k : Tcp⦄ ⦃i : Interface⦄ where
  -- What the callback over the sockets captures: what the handlers work on, the configuration to
  -- apply after the sockets, and whether to reset.
  pub record Context : Type 0 where
    pub world : World
    pub new_ipv4_config : Option Ipv4Config
    pub should_reset : Bool

  -- The locals of `main` around the loop; the levels of the LEDs and how often the watchdog was fed.
  pub record Loop : Type 0 where
    pub world : World
    pub server : Server
    pub should_reset : Bool
    pub led_g3 : Bool
    pub led_g4 : Bool
    pub fed : ℕ

  -- An iteration ends, or the processor is reset.
  pub data Next : Type 0 where
    again : Loop → Next
    sys_reset : Loop → Next

  -- The LED shows whether a PID is engaged, of the channels after the converter.
  unfoldable pub sensed : p.F64 → Channels → Loop → Loop
  sensed current s l = record l {
    world = record (l.world) { channels = s; fan_ctrl = Fan.cycle current l.world.fan_ctrl };
    led_g3 = pid_engaged s;
  }

  abbrev pub context : Loop → Context
  context l = record { world = l.world; new_ipv4_config = none; should_reset = l.should_reset }

  -- A configuration that the sockets left is applied.
  unfoldable pub apply_ipv4 : Option Ipv4Config → Loop → Option Loop
  apply_ipv4 none l = some l
  apply_ipv4 (some config) l = do
    server ← set_ipv4_config config l.server
    some (record l { server = server; world = record (l.world) { ipv4_config = config } })

  -- The watchdog, and the LED that is off while the processor waits.
  unfoldable pub wait : Loop → Next
  wait l = again (record l { fed = suc l.fed; led_g4 = turn_on (turn_off l.led_g4) })

  unfoldable pub shut_all : Loop → Option Next
  unfolding shut wait
  shut_all l = do
    (server, alive) ← for_each shut l.server false
    some (
        if alive
        then wait (record l { server = server })
        else sys_reset (record l { server = server }))

  -- The `match` on the result of a handler.
  unfoldable pub after : Result Outcome Handler.Error → t.Socket → Context → t.Socket × Context
  after (ok (new_ipv4 ip)) s c = (s, record c { new_ipv4_config = some ip })
  after (ok handled) s c = (s, c)
  after (ok close_socket) s c = (k.close s, c)
  after (ok Handler.reset) s c = (s, record c { should_reset = true })
  after (err e) s c = (s, c)

  module _ ⦃x : Texts⦄ where
    -- A reply of a handler on the socket.
    unfoldable pub deliver : t.Socket → Reply → t.Socket
    deliver s done = (send_line s (bytes "{}")).1
    deliver s (json y) = (send_line s (x.json_text y)).1
    deliver s (net_config c) = x.write_net c s
    deliver s no_fan =
        (send_line s (bytes "{ \"warning\": \"this thermostat doesn't have a fan!\" }")).1
    deliver s no_full_pwm =
        (send_line s (
          bytes
            "{ \"warning\": \"this fan doesn't have full PWM support. Use it at your own risk!\" }")).1
    deliver s no_filter =
        (send_line s (bytes "{{\"error\": \"unable to choose postfilter rate\"}}")).1
    deliver s not_found = (send_line s (bytes "{{\"error\": \"flash config not found\"}}")).1
    deliver s debug_error = x.write_error s

    module _ ⦃n : Nom⦄ ⦃f : FloatText⦄ (hwrev : HwRev) where
      -- A command of a session, with its replies.
      unfoldable pub run_command : Command → t.Socket → Context → Option (t.Socket × Context)
      unfolding deliver after
      run_command cmd s c = do
        (r, w) ← handle_command hwrev cmd (record (c.world) { sent = [] })
        some (after r (foldl deliver s w.sent) (record c { world = w }))

      -- The `match` on what the session made of the bytes.
      unfoldable pub on_input :
          SessionInput Command Parse.Error → t.Socket → Context → Option (t.Socket × Context)
      unfolding run_command
      on_input nothing s c = some (s, c)
      on_input (command cmd) s c = run_command cmd s c
      on_input (error e) s c = some ((send_line s (bytes "{ \"error\": \"invalid input\" }")).1, c)

      -- The arms of the `match` on `socket.recv`; the session has what `feed` left in it.
      unfoldable pub on_received :
          Option (SessionInput Command Parse.Error × Session) × t.Socket
          → Session
          → Context
          → Option (t.Socket × Session × Context)
      unfolding on_input
      on_received (none, s) session c = some (k.close s, session, c)
      on_received (some (input, session'), s) session c = do
        (s', c') ← on_input input s c
        some (s', session', c')

      -- The callback over the sockets.
      unfoldable pub serve : t.Socket → Session → Context → Option (t.Socket × Session × Context)
      unfolding on_received feed_session
      serve s session c =
          if not (k.is_active s)
          then some (k.listen s tcp_port, reset session, c)
          else if k.may_send s && not (k.may_recv s)
          then some (k.close s, session, c)
          else if k.can_send s && k.can_recv s
          then on_received
              (k.recv {A = SessionInput Command Parse.Error × Session} s (feed_session session))
              session c
          else some (s, session, c)

      unfoldable pub serve_all : Loop → Option Next
      unfolding serve apply_ipv4 wait
      serve_all l = do
        (server, c) ← for_each serve l.server (context l)
        l' ←
            apply_ipv4 c.new_ipv4_config
              (record l { world = c.world; server = server; should_reset = c.should_reset })
        some (wait l')

      -- One turn of the loop, at the two times that it reads from the timer. An error of `poll` is only
      -- logged.
      unfoldable pub iterate : ℕ → ℕ → Loop → Option Next
      unfolding sense sensed serve_all shut_all
      iterate t₁ t₂ l = do
        (current, channels) ← sense t₁ l.world.channels
        let l₁ = sensed current channels l
        let (_, server) = poll l₁.server t₂
        let l₂ = record l₁ { server = server }
        if l₂.should_reset then shut_all l₂ else serve_all l₂

      -- The `loop`, for so many turns at such times.
      unfoldable pub run : List (ℕ × ℕ) → Loop → Option Next
      unfolding iterate
      run [] l = some (again l)
      run ((t₁, t₂) ∷ ts) l = do
        next ← iterate t₁ t₂ l
        elim next [ again l' ↦ run ts l' | sys_reset l' ↦ some (sys_reset l') ]
