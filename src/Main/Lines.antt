-- ===== src/Main/Lines.antt =====
-- From the bytes of a socket to a handled command, through the callback of `src/main.rs`.
use thermostat.Prelude.{
  ℕ, ◌+◌, ◌≤◌, ◌<◌, ◌≡◌, ◌∙◌, refl, ap, true, false, not, ◌&&◌, Option, some, List, [], ◌∷◌, ◌++◌,
  arith, length, take, take_all,
}
use thermostat.Platform.{Platform}
use thermostat.Command.{Command, ShowCommand}
use thermostat.HwRev.{HwRev}
use thermostat.Channels.{Board}
use thermostat.Nom.{Nom}
use thermostat.Nom.Documented.{IsDocumented}
use thermostat.Parse
use thermostat.Parse.{FloatText}
use thermostat.Parse.Line.{parse}
use thermostat.Parse.Syntax
use thermostat.Parse.Syntax.Meaning.{meaning}
use thermostat.Parse.Syntax.{Line, print, IsLine}
use thermostat.Parse.Syntax.Complete.{parse-print}
use thermostat.Session.{Session, SessionInput, from_result, is_enter, max_line_len, feed}
use thermostat.Session.Refine.{IsValid, content}
use thermostat.Session.Feed.{IsPlain, feed_line}
use thermostat.Handler.{Host}
use thermostat.Handler.SendLine.{TcpSocket}
use thermostat.Server.{Tcp, Interface, ◌>>=◌}
use thermostat.Main.{Texts, Context, on_input, on_received, feed_session, serve}

-- What smoltcp documents of `recv`: it hands over the bytes that are there, and drops those used.
pub record Receives ⦃t : TcpSocket⦄ ⦃k : Tcp⦄ : Type 1 where
  pub received : t.Socket → Option (List ℕ)
  pub dequeue : t.Socket → ℕ → t.Socket
  pub recv_lem :
      (A : Type 0) (s : t.Socket) (f : List ℕ → ℕ × A) (bs : List ℕ)
      → received s ≡ some bs
      → k.recv s f ≡ (some (f bs).1, dequeue s (f bs).0)

-- A connection open in both ways, with bytes to read and room to answer.
abbrev pub IsReady : ⦃t : TcpSocket⦄ → ⦃k : Tcp⦄ → t.Socket → Type 0
IsReady ⦃t⦄ ⦃k⦄ s =
    (k.is_active s ≡ true)
    × ((k.may_send s && not (k.may_recv s)) ≡ false)
    × ((k.can_send s && k.can_recv s) ≡ true)

-- No line of the language is empty.
print_some : (l : Line) → 0 < length (print l)
unfolding print
print_some Syntax.quit = omega arith
print_some Syntax.reset = omega arith
print_some Syntax.dfu = omega arith
print_some Syntax.hwrev = omega arith
print_some (Syntax.show ShowCommand.input t) = omega arith
print_some (Syntax.show ShowCommand.output t) = omega arith
print_some (Syntax.show ShowCommand.pid t) = omega arith
print_some (Syntax.show ShowCommand.b_parameter t) = omega arith
print_some (Syntax.show ShowCommand.post_filter t) = omega arith
print_some (Syntax.show ShowCommand.ipv4 t) = omega arith
print_some (Syntax.load t) = omega arith
print_some (Syntax.save t) = omega arith
print_some (Syntax.show_fan t) = omega arith
print_some (Syntax.load_one g i t) = omega arith
print_some (Syntax.save_one g i t) = omega arith
print_some (Syntax.output_pid g i h) = omega arith
print_some (Syntax.output_polarity g i h k q) = omega arith
print_some (Syntax.output g i h pin k x) = omega arith
print_some (Syntax.center_vref g i h) = omega arith
print_some (Syntax.center g i h x) = omega arith
print_some (Syntax.pid g i h parameter k x) = omega arith
print_some (Syntax.b_parameter g i h parameter k x) = omega arith
print_some (Syntax.filter_off g i h) = omega arith
print_some (Syntax.filter_rate g i h k x) = omega arith
print_some (Syntax.net g a m t) = omega arith
print_some (Syntax.net_via g a m h b) = omega arith
print_some (Syntax.fan_auto g) = omega arith
print_some (Syntax.fan_set g n) = omega arith
print_some (Syntax.curve_default g) = omega arith
print_some (Syntax.curve g x h y k z) = omega arith

module _ ⦃p : Platform⦄ ⦃b : Board⦄ ⦃h : Host⦄ ⦃t : TcpSocket⦄ ⦃k : Tcp⦄ ⦃i : Interface⦄ ⦃x : Texts⦄
    ⦃n : Nom⦄ ⦃f : FloatText⦄ (hwrev : HwRev) (laws : IsDocumented n) (reads : Receives) where
  -- The result of the callback where the session has read a line as `input`.
  serve_input :
      (s : t.Socket) (session : Session) (c : Context) (bs : List ℕ) (m : ℕ)
      (input : SessionInput Command Parse.Error)
      → IsReady s
      → reads.received s ≡ some bs
      → let (n', input', session') = feed parse session bs in
        n' ≡ m
        → input' ≡ input
        → serve hwrev s session c
          ≡ (on_input hwrev input (reads.dequeue s m) c >>= λ r. some (r.0, session', r.1))
  unfolding serve on_received feed_session
  serve_input s session c bs m input (active, half, both) has count read =
      rw (active, half, both)
        (rw (reads.recv_lem _ s (feed_session session) bs has) (rw (count, read) refl))

  -- With a `nom` that does what it documents and a `recv` that hands over the bytes received: a
  -- connection open in both ways, whose session is between two lines, holds a line of the language of
  -- at most 64 bytes without an inner end of line, and its end. Then the line and its end are taken
  -- off the socket, the command that the line stands for is handled, or its error answered, on that
  -- socket, and the session is between two lines again.
  pub serve_line :
      (s : t.Socket) (session : Session) (c : Context) (l : Line) (enter : ℕ) (rest : List ℕ)
      → IsLine l
      → IsPlain (print l)
      → length (print l) ≤ max_line_len
      → is_enter enter ≡ true
      → IsReady s
      → reads.received s ≡ some (print l ++ enter ∷ rest)
      → IsValid session.reader
      → content session.reader ≡ []
      → (session' : Session) × IsValid session'.reader
        × (content session'.reader ≡ [])
        × (serve hwrev s session c ≡ (
            on_input hwrev (from_result (meaning l)) (reads.dequeue s (length (print l) + 1)) c
            >>= λ r. some (r.0, session', r.1)))
  serve_line s session c l enter rest is plain short e ready has v between =
      let start : content session.reader ++ print l ≡ print l = ap (λ q. q ++ print l) between in
      let (count, read, empty, v') =
        feed_line parse session (print l) rest enter v plain e (rw start (print_some l)) in
      let line : take max_line_len (content session.reader ++ print l) ≡ print l =
        ap (take max_line_len) start ∙ take_all max_line_len (print l) short in
      (
        (feed parse session (print l ++ enter ∷ rest)).2,
        v',
        empty,
        serve_input s session c (print l ++ enter ∷ rest) (length (print l) + 1)
            (from_result (meaning l)) ready has count
            (read
              ∙ ap (λ q. from_result (parse q)) line
              ∙ ap from_result (parse-print n laws l is)),
      )
