-- ===== src/Tests/Model/Net.antt =====
-- Sockets that are buffers, an interface that is a list of prefixes, and a board that never converts.
use thermostat.Prelude.{
  ℕ, zero, suc, ◌-◌, ◌≡◌, refl, Bool, true, false, not, Option, none, some, List, [], ◌∷◌, ◌++◌,
  ltb, leb, if◌then◌else◌, length, min, take, ok, inr, arith,
}
use mathlib.Core.Path.{subst}
use mathlib.Core.Option.{some-injective}
use thermostat.Tests.Model.Numbers.{fixed}
use thermostat.Handler.SendLine.{TcpSocket}
use thermostat.Server.{Tcp, Interface, IpCidr}
use thermostat.Main.Lines.{Receives}
use thermostat.Main.Reset.{Closes}
use thermostat.Main.Sessions.{Hands}
use thermostat.Main.Address.{PrefixPanics}

pub record Plug : Type 0 where
  pub plugged : Bool
  pub rx : List ℕ
  pub tx : List ℕ

abbrev pub unplugged : Plug
unplugged = record { plugged = false; rx = []; tx = [] }

abbrev drop : ℕ → List ℕ → List ℕ
drop zero l = l
drop (suc n) [] = []
drop (suc n) (c ∷ l) = drop n l

abbrev fitting : Plug → List ℕ → ℕ
fitting s bytes = min (length bytes) (2048 - length s.tx)

instance abbrev pub plugs : TcpSocket
plugs = record {
  Socket = Plug;
  send_capacity = λ s. 2048;
  send_queue = λ s. length s.tx;
  send_slice =
      λ s bytes. (some (fitting s bytes), record s { tx = s.tx ++ take (fitting s bytes) bytes });
}

abbrev receive : {A : Type 0} → Plug → (List ℕ → ℕ × A) → Option A × Plug
receive s f = let (n, a) = f s.rx in (some a, record s { rx = drop n s.rx })

instance abbrev pub tcp : Tcp
tcp = record {
  new_socket = unplugged;
  is_active = λ s. s.plugged;
  may_send = λ s. s.plugged;
  may_recv = λ s. s.plugged;
  can_send = λ s. s.plugged;
  can_recv = λ s. ltb 0 (length s.rx);
  listen = λ s port. s;
  close = λ s. record s { plugged = false };
  abort = λ s. record s { plugged = false };
  recv = receive;
}

instance abbrev pub lan : Interface
lan = record {
  Net = List (IpCidr ℕ);
  Cidr = ℕ;
  cidr = λ address len. if leb len 32 then some len else none;
  poll = λ net s now. (ok tt, net, s);
  update_ip_addrs = λ f net. f net;
  remove_default_route = λ net. net;
  add_default_ipv4_route = λ g net. some net;
}

pub lan-PrefixPanics : PrefixPanics
lan-PrefixPanics address len long = ground arith

abbrev pub tcp-Receives : Receives
tcp-Receives = record {
  received = λ s. some s.rx;
  dequeue = λ s n. record s { rx = drop n s.rx };
  recv_lem = λ A s f bs e.
      subst (λ l. receive s f ≡ (some (f l).1, record s { rx = drop (f l).0 s.rx }))
        (some-injective _ _ e) refl;
}

pub tcp-Hands : Hands
tcp-Hands A s f = inr (s.rx, refl)

closed_inactive : (s : Plug) → not s.plugged ≡ true → s.plugged ≡ false
closed_inactive s e = ground arith

pub tcp-Closes : Closes
tcp-Closes = record {
  is_closed = λ s. not s.plugged;
  inactive = closed_inactive;
  abort_lem = λ s. refl;
  poll_lem = λ net s now. (λ e. e, λ e. e, λ e. e, λ e. e);
}
