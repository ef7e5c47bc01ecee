-- ===== src/Server.antt =====
-- `src/server.rs`, and `split_ipv4_config` of `src/net.rs`: four sockets of smoltcp with a session each.
pub mod Each
use thermostat.Prelude.{ℕ, Bool, Option, none, some, List, [], ◌∷◌, Result, ok, err}
use thermostat.Command.{Ipv4Config}
use thermostat.Session.{Session, new_session}
use thermostat.Handler.SendLine.{TcpSocket}

-- The four elements of an array of `SOCKET_COUNT`.
pub record Four (A : Type 0) : Type 0 where
  pub at0 : A
  pub at1 : A
  pub at2 : A
  pub at3 : A

abbrev pub four : {A : Type 0} → A → Four A
four a = record { at0 = a; at1 = a; at2 = a; at3 = a }

-- `smoltcp::Error`, as far as it is told apart.
pub data PollError : Type 0 where
  malformed unrecognized other : PollError

-- `IpCidr`; an address of another protocol is never looked at.
pub data IpCidr (A : Type 0) : Type 0 where
  ipv4 : A → IpCidr A
  foreign : IpCidr A

-- What the server asks of a TCP socket of smoltcp beside sending. `listen`, whose error is ignored,
-- gives the socket after it; `recv` hands the bytes received to a function, which says how many of
-- them it used, and gives what the function made, or no value as its error.
pub record Tcp ⦃t : TcpSocket⦄ : Type 1 where
  pub new_socket : t.Socket
  pub is_active : t.Socket → Bool
  pub may_send : t.Socket → Bool
  pub may_recv : t.Socket → Bool
  pub can_send : t.Socket → Bool
  pub can_recv : t.Socket → Bool
  pub listen : t.Socket → ℕ → t.Socket
  pub close : t.Socket → t.Socket
  pub abort : t.Socket → t.Socket
  pub recv : {A : Type 0} → t.Socket → (List ℕ → ℕ × A) → Option A × t.Socket

-- The interface of smoltcp. `cidr` is `Ipv4Cidr::new` and `add_default_ipv4_route` a call that is
-- unwrapped: `none` is a panic.
pub record Interface ⦃t : TcpSocket⦄ : Type 1 where
  pub Net : Type 0
  pub Cidr : Type 0
  pub cidr : List ℕ → ℕ → Option Cidr
  pub poll : Net → Four t.Socket → ℕ → Result (Unit {0}) PollError × Net × Four t.Socket
  pub update_ip_addrs : (List (IpCidr Cidr) → List (IpCidr Cidr)) → Net → Net
  pub remove_default_route : Net → Net
  pub add_default_ipv4_route : List ℕ → Net → Option Net

infixl 5 ◌>>=◌
abbrev pub ◌>>=◌ : {A B : Type 0} → Option A → (A → Option B) → Option B
none >>= f = none
some a >>= f = f a

-- The loop of `set_ipv4_address`: the first IPv4 address is replaced.
unfoldable pub replace_first : {A : Type 0} → A → List (IpCidr A) → List (IpCidr A)
replace_first a [] = []
replace_first a (ipv4 b ∷ rest) = ipv4 a ∷ rest
replace_first a (foreign ∷ rest) = foreign ∷ replace_first a rest

module _ ⦃t : TcpSocket⦄ where
  -- `Malformed` and `Unrecognized` are no errors to the caller.
  abbrev pub polled : Result (Unit {0}) PollError → Result (Unit {0}) PollError
  polled (ok u) = ok tt
  polled (err malformed) = ok tt
  polled (err unrecognized) = ok tt
  polled (err other) = err other

  module _ ⦃i : Interface⦄ where
    pub record Server : Type 0 where
      pub net : i.Net
      pub sockets : Four t.Socket
      pub states : Four Session

    -- The server that `Server::run` makes.
    unfoldable pub new_server : ⦃k : Tcp⦄ → i.Net → Server
    new_server ⦃k⦄ net = record {
      net = net;
      sockets = four k.new_socket;
      states = four new_session;
    }

    -- `Server::poll`
    unfoldable pub poll : Server → ℕ → Result (Unit {0}) PollError × Server
    poll s now =
        let (r, net, sockets) = i.poll s.net s.sockets now in
        (polled r, record s { net = net; sockets = sockets })

    -- `Server::for_each`, with what the callback captures passed on; `none` is a panic.
    unfoldable pub for_each :
        {C : Type 0}
        → (t.Socket → Session → C → Option (t.Socket × Session × C))
        → Server
        → C
        → Option (Server × C)
    for_each f s c = do
      (a0, b0, c0) ← f s.sockets.at0 s.states.at0 c
      (a1, b1, c1) ← f s.sockets.at1 s.states.at1 c0
      (a2, b2, c2) ← f s.sockets.at2 s.states.at2 c1
      (a3, b3, c3) ← f s.sockets.at3 s.states.at3 c2
      some (
        record s {
          sockets = record { at0 = a0; at1 = a1; at2 = a2; at3 = a3 };
          states = record { at0 = b0; at1 = b1; at2 = b2; at3 = b3 };
        },
        c3,
      )

    -- `split_ipv4_config`
    unfoldable pub split_ipv4_config : Ipv4Config → Option (i.Cidr × Option (List ℕ))
    split_ipv4_config config = do
      c ← i.cidr config.address config.mask_len
      some (c, config.gateway)

    -- `Server::set_ipv4_address`
    unfoldable pub set_ipv4_address : i.Cidr → Server → Server
    set_ipv4_address c s = record s { net = i.update_ip_addrs (replace_first c) s.net }

    -- `Server::set_gateway`
    unfoldable pub set_gateway : Option (List ℕ) → Server → Option Server
    set_gateway none s = some (record s { net = i.remove_default_route s.net })
    set_gateway (some g) s = do
      net ← i.add_default_ipv4_route g s.net
      some (record s { net = net })

    -- `Server::set_ipv4_config`
    unfoldable pub set_ipv4_config : Ipv4Config → Server → Option Server
    unfolding split_ipv4_config set_ipv4_address set_gateway
    set_ipv4_config config s = do
      (c, gateway) ← split_ipv4_config config
      set_gateway gateway (set_ipv4_address c s)
