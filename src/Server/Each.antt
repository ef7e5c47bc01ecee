-- ===== src/Server/Each.antt =====
-- What holds of every socket and session after `for_each` of `src/server.rs`.
use thermostat.Prelude.{Option, none, some}
use thermostat.Session.{Session}
use thermostat.Handler.SendLine.{TcpSocket}
use thermostat.Server.{Four, Interface, Server, for_each, ◌>>=◌}

-- Of what a computation returns, if it does.
abbrev pub Returns : {A : Type 0} → (A → Type 0) → Option A → Type 0
Returns P none = Unit
Returns P (some a) = P a

pub Returns->>= :
    {A B : Type 0} (P : A → Type 0) (Q : B → Type 0) (m : Option A) (f : A → Option B)
    → Returns P m
    → ((a : A) → P a → Returns Q (f a))
    → Returns Q (m >>= f)
Returns->>= P Q none f h k = tt
Returns->>= P Q (some a) f h k = k a h

module _ ⦃t : TcpSocket⦄ where
  -- Of each socket with its session.
  abbrev pub Each : (t.Socket → Session → Type 0) → Four t.Socket → Four Session → Type 0
  Each P a b = P a.at0 b.at0 × P a.at1 b.at1 × P a.at2 b.at2 × P a.at3 b.at3

  module _ ⦃i : Interface⦄ {C : Type 0}
      (f : t.Socket → Session → C → Option (t.Socket × Session × C)) (I : C → Type 0)
      (P Q : t.Socket → Session → Type 0)
      (step : (a : t.Socket) (b : Session) (c : C)
        → P a b
        → I c
        → Returns (λ r. Q r.0 r.1 × I r.2) (f a b c)) where
    abbrev Kept : t.Socket × Session × C → Type 0
    Kept r = Q r.0 r.1 × I r.2

    abbrev pub AllKept : Server × C → Type 0
    AllKept r = Each Q r.0.sockets r.0.states × I r.1

    -- A callback that takes each socket from `P` to `Q` and keeps `I` of what it captures takes all
    -- four, if it returns.
    pub for_each-Returns :
        (s : Server) (c : C) → Each P s.sockets s.states → I c → Returns AllKept (for_each f s c)
    unfolding for_each
    for_each-Returns s c (p0, p1, p2, p3) h =
        Returns->>= Kept AllKept _ _ (step s.sockets.at0 s.states.at0 c p0 h) λ r0 k0.
          Returns->>= Kept AllKept _ _ (step s.sockets.at1 s.states.at1 r0.2 p1 k0.1) λ r1 k1.
            Returns->>= Kept AllKept _ _ (step s.sockets.at2 s.states.at2 r1.2 p2 k1.1) λ r2 k2.
              Returns->>= Kept AllKept _ _ (step s.sockets.at3 s.states.at3 r2.2 p3 k2.1)
                λ r3 k3. ((k0.0, k1.0, k2.0, k3.0), k3.1)
