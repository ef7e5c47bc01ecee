-- ===== src/Main/Sessions.antt =====
-- The line readers stay valid through the loop of `src/main.rs`.
use thermostat.Prelude.{
  ℕ, ◌+◌, ◌≡◌, ◌⊎◌, refl, Bool, true, false, not, ◌&&◌, Option, none, some, List, [], ◌∷◌, Result,
  inl, inr, Bool-cases,
}
use thermostat.Platform.{Platform}
use thermostat.Command.{Command, Ipv4Config}
use thermostat.HwRev.{HwRev}
use thermostat.Channels.{Board}
use thermostat.Nom.{Nom}
use thermostat.Parse
use thermostat.Parse.{FloatText}
use thermostat.Parse.Line.{parse}
use thermostat.Session.{LineReader, Session, SessionInput, feed_byte, feed_from, feed, reset}
use thermostat.Session.Refine.{IsValid, new_reader-IsValid, feed_byte-IsValid}
use thermostat.Handler.{Host}
use thermostat.Handler.SendLine.{TcpSocket}
use thermostat.Server.{
  Four, Tcp, Interface, Server, poll, set_ipv4_config, set_ipv4_address, set_gateway,
  split_ipv4_config, ◌>>=◌,
}
use thermostat.Server.Each.{Returns, Returns->>=, for_each-Returns}
use thermostat.Main.{
  Texts, Context, Loop, Next, again, sys_reset, on_received, on_input, feed_session, serve, shut,
  sense, sensed, apply_ipv4, wait, serve_all, shut_all, iterate, context,
}

Option-cases : {A : Type 0} (o : Option A) → (o ≡ none) ⊎ ((a : A) × (o ≡ some a))
Option-cases none = inl refl
Option-cases (some a) = inr (a, refl)

module _ {C E : Type 0} (parse : List ℕ → Result C E) where
  feed_from-IsValid :
      (r : LineReader) (i : ℕ) (bs : List ℕ) → IsValid r → IsValid (feed_from parse r i bs).2
  unfolding feed_from
  feed_from-IsValid r i [] v = v
  feed_from-IsValid r i (b ∷ bs) v = elim (Option-cases (feed_byte r b).0) [
    | inl e ↦
        rw (e, feed_from) (feed_from-IsValid (feed_byte r b).1 (i + 1) bs (feed_byte-IsValid r b v))
    | inr (l, e) ↦ rw (e, feed_from) (feed_byte-IsValid r b v)
  ]

-- What smoltcp documents of `recv`: unless it fails, it gives what the function made of some bytes.
abbrev pub Hands : ⦃t : TcpSocket⦄ → ⦃k : Tcp⦄ → Type 1
Hands ⦃t⦄ ⦃k⦄ =
    (A : Type 0) (s : t.Socket) (f : List ℕ → ℕ × A)
    → ((k.recv s f).0 ≡ none) ⊎ ((bs : List ℕ) × ((k.recv s f).0 ≡ some (f bs).1))

any : {A : Type 0} (m : Option A) → Returns (λ _. Unit {0}) m
any none = tt
any (some a) = tt

module _ ⦃p : Platform⦄ ⦃b : Board⦄ ⦃h : Host⦄ ⦃t : TcpSocket⦄ ⦃k : Tcp⦄ ⦃i : Interface⦄ where
  abbrev pub AllValid : Four Session → Type 0
  AllValid f =
      IsValid f.at0.reader × IsValid f.at1.reader × IsValid f.at2.reader × IsValid f.at3.reader

  -- Of the loop after a turn, or where the processor is reset.
  abbrev pub ValidNext : Next → Type 0
  ValidNext (again l) = AllValid l.server.states
  ValidNext (sys_reset l) = AllValid l.server.states

module _ ⦃p : Platform⦄ ⦃b : Board⦄ ⦃h : Host⦄ ⦃t : TcpSocket⦄ ⦃k : Tcp⦄ ⦃i : Interface⦄ ⦃x : Texts⦄
    ⦃n : Nom⦄ ⦃f : FloatText⦄ (hwrev : HwRev) (hands : Hands) where
  abbrev Valid : t.Socket → Session → Type 0
  Valid s session = IsValid session.reader

  abbrev ValidThen : {C : Type 0} → t.Socket × Session × C → Type 0
  ValidThen r = Valid r.0 r.1 × Unit {0}

  feed_session-IsValid :
      (session : Session) (bs : List ℕ)
      → IsValid session.reader
      → IsValid (feed_session session bs).1.1.reader
  unfolding feed_session feed
  feed_session-IsValid session bs v = feed_from-IsValid parse session.reader 0 bs v

  received-IsValid :
      (input : SessionInput Command Parse.Error) (session' : Session) (s : t.Socket)
      (session : Session) (c : Context)
      → IsValid session'.reader
      → Returns ValidThen (on_received hwrev (some (input, session'), s) session c)
  unfolding on_received
  received-IsValid input session' s session c v = elim (Option-cases (on_input hwrev input s c)) [
    | inl e ↦ rw e tt
    | inr (r, e) ↦ rw e (v, tt)
  ]

  serve-IsValid :
      (s : t.Socket) (session : Session) (c : Context)
      → Valid s session
      → Unit {0}
      → Returns ValidThen (serve hwrev s session c)
  unfolding serve on_received reset
  serve-IsValid s session c v u = elim (Bool-cases (k.is_active s)) [
    | inr e ↦ rw e (new_reader-IsValid, tt)
    | inl e ↦ elim (Bool-cases (k.may_send s && not (k.may_recv s))) [
      | inl e' ↦ rw (e, e') (v, tt)
      | inr e' ↦ elim (Bool-cases (k.can_send s && k.can_recv s)) [
        | inr e'' ↦ rw (e, e', e'') (v, tt)
        | inl e'' ↦ elim (hands _ s (feed_session session)) [
          | inl none_read ↦ rw (e, e', e'') (rw none_read (v, tt))
          | inr (bs, read) ↦
              rw (e, e', e'')
                (rw read (received-IsValid _ _ _ session c (feed_session-IsValid session bs v)))
        ]
      ]
    ]
  ]

  shut-IsValid :
      (s : t.Socket) (session : Session) (alive : Bool)
      → Valid s session
      → Unit {0}
      → Returns ValidThen (shut s session alive)
  unfolding shut
  shut-IsValid s session alive v u = elim (Bool-cases (k.is_active s)) [
    | inl e ↦ rw e (v, tt)
    | inr e ↦ rw e (v, tt)
  ]

  set_gateway-AllValid :
      (g : Option (List ℕ)) (s : Server)
      → AllValid s.states
      → Returns (λ s'. AllValid s'.states) (set_gateway g s)
  unfolding set_gateway
  set_gateway-AllValid none s v = v
  set_gateway-AllValid (some g) s v = elim (Option-cases (i.add_default_ipv4_route g s.net)) [
    | inl e ↦ rw e tt
    | inr (net, e) ↦ rw e v
  ]

  set_ipv4_config-AllValid :
      (config : Ipv4Config) (s : Server)
      → AllValid s.states
      → Returns (λ s'. AllValid s'.states) (set_ipv4_config config s)
  unfolding set_ipv4_config set_ipv4_address split_ipv4_config
  set_ipv4_config-AllValid config s v =
      elim (Option-cases (i.cidr config.address config.mask_len)) [
        | inl e ↦ rw e tt
        | inr (c, e) ↦ rw e (set_gateway-AllValid config.gateway (set_ipv4_address c s) v)
      ]

  apply_ipv4-AllValid :
      (config : Option Ipv4Config) (l : Loop)
      → AllValid l.server.states
      → Returns (λ l'. AllValid l'.server.states) (apply_ipv4 config l)
  unfolding apply_ipv4
  apply_ipv4-AllValid none l v = v
  apply_ipv4-AllValid (some config) l v =
      Returns->>= (λ (s : Server). AllValid s.states) (λ (l' : Loop). AllValid l'.server.states) _ _
        (set_ipv4_config-AllValid config l.server v) λ s v'. v'

  finish-IsValid :
      (config : Option Ipv4Config) (l : Loop)
      → AllValid l.server.states
      → Returns ValidNext (apply_ipv4 config l >>= λ l'. some (wait l'))
  unfolding wait
  finish-IsValid config l v =
      Returns->>= (λ (l' : Loop). AllValid l'.server.states) ValidNext (apply_ipv4 config l)
        (λ l'. some (wait l')) (apply_ipv4-AllValid config l v) λ l' v'. v'

  serve_all-IsValid : (l : Loop) → AllValid l.server.states → Returns ValidNext (serve_all hwrev l)
  unfolding serve_all wait
  serve_all-IsValid l v =
      Returns->>= (λ (r : Server × Context). AllValid r.0.states × Unit {0}) ValidNext _ _
        (for_each-Returns (serve hwrev) (λ _. Unit {0}) Valid Valid serve-IsValid l.server
          (context l) v tt)
        λ r (v', u).
          finish-IsValid r.1.new_ipv4_config
            (record l { world = r.1.world; server = r.0; should_reset = r.1.should_reset }) v'

  shut_all-IsValid : (l : Loop) → AllValid l.server.states → Returns ValidNext (shut_all l)
  unfolding shut_all wait
  shut_all-IsValid l v =
      Returns->>= (λ (r : Server × Bool). AllValid r.0.states × Unit {0}) ValidNext _ _
        (for_each-Returns shut (λ _. Unit {0}) Valid Valid shut-IsValid l.server false v tt)
        λ r (v', u). elim (Bool-cases r.1) [ inl e ↦ rw e v' | inr e ↦ rw e v' ]

  -- With a `recv` that gives what its function made of some bytes: whatever arrives on the sockets,
  -- a turn of the loop that returns leaves the line reader of every session valid if all were.
  pub iterate-AllValid :
      (t₁ t₂ : ℕ) (l : Loop) → AllValid l.server.states → Returns ValidNext (iterate hwrev t₁ t₂ l)
  unfolding iterate sensed poll shut_all serve_all
  iterate-AllValid t₁ t₂ l v = elim (Option-cases (sense t₁ l.world.channels)) [
    | inl e ↦ rw e tt
    | inr (r, e) ↦
        let l₁ = sensed r.0 r.1 l in
        let l₂ = record l₁ { server = (poll l₁.server t₂).1 } in
        elim (Bool-cases l.should_reset) [
          | inl on ↦ rw (e, on) (shut_all-IsValid (record l₂ { should_reset = true }) v)
          | inr off ↦ rw (e, off) (serve_all-IsValid (record l₂ { should_reset = false }) v)
        ]
  ]
