-- ===== src/Main/Reset.antt =====
-- How the loop of `src/main.rs` ends after a command to reset.
use thermostat.Prelude.{
  ℕ, suc, ◌+◌, ◌≤◌, ◌<◌, ◌≡◌, refl, Bool, true, false, ◌||◌, some, List, [], ◌∷◌, arith, length,
  if◌then◌else◌, Bool-cases, inl, inr,
}
use thermostat.Platform.{Platform}
use thermostat.HwRev.{HwRev}
use thermostat.Channels.{Board, Channels}
use thermostat.Nom.{Nom}
use thermostat.Parse.{FloatText}
use thermostat.Session.{Session}
use thermostat.Handler.{Host}
use thermostat.Handler.SendLine.{TcpSocket}
use thermostat.Server.{Four, Tcp, Interface, Server, for_each, poll}
use thermostat.Main.{Texts, Loop, sys_reset, shut, shut_all, sense, sensed, wait, iterate, run}

-- What smoltcp documents of closed sockets: they are not active, `abort` closes, and a closed socket
-- stays closed until it is told to listen or to connect.
pub record Closes ⦃t : TcpSocket⦄ ⦃k : Tcp⦄ ⦃i : Interface⦄ : Type 1 where
  pub is_closed : t.Socket → Bool
  pub inactive : (s : t.Socket) → is_closed s ≡ true → k.is_active s ≡ false
  pub abort_lem : (s : t.Socket) → is_closed (k.abort s) ≡ true
  pub poll_lem :
      (net : i.Net) (s : Four t.Socket) (now : ℕ)
      → let s' = (i.poll net s now).2 in
        (is_closed s.at0 ≡ true → is_closed s'.at0 ≡ true)
        × (is_closed s.at1 ≡ true → is_closed s'.at1 ≡ true)
        × (is_closed s.at2 ≡ true → is_closed s'.at2 ≡ true)
        × (is_closed s.at3 ≡ true → is_closed s'.at3 ≡ true)

module _ ⦃p : Platform⦄ ⦃b : Board⦄ ⦃h : Host⦄ ⦃t : TcpSocket⦄ ⦃k : Tcp⦄ ⦃i : Interface⦄ where
  -- What a reset leaves of the world but the channels and the fan, and of the switch.
  abbrev pub Keeps : Loop → Loop → Type 0
  Keeps l l' =
      (l'.world.store ≡ l.world.store)
      × (l'.world.ipv4_config ≡ l.world.ipv4_config)
      × (l'.world.dfu_trigger ≡ l.world.dfu_trigger)

module _ ⦃t : TcpSocket⦄ ⦃k : Tcp⦄ where
  shut_one : t.Socket → t.Socket
  shut_one s = if k.is_active s then k.abort s else s

  shut_lem :
      (s : t.Socket) (b : Session) (alive : Bool)
      → shut s b alive ≡ some (shut_one s, b, k.is_active s || alive)
  unfolding shut shut_one
  shut_lem s b alive = elim (Bool-cases (k.is_active s)) [ inl e ↦ rw e refl | inr e ↦ rw e refl ]

module _ ⦃t : TcpSocket⦄ ⦃k : Tcp⦄ ⦃i : Interface⦄ (closes : Closes) where
  -- How many of the sockets are not closed.
  weight : t.Socket → ℕ
  weight s = if closes.is_closed s then 0 else 1

  open_count : Four t.Socket → ℕ
  unfolding weight
  open_count s = weight s.at0 + weight s.at1 + weight s.at2 + weight s.at3

  active_count : t.Socket → ℕ
  active_count s = if k.is_active s then 1 else 0

  weight-shut_one : (s : t.Socket) → weight (shut_one s) + active_count s ≤ weight s
  unfolding weight shut_one active_count
  weight-shut_one s = ground (arith, closes.abort_lem s, closes.inactive s)

  shut_four : Four t.Socket → Four t.Socket
  shut_four s = record {
    at0 = shut_one s.at0;
    at1 = shut_one s.at1;
    at2 = shut_one s.at2;
    at3 = shut_one s.at3;
  }

  some_active : Four t.Socket → Bool
  some_active s =
      k.is_active s.at3
      || (k.is_active s.at2 || (k.is_active s.at1 || (k.is_active s.at0 || false)))

  for_each-shut :
      (s : Server)
      → for_each shut s false
        ≡ some (record s { sockets = shut_four s.sockets }, some_active s.sockets)
  unfolding for_each shut_four some_active
  for_each-shut s =
      rw
        (
          shut_lem s.sockets.at0 s.states.at0 false,
          shut_lem s.sockets.at1 s.states.at1 (k.is_active s.sockets.at0 || false),
          shut_lem s.sockets.at2 s.states.at2
              (k.is_active s.sockets.at1 || (k.is_active s.sockets.at0 || false)),
          shut_lem s.sockets.at3 s.states.at3 (
              k.is_active s.sockets.at2
              || (k.is_active s.sockets.at1 || (k.is_active s.sockets.at0 || false))),
        )
        refl

  -- Shutting closes one more socket if one is active.
  open_count-shut_four :
      (s : Four t.Socket) → some_active s ≡ true → open_count (shut_four s) < open_count s
  unfolding open_count shut_four some_active active_count
  open_count-shut_four s e = ground (
    arith,
    weight-shut_one s.at0,
    weight-shut_one s.at1,
    weight-shut_one s.at2,
    weight-shut_one s.at3,
  )

  weight_le :
      (a b : t.Socket)
      → (closes.is_closed a ≡ true → closes.is_closed b ≡ true)
      → weight b ≤ weight a
  unfolding weight
  weight_le a b h = ground arith

  open_count-poll :
      (net : i.Net) (s : Four t.Socket) (now : ℕ) → open_count (i.poll net s now).2 ≤ open_count s
  unfolding open_count
  open_count-poll net s now =
      let (h0, h1, h2, h3) = closes.poll_lem net s now in
      let s' = (i.poll net s now).2 in
      omega (
        arith,
        weight_le s.at0 s'.at0 h0,
        weight_le s.at1 s'.at1 h1,
        weight_le s.at2 s'.at2 h2,
        weight_le s.at3 s'.at3 h3,
      )

  open_count_le : (s : Four t.Socket) → open_count s ≤ 4
  unfolding open_count weight
  open_count_le s = ground arith

  module _ ⦃p : Platform⦄ ⦃b : Board⦄ ⦃h : Host⦄ where
    -- The loop's state after a turn in which it shuts its sockets.
    shut_loop : ℕ → p.F64 → Channels → Loop → Loop
    unfolding sensed
    shut_loop t₂ y c l =
        let s = (poll l.server t₂).1 in
        record (sensed y c l) { server = record s { sockets = shut_four s.sockets } }

    module _ ⦃x : Texts⦄ ⦃n : Nom⦄ ⦃f : FloatText⦄ (hwrev : HwRev) where
      iterate_shut :
          (t₁ t₂ : ℕ) (l : Loop) (y : p.F64) (c : Channels)
          → l.should_reset ≡ true
          → sense t₁ l.world.channels ≡ some (y, c)
          → iterate hwrev t₁ t₂ l
            ≡ some (
                if some_active (poll l.server t₂).1.sockets
                then wait (shut_loop t₂ y c l)
                else sys_reset (shut_loop t₂ y c l))
      unfolding iterate shut_all shut_loop sensed
      iterate_shut t₁ t₂ l y c on run = rw (run, on) (rw (for_each-shut (poll l.server t₂).1) refl)

      module _ (Fine : Channels → Type 0)
          (senses : (now : ℕ) (c : Channels)
            → Fine c
            → (y : p.F64) × (c' : Channels) × (sense now c ≡ some (y, c')) × Fine c') where
        abbrev Resets : List (ℕ × ℕ) → Loop → Type 0
        Resets ts l = (l' : Loop) × (run hwrev ts l ≡ some (sys_reset l')) × Keeps l l'

        resets :
            (ts : List (ℕ × ℕ)) (l : Loop)
            → l.should_reset ≡ true
            → Fine l.world.channels
            → open_count l.server.sockets < length ts
            → Resets ts l
        unfolding run shut_loop sensed wait poll
        resets [] l on fine room = absurd (omega arith)
        resets ((t₁, t₂) ∷ ts) l on fine room =
            let (y, c, senses_run, fine') = senses t₁ l.world.channels fine in
            let turn = iterate_shut t₁ t₂ l y c on senses_run in
            elim (Bool-cases (some_active (poll l.server t₂).1.sockets)) [
              | inr none_active ↦
                  (shut_loop t₂ y c l, rw (turn, none_active) refl, (refl, refl, refl))
              | inl active ↦
                  let next = record (shut_loop t₂ y c l) { fed = suc l.fed; led_g4 = true } in
                  let closed = open_count-shut_four (poll l.server t₂).1.sockets active in
                  let polled = open_count-poll l.server.net l.server.sockets t₂ in
                  let (l', reached, kept) = resets ts next on fine' (omega arith) in
                  (l', rw (turn, active) reached, kept)
            ]

        -- With sockets that close as smoltcp documents, and channels on which the converter's part of
        -- a turn always returns: once the loop is to reset, it resets the processor within five
        -- turns, whatever the network does meanwhile, and the flash, the network configuration and
        -- the DFU trigger stay as they are.
        pub run_resets :
            (ts : List (ℕ × ℕ)) (l : Loop)
            → l.should_reset ≡ true
            → Fine l.world.channels
            → 4 < length ts
            → (l' : Loop) × (run hwrev ts l ≡ some (sys_reset l')) × Keeps l l'
        run_resets ts l on fine room =
            resets ts l on fine (omega (arith, open_count_le l.server.sockets))
