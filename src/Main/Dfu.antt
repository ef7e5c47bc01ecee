-- ===== src/Main/Dfu.antt =====
-- The way from the command `dfu` to the boot loader.
use thermostat.Prelude.{ℕ, ◌<◌, ◌≡◌, refl, true, false, some, List, [], if◌then◌else◌, length}
use thermostat.Platform.{Platform}
use thermostat.Command.{Command}
use thermostat.HwRev.{HwRev}
use thermostat.Nom.{Nom}
use thermostat.Parse.{FloatText}
use thermostat.Channels.{Board, Channels}
use thermostat.Dfu.{set_dfu_trigger, Program, bootloader, firmware, pre_init}
use thermostat.Handler.{Host, World}
use thermostat.Handler.SendLine.{TcpSocket}
use thermostat.Server.{Tcp, Interface}
use thermostat.Main.{Texts, Context, Loop, run, run_command, after, sys_reset, sense}
use thermostat.Handler.Commands.Effects.{reset_powers_down}
use thermostat.Main.Reset.{Closes, run_resets}

module _ ⦃p : Platform⦄ ⦃b : Board⦄ ⦃h : Host⦄ where
  -- The word that a run of the program leaves, where it was `word` before.
  abbrev pub word_after : World → ℕ → ℕ
  word_after w word = if w.dfu_trigger then set_dfu_trigger word else word

module _ ⦃p : Platform⦄ ⦃b : Board⦄ where
  -- Both channels switched off.
  abbrev pub powered_down : Channels → Channels
  powered_down s = record s {
    channel0 = record (s.channel0) { shdn = false };
    channel1 = record (s.channel1) { shdn = false };
  }

-- The programs of the next two starts, and the word after them.
abbrev pub two_starts : ℕ → Program × Program × ℕ
two_starts word =
    let (first, word₁) = pre_init word in
    let (second, word₂) = pre_init word₁ in (first, second, word₂)

two_starts_dfu : (word : ℕ) → two_starts (set_dfu_trigger word) ≡ (bootloader, firmware, 0)
unfolding pre_init set_dfu_trigger
two_starts_dfu word = refl

module _ ⦃t : TcpSocket⦄ ⦃k : Tcp⦄ ⦃i : Interface⦄ (closes : Closes) ⦃p : Platform⦄ ⦃b : Board⦄
    ⦃h : Host⦄ ⦃x : Texts⦄ ⦃n : Nom⦄ ⦃f : FloatText⦄ (hwrev : HwRev) (Fine : Channels → Type 0)
    (senses : (now : ℕ) (c : Channels)
      → Fine c
      → (y : p.F64) × (c' : Channels) × (sense now c ≡ some (y, c')) × Fine c') where
  -- With sockets that close as smoltcp documents, and channels on which the converter's part of a
  -- turn always returns: the command `dfu` is handled, the loop with what it leaves resets the
  -- processor within five turns, the start after that enters the boot loader, and the next one
  -- the firmware again.
  pub dfu_boots :
      (s : t.Socket) (c : Context) (l : Loop) (ts : List (ℕ × ℕ)) (word : ℕ)
      → Fine (powered_down c.world.channels)
      → 4 < length ts
      → (s' : t.Socket) × (c' : Context) × (run_command hwrev Command.dfu s c ≡ some (s', c'))
        × (l' : Loop) × (run hwrev ts
              (record l { world = c'.world; should_reset = c'.should_reset })
            ≡ some (sys_reset l'))
        × (two_starts (word_after l'.world word) ≡ (bootloader, firmware, 0))
  unfolding run_command after
  dfu_boots s c l ts word fine room =
      let w = record (c.world) {
        channels = powered_down c.world.channels;
        dfu_trigger = true;
        sent = [];
      } in
      let c' = record c { world = w; should_reset = true } in
      let l₀ = record l { world = w; should_reset = true } in
      let handled = (reset_powers_down hwrev (record (c.world) { sent = [] })).1 in
      let (l', resets, (_, _, trigger)) =
        run_resets closes hwrev Fine senses ts l₀ refl fine room in
      (s, c', rw handled refl, l', resets, rw trigger (two_starts_dfu word))
