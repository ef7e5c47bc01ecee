-- ===== src/Tests/Loop.antt =====
-- The main loop on a client's lines, and its end by a reset.
use thermostat.Prelude.{
  ℕ, ◌+◌, ◌≡◌, refl, true, none, some, List, [], ◌∷◌, ◌++◌, arith, length, bytes,
}
use thermostat.Command.{Command, Ipv4Config}
use thermostat.Nom.Documented.{documented, documented-IsDocumented}
use thermostat.Parse.Syntax
use thermostat.Parse.Syntax.Meaning.{meaning}
use thermostat.Parse.Syntax.{Line, print}
use thermostat.Parse.Words.{Side}
use thermostat.Session.{Session, from_result, is_enter, new_session, new_reader}
use thermostat.Session.Refine.{IsValid, content, new_reader-IsValid}
use thermostat.Session.Feed.{IsPlain}
use thermostat.Channels.{new_channel}
use thermostat.ChannelState.{new_state}
use thermostat.Server.{◌>>=◌}
use thermostat.Server.Each.{Returns}
use thermostat.Main.{Loop, Context, serve, on_input, run, sys_reset, run_command, iterate}
use thermostat.Main.Lines.{serve_line}
use thermostat.Main.Reset.{run_resets, Keeps}
use thermostat.Main.Dfu.{two_starts, word_after, dfu_boots}
use thermostat.Dfu.{bootloader, firmware}
use thermostat.Main.Sessions.{iterate-AllValid, ValidNext}
use thermostat.Tests.Model.Numbers.{fixed}
use thermostat.Tests.Model.Devices.{rev_2_2}
use thermostat.Tests.Model.Text.{whole}
use thermostat.Tests.Model.Net.{Plug, plugs, tcp, lan, tcp-Receives, tcp-Hands, tcp-Closes}
use thermostat.Tests.Model.Quiet.{quiet, flash, plain, context, resetting, IsFine, quiet-sense}

-- A line and the start of the next one.
abbrev engage : Line
engage = Syntax.output_pid 0 Side.second 1

abbrev client : Plug
client = record { plugged = true; rx = print engage ++ 10 ∷ bytes "pid"; tx = [] }

engage-IsPlain : IsPlain (print engage)
unfolding is_enter print
engage-IsPlain = (
  refl,
  (
    refl,
    (refl, (refl, (refl, (refl, (refl, (refl, (refl, (refl, (refl, (refl, (refl, tt))))))))))),
  ),
)

serve_line_example :
    (session' : Session) × IsValid session'.reader
    × (content session'.reader ≡ [])
    × (serve rev_2_2 client new_session context ≡ (
        on_input rev_2_2
          (from_result (meaning engage))
          (tcp-Receives.dequeue client (length (print engage) + 1))
          context
        >>= λ r. some (r.0, session', r.1)))
unfolding print is_enter new_session new_reader
serve_line_example =
    serve_line rev_2_2 documented-IsDocumented tcp-Receives client new_session context engage 10
      (bytes "pid") tt engage-IsPlain (omega arith) refl (refl, refl, refl) refl new_reader-IsValid
      refl

abbrev times : List (ℕ × ℕ)
times = (2, 2) ∷ (4, 4) ∷ (6, 6) ∷ (8, 8) ∷ (10, 10) ∷ []

run_resets_example :
    (l' : Loop) × (run rev_2_2 times resetting ≡ some (sys_reset l')) × Keeps resetting l'
unfolding new_channel new_state
run_resets_example =
    run_resets tcp-Closes rev_2_2 IsFine quiet-sense times resetting refl (refl, refl) (omega arith)

abbrev too_long : Ipv4Config
too_long = record { address = 192 ∷ 168 ∷ 1 ∷ 26 ∷ []; mask_len = 33; gateway = none }

iterate-AllValid_example : Returns ValidNext (iterate rev_2_2 2 2 resetting)
unfolding new_session new_reader
iterate-AllValid_example =
    iterate-AllValid rev_2_2 tcp-Hands 2 2 resetting
      (new_reader-IsValid, new_reader-IsValid, new_reader-IsValid, new_reader-IsValid)

dfu_boots_example :
    (s' : Plug) × (c' : Context) × (run_command rev_2_2 Command.dfu client context ≡ some (s', c'))
    × (l' : Loop) × (run rev_2_2 times
          (record resetting { world = c'.world; should_reset = c'.should_reset })
        ≡ some (sys_reset l'))
    × (two_starts (word_after l'.world 0x12345678) ≡ (bootloader, firmware, 0))
unfolding new_channel new_state
dfu_boots_example =
    dfu_boots tcp-Closes rev_2_2 IsFine quiet-sense client context resetting times 0x12345678
      (refl, refl) (omega arith)
