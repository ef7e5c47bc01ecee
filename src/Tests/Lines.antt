-- ===== src/Tests/Lines.antt =====
-- The session, the CRC and the frame of the DAC at concrete inputs.
use thermostat.Prelude.{map, true, ℕ, ◌+◌, ◌≡◌, refl, List, [], ◌∷◌, ◌++◌, arith, Result, ok, take}
use thermostat.Session.{
  command, feed, new_session, new_reader, feed_byte, is_enter, from_result, feed_from, max_line_len,
}
use thermostat.Session.Refine.{IsValid, content, spec, new_reader-IsValid, feed_byte-refines}
use thermostat.Session.Feed.{feed_line, feed_split, IsPlain}
use thermostat.Ad7172.Checksum.Laws.{crc_over, crc_residue}
use thermostat.Handler.SendLine.{send_line, outcome, send_line_lem}
use thermostat.Tests.Model.Wire.{wire, wire-IsBuffer}
use thermostat.Dac.Driver
use thermostat.Dac.Driver.{received, cut, set_all, set_all_received}

-- A parser that accepts every line as itself.
abbrev echo : List ℕ → Result (List ℕ) ℕ
echo l = ok l

abbrev quit : List ℕ
quit = b'q' ∷ b'u' ∷ b'i' ∷ b't' ∷ []

quit-IsPlain : IsPlain quit
unfolding is_enter
quit-IsPlain = (refl, (refl, (refl, (refl, tt))))

feed_byte-refines_example :
    ((feed_byte new_reader 13).0 ≡ (spec (content new_reader) 13).0)
    × (content (feed_byte new_reader 13).1 ≡ (spec (content new_reader) 13).1)
feed_byte-refines_example = feed_byte-refines new_reader 13 new_reader-IsValid

session-IsValid : IsValid new_session.reader
unfolding new_session
session-IsValid = new_reader-IsValid

feed_line_example :
    let (n, input, s') = feed echo new_session (quit ++ 10 ∷ 13 ∷ []) in
    (n ≡ 5)
    × (input ≡ from_result (echo (take max_line_len (content new_session.reader ++ quit))))
    × (content s'.reader ≡ [])
    × IsValid s'.reader
unfolding is_enter new_session new_reader
feed_line_example =
    feed_line echo new_session quit (13 ∷ []) 10 session-IsValid quit-IsPlain refl (omega arith)

feed_split_example :
    let (k, _, s₁) = feed echo new_session quit in
    let (n, input, s₂) = feed echo s₁ (10 ∷ []) in
    feed echo new_session (quit ++ 10 ∷ []) ≡ (k + n, input, s₂)
feed_split_example = feed_split echo new_session quit (10 ∷ []) session-IsValid quit-IsPlain

line_run : (feed echo new_session (quit ++ 10 ∷ 13 ∷ [])).1 ≡ command quit
unfolding feed new_session new_reader feed_from feed_byte is_enter
line_run = refl

crc_run : crc_over 0 (0x31 ∷ 0x32 ∷ 0x33 ∷ []) ≡ 0xc0
unfolding crc_over
crc_run = refl

crc_residue_example : crc_over 0 (0x47 ∷ 0xd0 ∷ crc_over 0 (0x47 ∷ 0xd0 ∷ []) ∷ []) ≡ 0
crc_residue_example = crc_residue 0 (0x47 ∷ 0xd0 ∷ []) (omega arith)

-- A bus that keeps nothing.
instance abbrev open_bus : Driver.Bus
open_bus = record { Dev = Unit; transfer = λ buf dev. (true, dev) }

set_all_received_example :
    received (set_all (0x50000 ∷ 3 ∷ []) (Driver.new tt)).signals
    ≡ (Driver.low, map cut (0x50000 ∷ 3 ∷ []))
set_all_received_example = set_all_received (λ buf dev. refl) (0x50000 ∷ 3 ∷ []) tt

send_line_lem_example :
    ((send_line (1 ∷ []) quit).0 ≡ (outcome 3 quit).0)
    × ((send_line (1 ∷ []) quit).1 ≡ (1 ∷ []) ++ (outcome 3 quit).1)
send_line_lem_example = send_line_lem wire-IsBuffer (1 ∷ []) quit tt
