-- ===== src/Lib.antt =====
-- Verification of the firmware of a two-channel thermostat: a microcontroller that reads two
-- thermistors through an AD7172 converter, drives two thermoelectric coolers (TECs) through AD5680
-- converters, PWM limits and shutdown pins, and takes commands over TCP.
--
-- The program's parts, and the file that models each:
--
-- - `src/session.rs`, lines of commands out of the bytes of a socket: Session.antt, over a parser
--   of lines as a parameter. The reader's array is a list of 64 bytes and its position.
-- - `src/ad7172/checksum.rs`, the checksums of the ADC's bus: Ad7172/Checksum.antt. A byte is a
--   natural number below 256, shifts to the left are written with `% 256`.
-- - `src/ad7172/mod.rs` and `src/ad7172/adc.rs`, filters and the conversion of data:
--   Ad7172/Filter.antt; the codes and texts of modes, inputs, reference sources and filter orders:
--   Ad7172/Codes.antt.
-- - `src/ad7172/regs.rs`, registers and their fields: Ad7172/Regs.antt, and those that the driver
--   does not use: Ad7172/Regs/Fields.antt.
-- - `src/ad7172/adc.rs`, the transfers and retries (`transfer`, `read_reg`, `write_reg`,
--   `update_reg`): Ad7172/Bus.antt; the operations of `Adc`: Ad7172/Adc.antt.
--   Channels/Converter.antt builds the board of `Channels` from them.
-- - `src/ad5680.rs`, the frame of a DAC value: Dac.antt; `new`, `write` and `set` with the line
--   SYNC: Dac/Driver.antt, where the bus is the parameter `Bus`. Channels/Output.antt uses the
--   frame, and takes the transfer of it from `Board`.
-- - `src/pid.rs`, the controller: Pid.antt. `update` returns an option, where `none` is the panic
--   of `f64::clamp`.
-- - `src/b_parameter.rs` and `src/channel_state.rs`, the state of a channel from a reading to a PID
--   output: ChannelState.antt.
-- - `src/channel.rs` and `src/channels.rs`, both channels with their outputs: Channels.antt, with
--   Channels/Output.antt (`set_i`, limits, polarity, power), Channels/Sense.antt (`adc_read` and
--   the measured currents and voltages), Channels/Calibrate.antt (`calibrate_dac_value`),
--   Channels/Control.antt (`poll_adc`) and Channels/Start.antt (`Channels::new`). A method of
--   `Channels` is a function of the state into an option of a result and a state, and `none` is a
--   panic. What was last written to a DAC, a PWM or a shutdown pin is a field of the state. What an
--   output should carry is written down apart from the code: Channels/Limits/Current.antt (the DAC),
--   Channels/Limits/Pins.antt (the limit pins) and Pid/Recurrence.antt (the law of the PID).
-- - `src/config.rs`, the stored configuration of a channel: Config.antt.
-- - `src/command_parser.rs`, the types of commands: Command.antt; the parsers: Parse.antt (blanks,
--   numbers), Parse/Channel.antt and Parse/System.antt (the commands), Parse/Line.antt
--   (`Command::parse`). Nom.antt has the combinators of `nom` that they call, and
--   Nom/Documented.antt what `nom` documents of them. Parse/Syntax.antt is the language of the
--   lines, and Parse/Syntax/Meaning.antt what each stands for, written down apart from the parser.
-- - `src/command_handler.rs`, the handlers of all commands: Handler.antt and Handler/Commands.antt,
--   with `handle_command` in Handler/Commands/Dispatch.antt. The replies are a list in the order
--   sent; what `send_line` makes of one is in Handler/SendLine.antt.
-- - `src/server.rs`, and `split_ipv4_config` of `src/net.rs`: Server.antt. Each of the four sockets
--   is kept beside its session.
-- - `src/pins.rs` and `src/leds.rs`, the set-up of the pins: Pins.antt with Pins/Gpio.antt, and
--   Leds.antt. A pin is its port, its number and its mode; an output's mode has its level.
-- - `src/main.rs` before its loop, with `run` of `src/net.rs` and `store` of `src/flash_store.rs`:
--   Main/Start.antt and FlashStore.antt; `none` is a panic. `FlashBackend` on the flash, which is
--   the parameter `Flash`: FlashStore/Backend.antt.
-- - `src/timer.rs`: Timer.antt, over how many interrupts had come at each pass of a loop.
-- - the pending flag of `src/net.rs` and the wait for interrupts: Net.antt, where the loop and the
--   interrupts are interleaved events. A poll sees all frames that have arrived.
-- - `src/dfu.rs`, the word that a reset keeps: Dfu.antt, joined to the loop in Main/Dfu.antt.
-- - `src/main.rs`, the loop: Main.antt. A turn (`iterate`) takes the two times that it reads, and
--   gives the loop's locals after it or the reset of the processor; `none` is a panic. The replies
--   of a command are handed to its socket after the handler, which does not look at the socket.
-- - `src/fan_ctrl.rs` and `src/hw_rev.rs`, the fan and the hardware that has one: Fan.antt,
--   HwRev.antt.
-- - the `reports_json` family of `src/channels.rs`: Report.antt, whose records are what is
--   serialised.
--
-- The parts meet as in the program: the handler calls Channels, Config and Fan; Channels calls
-- ChannelState, the DAC's frames and the converter; ChannelState calls Pid. The loop polls
-- Channels, feeds the bytes of each socket to its Session, which calls the parser, and hands the
-- command to the handler.
--
-- What the firmware takes from outside is a parameter. `Platform` (Platform.antt) has the floating
-- point numbers of Rust, with the laws that are used in Platform/Laws.antt. `Board` (Channels.antt)
-- has the devices on the buses, `Spi` (Ad7172/Bus.antt) the SPI bus of the converter, `BitField`
-- (Ad7172/Regs.antt) the crate `bit_field`, `TcpSocket` (Handler/SendLine.antt) a socket, `Tcp` and
-- `Interface` (Server.antt) the rest of smoltcp, `Nom` and `FloatText` (Parse.antt) the crates
-- `nom` and `num_traits`, `Texts` (Main.antt) the texts of replies, `Host` (Handler.antt) the flash
-- store and whether a report fits its buffer, `Saved` with `Sfkv` (Main/Start.antt,
-- FlashStore.antt) what the start asks of that store, and `Ethernet` the builder of the interface.
-- `Peripherals` (Pins.antt) is what the microcontroller has before the set-up. Their hypotheses
-- (`IsLawful`, `BusWorks`, `FilterWorks`, `FilterKeeps`, `FlashWorks`, `FieldLaws`, `ChannelFields`, `Works`,
-- `Keeps`, `IsBuffer`, `IsDocumented`, `Receives`, `Hands`, `Closes`, `PrefixPanics`, `KeepsIpv4`)
-- are met by the concrete platform, board, sockets and store of Tests/Model, on which the theorems
-- are run in Tests.
--
-- The retries of the converter's driver, which may go on for ever, run on fuel and give `starved`
-- when it is out; on a converter that keeps its registers, fuel for one try is enough. The other
-- loops run over a buffer, a count or a fixed table, and are recursion on it. `sleep` runs on fuel,
-- where fuel for the first pass that is late enough is enough. Times are milliseconds, as natural
-- numbers; those of `src/timer.rs` wrap around at 32 bits.
--
-- Not modelled: the set-up of clocks, caches, the Ethernet driver and USB, which are accesses to
-- peripherals; the logger over USB; the text of errors, which is only logged, and that of JSON,
-- which `serde` makes; the waits of the calibration for its outputs to settle.
pub mod Prelude
pub mod Nom
pub mod Parse
pub mod Session
pub mod Ad7172
pub mod Platform
pub mod Leds
pub mod Timer
pub mod Dfu
pub mod Net
pub mod Pins
pub mod FlashStore
pub mod Command
pub mod HwRev
pub mod Fan
pub mod Config
pub mod Report
pub mod Handler
pub mod Pid
pub mod Dac
pub mod Channels
pub mod ChannelState
pub mod Server
pub mod Main
pub mod Tests
