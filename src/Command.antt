-- ===== src/Command.antt =====
-- The commands that `src/command_parser.rs` makes of a line, and the configuration types that it
-- shares with the other parts. A `usize`, `u8` or `u32` is a number.
use thermostat.Prelude.{ℕ, Option, List}
use thermostat.Platform.{Platform}

pub record Ipv4Config : Type 0 where
  pub address : List ℕ
  pub mask_len : ℕ
  pub gateway : Option (List ℕ)

pub data ShowCommand : Type 0 where
  input output pid b_parameter post_filter ipv4 : ShowCommand

pub data PidParameter : Type 0 where
  target kp ki kd output_min output_max : PidParameter

pub data BpParameter : Type 0 where
  t0 b r0 : BpParameter

pub data PwmPin : Type 0 where
  i_set max_i_pos max_i_neg max_v : PwmPin

pub data Polarity : Type 0 where
  normal reversed : Polarity

module _ ⦃p : Platform⦄ where
  open p use {F64, F32}

  pub data CenterPoint : Type 0 where
    vref : CenterPoint
    override : F32 → CenterPoint

  pub data Command : Type 0 where
    quit : Command
    load : Option ℕ → Command
    save : Option ℕ → Command
    reset : Command
    set_ipv4 : Ipv4Config → Command
    show : ShowCommand → Command
    set_output : ℕ → PwmPin → F64 → Command
    output_pid : ℕ → Command
    output_polarity : ℕ → Polarity → Command
    set_center : ℕ → CenterPoint → Command
    set_pid : ℕ → PidParameter → F64 → Command
    set_b_parameter : ℕ → BpParameter → F64 → Command
    set_post_filter : ℕ → Option F32 → Command
    dfu : Command
    fan_set : ℕ → Command
    fan_auto : Command
    show_fan : Command
    fan_curve : F32 → F32 → F32 → Command
    fan_curve_defaults : Command
    show_hw_rev : Command
