-- ===== src/Parse/Words.antt =====
-- The words of command lines, as README.md has them, and the bytes of each.
use thermostat.Prelude.{ℕ, ◌≡◌, Bool, true, ◌||◌, List, ◌∷◌, ◌++◌, ◌==◌, replicate, All, bytes}
use thermostat.Command.{ShowCommand, PidParameter, BpParameter, PwmPin, Polarity}
use thermostat.Nom.Documented.{digit, mem}

-- Digits, at least one; a byte of a decimal number is a digit or a dot.
pub record Digits : Type 0 where
  pub first : ℕ
  pub others : List ℕ

abbrev pub digits_of : Digits → List ℕ
digits_of d = d.first ∷ d.others

abbrev pub float_byte : ℕ → Bool
float_byte c = digit c || c == b'.'

abbrev pub Consists : (ℕ → Bool) → Digits → Type 0
Consists test d = (test d.first ≡ true) × All (λ c. test c ≡ true) d.others

-- A decimal number after any number of minus signs.
pub record Decimal : Type 0 where
  pub signs : ℕ
  pub number : Digits

abbrev pub text_of : Decimal → List ℕ
text_of x = replicate x.signs b'-' ++ digits_of x.number

-- A gap of `g + 1` blanks.
abbrev pub gap : ℕ → List ℕ
gap g = b' ' ∷ replicate g b' '

-- What may follow a command that takes no more words.
abbrev pub IsTrail : List ℕ → Type 0
IsTrail t = All (λ c. mem c (bytes "\r\n\t ") ≡ true) t

pub data Side : Type 0 where
  first second : Side

abbrev pub side_byte : Side → ℕ
side_byte first = b'0'
side_byte second = b'1'

abbrev pub index : Side → ℕ
index first = 0
index second = 1

pub record Address : Type 0 where
  pub a : Digits
  pub b : Digits
  pub c : Digits
  pub d : Digits

abbrev pub address_text : Address → List ℕ → List ℕ
address_text x rest =
    digits_of x.a
    ++ (b'.' ∷ (digits_of x.b ++ (b'.' ∷ (digits_of x.c ++ (b'.' ∷ (digits_of x.d ++ rest))))))

abbrev pub pin_word : PwmPin → List ℕ
pin_word PwmPin.i_set = bytes "i_set"
pin_word PwmPin.max_i_pos = bytes "max_i_pos"
pin_word PwmPin.max_i_neg = bytes "max_i_neg"
pin_word PwmPin.max_v = bytes "max_v"

abbrev pub polarity_word : Polarity → List ℕ
polarity_word Polarity.normal = bytes "normal"
polarity_word Polarity.reversed = bytes "reversed"

abbrev pub pid_word : PidParameter → List ℕ
pid_word PidParameter.target = bytes "target"
pid_word PidParameter.kp = bytes "kp"
pid_word PidParameter.ki = bytes "ki"
pid_word PidParameter.kd = bytes "kd"
pid_word PidParameter.output_min = bytes "output_min"
pid_word PidParameter.output_max = bytes "output_max"

abbrev pub bp_word : BpParameter → List ℕ
bp_word BpParameter.t0 = bytes "t0"
bp_word BpParameter.b = bytes "b"
bp_word BpParameter.r0 = bytes "r0"

abbrev pub show_word : ShowCommand → List ℕ
show_word ShowCommand.input = bytes "report"
show_word ShowCommand.output = bytes "output"
show_word ShowCommand.pid = bytes "pid"
show_word ShowCommand.b_parameter = bytes "b-p"
show_word ShowCommand.post_filter = bytes "postfilter"
show_word ShowCommand.ipv4 = bytes "ipv4"
