-- ===== src/Tests/Model/Wire.antt =====
-- A socket with room for four bytes that keeps what it has taken.
use thermostat.Prelude.{
  ℕ, ◌-◌, ◌≡◌, refl, some, List, ◌++◌, arith, length, min, take, length-append, length-take,
}
use thermostat.Handler.SendLine.{TcpSocket, IsBuffer}

abbrev room_of : List ℕ → ℕ
room_of s = 4 - length s

instance abbrev pub wire : TcpSocket
wire = record {
  Socket = List ℕ;
  send_capacity = λ s. 4;
  send_queue = λ s. length s;
  send_slice = λ s bytes.
      (some (min (length bytes) (room_of s)), s ++ take (min (length bytes) (room_of s)) bytes);
}

pub wire_left :
    (s bytes : List ℕ)
    → 4 - length (s ++ take (min (length bytes) (4 - length s)) bytes)
      ≡ 4 - length s - min (length bytes) (4 - length s)
wire_left s bytes = omega (
  arith,
  length-append s (take (min (length bytes) (4 - length s)) bytes),
  length-take (min (length bytes) (4 - length s)) bytes,
)

abbrev pub wire-IsBuffer : IsBuffer
wire-IsBuffer = record {
  sent = λ s. s;
  is_open = λ s. Unit;
  takes = λ s bytes o. (refl, refl, wire_left s bytes, tt);
}
