-- ===== src/Prelude/Results.antt =====
-- Rust's `Result<T, E>`, and the monad of code that can panic.

pub data Result (A E : Type 0) : Type 0 where
  ok : A → Result A E
  err : E → Result A E
