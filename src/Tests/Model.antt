-- ===== src/Tests/Model.antt =====
-- A platform, a board and a host to run the model on.
pub mod Numbers
pub mod Devices
pub mod Chip
pub mod Wire
pub mod Net
pub mod Quiet
pub mod Text
