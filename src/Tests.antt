-- ===== src/Tests.antt =====
-- Runs of the model on concrete inputs, and its theorems at such inputs.
mod Model
mod Lines
mod Parser
mod Loop
mod Converter
mod Control
mod Commands
mod Start
mod Timing
mod Units
