-- ===== src/Ad7172.antt =====
-- `src/ad7172/`: the driver of the AD7172-2 converter.
pub mod Checksum
pub mod Bus
pub mod Codes
pub mod Filter
pub mod Regs
pub mod Adc
