-- ===== src/Devices.antt =====
-- The devices of src/devices, apart from the processor.
pub mod Floppy
pub mod Rtc
pub mod Via6522
