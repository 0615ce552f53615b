-- ===== src/M68k.antt =====
-- The m68k engine of src/cpu/m68k/engine.
pub mod Flags
pub mod Alu
pub mod Cpu
pub mod Memory
pub mod Ea
pub mod Status
pub mod Frames
pub mod Vectors
pub mod Exception
pub mod Interrupt
pub mod Lines
pub mod Rte
pub mod Ops
pub mod Bcd
pub mod MulDiv
pub mod Shift
