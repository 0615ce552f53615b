-- ===== src/Examples.antt =====
-- The theorems at concrete inputs, and tests of the definitions.
mod Machine
mod Alu
mod Branches
mod Calls
mod Rte
mod Interrupt
mod MulDiv
mod Shift
mod Rtc
mod Floppy
mod Via
mod Scheduler
