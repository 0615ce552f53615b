-- ===== src/Lib.antt =====
-- A model of CuteMac's 68000 family engine and of its devices, and what they do right.
--
-- CuteMac emulates Macintosh computers. Its processor is the engine in src/cpu/m68k/engine, derived
-- from Musashi and kept in the tree: m68kcpu.h has the state, the flag macros, the memory accesses,
-- the addressing modes and the exceptions, m68kops.c has one handler per instruction and mode, and
-- m68kcpu.c runs them. src/cpu/m68k/M68kCpuCore.cpp joins the engine to a machine's bus. The devices in
-- src/devices sit behind that bus, most of them behind a VIA or another controller that sets their
-- pins.
--
-- How the files correspond to the code:
--   Base             C words (wrap-around, shifts, complement), their binary digits, integers
--   M68k/Flags       VFLAG_…, CFLAG_…, NFLAG_…, COND_…, m68ki_get_ccr, m68ki_set_ccr (m68kcpu.h)
--   M68k/Alu, Bcd    what the handlers compute: add_, addx_, sub_, subx_, cmp_, neg_, negx_, abcd_,
--                    sbcd_, nbcd_ (m68kops.c)
--   M68k/MulDiv      mulu_16_, muls_16_, divu_16_, divs_16_ (m68kops.c), with their handlers
--   M68k/Shift       lsl_…_r, lsl_…_s, lsr_…_r, lsr_…_s (m68kops.c), with their handlers; Memory the
--                    shifts and rotates of a word in memory
--   M68k/Cpu         m68ki_cpu_core, the bus of include/cutemac/cpu/m68k/M68kBus.h, USE_CYCLES
--   M68k/Memory      m68ki_read_…, m68ki_write_…, m68ki_push_…, m68ki_pull_…, the prefetch queue
--   M68k/Ea          EA_…, OPER_…, m68ki_get_ea_ix
--   M68k/Status      m68ki_get_sr, m68ki_set_sr_noint and the stack pointers it switches
--   M68k/Frames      m68ki_stack_frame_…
--   M68k/Exception   m68ki_exception_… but for interrupts
--   M68k/Interrupt   m68ki_exception_interrupt, m68ki_check_interrupts, m68ki_set_sr
--   M68k/Lines       m68k_set_irq, m68k_set_virq, m68k_get_virq (m68kcpu.c)
--   M68k/Rte         m68k_op_rte_32
--   M68k/Ops         the handlers of m68kops.c by size and operand: Add, Sub and Cmp, Logic and
--                    Immediate (and, or, eor), Unary (not, clr, tst), Bits, Move (move, lea, pea, ext,
--                    swap), Flow (branches, subroutines, link); Calls and Branches are about them
--   Core/Scheduler   MachineScheduler (src/core/MachineScheduler.cpp): Order about its queue, Dispatch
--                    about its loop
--   Devices/Rtc      MacRtc (src/devices/rtc/MacRtc.cpp): its pins, bytes, registers and image file
--   Devices/Via6522  Via6522 (src/devices/via6522/Via6522.cpp): ports and control lines, Registers the
--                    reads and writes, Tick the passing of time, Untouched, Timer and Rewind about it
--   Devices/Floppy   FloppyDiskImage (src/devices/floppy/FloppyDiskImage.cpp): Gcr and Mfm are the two
--                    codes, Geometry the blocks, Disk the state and the tracks that are read, Store how
--                    a sector is stored, Write what is made of written bytes, Drive the calls
--
-- A handler is a function from the state of the processor to an outcome: it returns a value with
-- the new state, or it leaves by longjmp with an address error or a bus error, which is then the
-- state at that moment. The state holds `m68ki_cpu_core`, the globals beside it, and the state of
-- the machine behind the bus, which is a parameter, with the functions of `Host`: the reads and
-- writes of the bus and the translation of the MMU (m68kmmu.h). Theorems about memory take a bus
-- that acts as plain memory (`IsRam`) and a processor whose MMU is off (`IsFlatAt`).
--
-- The switches of m68kconf.h are as the file has them: prefetch, address errors, function codes,
-- the MMU and the writes of MOVE.L to -(An) on; trace, interrupt acknowledge and the callbacks of
-- single instructions off.
--
-- The loop of RTE over throwaway frames takes fuel, since a stack may hold any number of them; one
-- unit is enough for a stack with another frame on top, and one more for each throwaway frame
-- before it. The loops that count the clocks of a
-- multiplication have a unit for each binary digit of their operand, 16 or 32.
--
-- A device is a record of its fields with a function for each method. Files and the clock of the
-- host are a parameter of the device, a record `Files` of the Qt calls it makes over a state of the
-- host's files; a QByteArray or a QVector is a list, and the parameter RAM a function of the index.
-- Where C++ has -1 for no value, the model has none. The loops over written disk bytes take a round
-- for every byte and one more, which is shown to be enough. The callbacks of the VIA are a parameter
-- of it, and act on the VIA itself and on the state of the machine; the loops that reload its
-- counters take a round for every cycle that is overdue and one more, which is enough. The loop of
-- the scheduler takes fuel, since callbacks may schedule events that are due for ever; a round for
-- each event that is due and one more are enough where they do not.
--
-- Not modelled: floating point (m68kfpu.c on the vendored softfloat), the disassembler, the inside
-- of the MMU, the other instructions (MOVEM, bit fields, the rotates of registers and so on), the
-- other devices, the debug trace of a disk and of the VIA, the machines and the user interface.
pub mod Base
pub mod Core
pub mod Devices
pub mod M68k
pub mod Examples
