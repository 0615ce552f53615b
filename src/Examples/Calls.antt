-- ===== src/Examples/Calls.antt =====
-- JSR and RTS around a subroutine of one instruction.
use cute_mac.Base.{◌<◌, ◌≡◌, refl, arith, bit_and-mask, bit_and, ◌>>>◌, ℕ}
use cute_mac.M68k.Cpu.{Cpu, ok, update, set_da}
use cute_mac.M68k.Ea.{ai, ay, ea_of}
use cute_mac.M68k.Flags.{long}
use cute_mac.M68k.Ops.{set_flags}
use cute_mac.M68k.Ops.Flow.{jsr_32, rts_32}
use cute_mac.M68k.Ops.Logic.{set_logic_flags}
use cute_mac.M68k.Ops.Move.{moveq_32}
use cute_mac.M68k.Ops.Calls.{IsSubroutine, IsBack, rts_32-jsr_32}
use cute_mac.Examples.Machine.{Bytes, ram_host, shown, ram_host-IsRam, machine, machine-IsFlatAt}

-- JSR (A0) at 0x400, with A0 at 0x5000 and a stack at 0x2000.
abbrev calling : Cpu Bytes
calling = let c = machine 1 0x2000 λ a. 0 in record c { ir = 0x4e90; dar = update c.dar 8 0x5000 }

data_register : (v : ℕ) → bit_and v 7 < 8
data_register v = omega (arith, bit_and-mask 3 v)

moveq_32-IsSubroutine : IsSubroutine shown 0x100000 moveq_32
unfolding moveq_32 set_da set_logic_flags set_flags
moveq_32-IsSubroutine m flat =
    let below = data_register (m.ir >>> 9) in
    (_, refl, record { flat = flat; stack = ground arith; frame = λ i less. refl })

calling_at : ea_of long ay ai calling ≡ ok 0x5000 calling
unfolding ea_of
calling_at = refl

rts_32-jsr_32_example :
    (m : Cpu Bytes) × (jsr_32 ai calling ≡ ok tt m)
    × (m.pc ≡ 0x5000)
    × (t : Cpu Bytes) × (moveq_32 m ≡ ok tt t)
    × (e : Cpu Bytes) × (rts_32 t ≡ ok tt e)
    × IsBack calling t e
rts_32-jsr_32_example =
    rts_32-jsr_32 shown ram_host-IsRam ai 0x5000 0x100000 moveq_32 calling calling calling_at
      (record {
        flat = machine-IsFlatAt;
        top = omega arith;
        room = omega arith;
        below = omega arith;
        even = refl;
        pc_small = omega arith;
      })
      moveq_32-IsSubroutine
