-- ===== src/Examples/Branches.antt =====
-- A comparison and a branch on two registers.
use cute_mac.Base.{◌+◌, if◌then◌else◌, u32, sext8, ◌≡◌, refl, arith, true}
use cute_mac.M68k.Flags.{word, lt, mask_out_above}
use cute_mac.M68k.Cpu.{Cpu, ok, update}
use cute_mac.M68k.Ea.{data_reg, dx, source}
use cute_mac.M68k.Alu.Compare.{compares}
use cute_mac.M68k.Ops.Cmp.{cmp}
use cute_mac.M68k.Ops.Flow.{bcc_8}
use cute_mac.M68k.Ops.Branches.{bcc_8-cmp}
use cute_mac.Examples.Machine.{Bytes, ram_host, machine}

-- CMP.W D1,D0 with -1 in D0 and 1 in D1.
abbrev comparing : Cpu Bytes
comparing =
    let c = machine 1 0x2000 λ a. 0 in
    record c { ir = 0xb041; dar = update (update c.dar 0 0xffff) 1 1 }

-- The fetch of BLT, 16 bytes back.
abbrev fetch_blt : Cpu Bytes → Cpu Bytes
fetch_blt s = record s { ppc = s.pc; ir = 0x6df0; pc = u32 (s.pc + 2) }

comparing_reads : source word data_reg comparing ≡ ok 1 comparing
unfolding source
comparing_reads = refl

bcc_8-cmp_example :
    (m : Cpu Bytes) × (cmp word data_reg comparing ≡ ok tt m)
    × (e : Cpu Bytes) × (bcc_8 lt (fetch_blt m) ≡ ok tt e)
    × (e.pc ≡ (
        if compares lt word 1 (mask_out_above word (comparing.dar (dx comparing)))
        then u32 ((fetch_blt m).pc + sext8 (fetch_blt m).ir)
        else (fetch_blt m).pc))
bcc_8-cmp_example =
    bcc_8-cmp lt word data_reg 1 fetch_blt comparing comparing comparing_reads (omega arith)
      λ s. refl

-- The branch is taken: -1 is less than 1.
comparing_taken : compares lt word 1 (mask_out_above word (comparing.dar (dx comparing))) ≡ true
unfolding compares
comparing_taken = refl
