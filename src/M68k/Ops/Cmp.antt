-- ===== src/M68k/Ops/Cmp.antt =====
-- The handlers m68k_op_cmp_…, cmpa_…, cmpi_… and cmpm_… of m68kops.c.
use cute_mac.Base.{ℕ, ◌||◌, not, if◌then◌else◌, sext16}
use cute_mac.M68k.Flags.{Size, byte, word, long, mask_out_above}
use cute_mac.M68k.Cpu.{Host, M, ◌>>=◌, gets, is_ec020_plus}
use cute_mac.M68k.Ea.{Mode, Operand, dx, dy, ax, ay, oper_of, oper_i, source, is_pc_relative}
use cute_mac.M68k.Exception.{illegal}
use cute_mac.M68k.Alu.{alu_cmp}
use cute_mac.M68k.Ops.{set_flags}

module _ {S : Type 0} where
  -- The flags of `dst - src`, whose X is left alone.
  unfoldable pub compare_flags : Size → ℕ → ℕ → M S (Unit {0})
  unfolding set_flags
  compare_flags size src dst = gets (λ c. alu_cmp size src dst c.flags) >>= set_flags

module _ {S : Type 0} ⦃host : Host S⦄ where
  -- `DX` against `<ea>`.
  unfoldable pub cmp : Size → Operand → M S (Unit {0})
  unfolding source compare_flags
  cmp size operand = do
    src ← source size operand
    dst ← gets (λ c. mask_out_above size (c.dar (dx c)))
    compare_flags size src dst

  unfoldable pub cmp_8 : Operand → M S (Unit {0})
  unfolding cmp
  cmp_8 operand = cmp byte operand

  unfoldable pub cmp_16 : Operand → M S (Unit {0})
  unfolding cmp
  cmp_16 operand = cmp word operand

  unfoldable pub cmp_32 : Operand → M S (Unit {0})
  unfolding cmp
  cmp_32 operand = cmp long operand

  -- `AX` against `<ea>`, a word sign extended; the comparison is of longs.
  unfoldable pub cmpa_16 : Operand → M S (Unit {0})
  unfolding source compare_flags
  cmpa_16 operand = do
    src ← source word operand
    dst ← gets (λ c. c.dar (ax c))
    compare_flags long (sext16 src) dst

  unfoldable pub cmpa_32 : Operand → M S (Unit {0})
  unfolding source compare_flags
  cmpa_32 operand = do
    src ← source long operand
    dst ← gets (λ c. c.dar (ax c))
    compare_flags long src dst

  cmpi_with : Size → M S ℕ → M S (Unit {0})
  unfolding oper_i compare_flags
  cmpi_with size destination = do src ← oper_i size; dst ← destination; compare_flags size src dst

  -- The modes relative to the program counter are illegal before the 68020.
  cmpi : Size → Operand → M S (Unit {0})
  unfolding cmpi_with oper_of illegal
  cmpi size (Operand.mem mode) = do
    allowed ← gets (λ c. not (is_pc_relative mode) || is_ec020_plus c.cpu_type)
    if allowed then cmpi_with size (oper_of size ay mode) else illegal
  cmpi size _ = cmpi_with size (gets (λ c. mask_out_above size (c.dar (dy c))))

  unfoldable pub cmpi_8 : Operand → M S (Unit {0})
  unfolding cmpi
  cmpi_8 operand = cmpi byte operand

  unfoldable pub cmpi_16 : Operand → M S (Unit {0})
  unfolding cmpi
  cmpi_16 operand = cmpi word operand

  unfoldable pub cmpi_32 : Operand → M S (Unit {0})
  unfolding cmpi
  cmpi_32 operand = cmpi long operand

  -- `(AX)+` against `(AY)+`; the modes are `pi`, or `pi7` for a byte through A7.
  unfoldable pub cmpm : Size → Mode → Mode → M S (Unit {0})
  unfolding oper_of compare_flags
  cmpm size from to = do
    src ← oper_of size ay from
    dst ← oper_of size ax to
    compare_flags size src dst
