-- ===== src/M68k/Ops/Branches.antt =====
-- About a CMP and the conditional branch behind it.
use cute_mac.Base.{
  ℕ, ◌+◌, ◌<◌, Bool, true, false, arith, if◌then◌else◌, u32, sext8, ◌≡◌, refl, ap, ◌∙◌,
}
use cute_mac.M68k.Flags.{Size, byte, word, long, Condition, cond, mask_out_above}
use cute_mac.M68k.Cpu.{Cpu, Host, ok, then_lem, use_cycles}
use cute_mac.M68k.Ea.{Operand, dx, source}
use cute_mac.M68k.Alu.{alu_cmp}
use cute_mac.M68k.Alu.Spec.{modulus}
use cute_mac.M68k.Alu.Compare.{compares, alu_cmp-compares}
use cute_mac.M68k.Ops.{set_flags}
use cute_mac.M68k.Ops.Cmp.{cmp, compare_flags}
use cute_mac.M68k.Ops.Flow.{bcc_8, branch_byte, branch}

mask_out_above-below : (size : Size) (a : ℕ) → mask_out_above size a < modulus size
mask_out_above-below byte a = omega arith
mask_out_above-below word a = omega arith
mask_out_above-below long a = omega arith

module _ {S : Type 0} ⦃host : Host S⦄ where
  -- Bcc by its condition.
  bcc_8-taken :
      (k : Condition) (c : Cpu S) (b : Bool)
      → cond k c.flags ≡ b
      → (e : Cpu S) × (bcc_8 k c ≡ ok tt e) × (e.pc ≡ (if b then u32 (c.pc + sext8 c.ir) else c.pc))
  unfolding bcc_8 branch_byte branch use_cycles
  bcc_8-taken k c true holds = rw holds (_, refl, refl)
  bcc_8-taken k c false fails = rw fails (_, refl, refl)

  -- CMP of a size on an operand that is read as `src`, then any fetch that leaves the flags alone,
  -- then a conditional branch: both return, and the branch is taken exactly when the comparison
  -- that the condition is named for holds of the data register and `src`.
  pub bcc_8-cmp :
      (k : Condition) (size : Size) (operand : Operand) (src : ℕ) (fetch : Cpu S → Cpu S)
      (c d : Cpu S)
      → source size operand c ≡ ok src d
      → src < modulus size
      → ((s : Cpu S) → (fetch s).flags ≡ s.flags)
      → (m : Cpu S) × (cmp size operand c ≡ ok tt m)
        × (e : Cpu S) × (bcc_8 k (fetch m) ≡ ok tt e)
        × (e.pc ≡ (
            if compares k size src (mask_out_above size (d.dar (dx d)))
            then u32 ((fetch m).pc + sext8 (fetch m).ir)
            else (fetch m).pc))
  unfolding cmp compare_flags set_flags
  bcc_8-cmp k size operand src fetch c d reads small keeps =
      let dst = mask_out_above size (d.dar (dx d)) in
      let m = record d { flags = alu_cmp size src dst d.flags } in
      let holds : cond k (fetch m).flags ≡ compares k size src dst =
        ap (cond k) (keeps m)
        ∙ alu_cmp-compares k size src dst d.flags small
            (mask_out_above-below size (d.dar (dx d))) in
      let (e, branches, target) = bcc_8-taken k (fetch m) (compares k size src dst) holds in
      (m, then_lem _ reads, e, branches, target)
