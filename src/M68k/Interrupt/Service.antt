-- ===== src/M68k/Interrupt/Service.antt =====
-- About m68ki_check_interrupts and the return from an interrupt.
use cute_mac.Base.{
  ℕ, suc, true, false, Bool-cases, inl, inr, ◌≤◌, ◌<◌, ltb, ◌>>>◌, ◌≡◌, refl, ◌∙◌, arith,
}
use cute_mac.M68k.Cpu.{Cpu, Host, ok, pure, ◌>>◌, then_lem}
use cute_mac.M68k.Memory.Ram.{IsRam}
use cute_mac.M68k.Exception.Entry.{opened}
use cute_mac.M68k.Interrupt.{exception_interrupt, check_interrupts}
use cute_mac.M68k.Interrupt.Entry.{if_true, if_false, IsInterruptible, autovector}
use cute_mac.M68k.Interrupt.Taken.{IsTaken, size_of, exception_interrupt-IsTaken}
use cute_mac.M68k.Rte.{rte}
use cute_mac.M68k.Rte.RoundTrip.{IsRestorable, IsResumed, return_from}

-- What a test for interrupts makes of `c`: the non-maskable one comes first, then a request above
-- the mask, and otherwise nothing happens.
pub data IsServiced {S : Type 0} (store : S → ℕ → ℕ) (limit : ℕ) (c d : Cpu S) : Type 0 where
  quiet : c.nmi_pending ≡ false → c.int_level ≤ c.int_mask → d ≡ c → IsServiced store limit c d
  maskable :
      c.nmi_pending ≡ false
      → c.int_mask < c.int_level
      → IsTaken store limit (c.int_level >>> 8) (size_of c) c d
      → IsServiced store limit c d
  non_maskable :
      c.nmi_pending ≡ true
      → IsTaken store limit 7 (size_of c) (record c { nmi_pending = false }) d
      → IsServiced store limit c d

module _ {S : Type 0} ⦃host : Host S⦄ (store : S → ℕ → ℕ) (ram : IsRam host store) where
  -- On a plain memory with the MMU off, where the master stack is not in use, the processor is not
  -- halted, and the supervisor stack and the vectors of level 7 and of the requested level are even
  -- and in reach: m68ki_check_interrupts takes the non-maskable interrupt if one is pending, or
  -- else a request above the mask, or else does nothing.
  pub check_interrupts-IsServiced :
      (limit : ℕ) (c : Cpu S)
      → IsInterruptible limit (c.int_level >>> 8) c
      → IsInterruptible limit 7 (record c { nmi_pending = false })
      → (d : Cpu S) × (check_interrupts c ≡ ok tt d) × IsServiced store limit c d
  unfolding check_interrupts
  check_interrupts-IsServiced limit c ready top = elim (Bool-cases c.nmi_pending) [
    | inl t ↦
        let (d, taken, is) =
          exception_interrupt-IsTaken store ram 7 limit (record c { nmi_pending = false }) top in
        (d, if_true _ _ c t ∙ taken, non_maskable t is)
    | inr t ↦ elim (Bool-cases (ltb c.int_mask c.int_level)) [
      | inl u ↦
          let (d, taken, is) =
            exception_interrupt-IsTaken store ram (c.int_level >>> 8) limit c ready in
          (d, if_false _ _ c t ∙ if_true _ (pure tt) c u ∙ taken, maskable t (ground arith) is)
      | inr u ↦ (c, if_false _ _ c t ∙ if_false _ (pure tt) c u, quiet t (ground arith) refl)
    ]
  ]

  -- On a plain memory with the MMU off, where the master stack is not in use, the processor is not
  -- halted, and the supervisor stack and the vectors are even and in reach: after an interrupt and
  -- RTE, the interrupted program goes on at its next instruction, with its status register and its
  -- sixteen registers, where its status register is well formed and no non-maskable interrupt is
  -- pending.
  pub rte-exception_interrupt :
      (level limit fuel : ℕ) (c : Cpu S)
      → level ≤ 7
      → IsInterruptible limit level c
      → (opened c).dar 15 < limit
      → IsRestorable c
      → c.nmi_pending ≡ false
      → (e : Cpu S) × ((exception_interrupt level >> rte (suc fuel)) c ≡ ok true e)
        × IsResumed c.pc c e
  rte-exception_interrupt level limit fuel c small ready below fit nmi =
      let (d, taken, is) = exception_interrupt-IsTaken store ram level limit c ready in
      let (e, returned, back) =
        return_from store ram c.pc (autovector level) limit fuel c d (omega arith) ready.stackable
          below fit (is.nmi_kept ∙ nmi) (omega (arith, is.request_withdrawn)) is.stacked in
      (e, then_lem _ taken ∙ returned, back)
