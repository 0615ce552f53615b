-- ===== src/M68k/Rte/Returns.antt =====
-- What RTE does with a frame on a memory of bytes: which words it reads, where the stack pointer
-- ends, and what becomes of the status register.
use cute_mac.Base.{
  ◌/◌, ℕ, true, false, ltb, ◌+◌, ◌%◌, ◌^◌, ◌≤◌, ◌<◌, bit_and, bit_or, ◌≡◌, refl, ◌∙◌, arith,
}
use cute_mac.M68k.Flags.{word, long}
use cute_mac.M68k.Cpu.{pure, Cpu, Host, M, ok, update, then_lem}
use cute_mac.M68k.Memory.{run_mode_normal}
use cute_mac.M68k.Memory.Layout.{peek}
use cute_mac.M68k.Memory.Ram.{read_lem, u32-small, IsRam, IsFlat, pulled, pull_lem}
use cute_mac.M68k.Status.{set_sr_noint}
use cute_mac.M68k.Interrupt.{set_sr}
use cute_mac.M68k.Vectors.{instruction_yes}
use cute_mac.M68k.Rte.Passes.{Passes, none-Passes}
use cute_mac.M68k.Rte.{frame_format, rte_000, return_by, resume}

-- No interrupt would be taken with the status register `sr`.
pub record IsQuiet {S : Type 0} (sr : ℕ) (c : Cpu S) : Type 0 where
  pub no_nmi : c.nmi_pending ≡ false
  pub masked : c.int_level ≤ bit_and (bit_and sr c.sr_mask) 0x700

module _ {S : Type 0} ⦃host : Host S⦄ where
  pub set_sr_quiet : (sr : ℕ) (c : Cpu S) → IsQuiet sr c → set_sr sr c ≡ ok tt (set_sr_noint sr c)
  unfolding set_sr set_sr_noint
  set_sr_quiet sr c quiet =
      let off : ltb (bit_and (bit_and sr c.sr_mask) 0x700) c.int_level ≡ false =
        ground (arith, quiet.masked) in
      rw (quiet.no_nmi, off) refl

abbrev pub stacked_sr : {S : Type 0} → (S → ℕ → ℕ) → Cpu S → ℕ
stacked_sr store d = peek word (store d.bus) (d.dar 15)

abbrev pub stacked_pc : {S : Type 0} → (S → ℕ → ℕ) → Cpu S → ℕ
stacked_pc store d = peek long (store d.bus) (d.dar 15 + 2)

abbrev pub stacked_format : {S : Type 0} → (S → ℕ → ℕ) → Cpu S → ℕ
stacked_format store d = peek word (store d.bus) (d.dar 15 + 6) / 2 ^ 12

-- The stack has a frame of `6 + n` bytes below `limit`, whose status register admits no
-- interrupt.
pub record IsFrame {S : Type 0} (store : S → ℕ → ℕ) (n limit : ℕ) (d : Cpu S) : Type 0 where
  pub flat : IsFlat limit d
  pub top : limit ≤ 2 ^ 32
  pub room : d.dar 15 + 6 + n < limit
  pub even : d.dar 15 % 2 ≡ 0
  pub quiet : IsQuiet (stacked_sr store d) d

module _ {S : Type 0} ⦃host : Host S⦄ (store : S → ℕ → ℕ) (ram : IsRam host store) where
  -- The state after a frame with `n` bytes after the program counter.
  abbrev pub popped : ℕ → Cpu S → Cpu S
  popped n d = record d {
    dar =
        update (update (update d.dar 15 (d.dar 15 + 2)) 15 (d.dar 15 + 2 + 4)) 15
          (d.dar 15 + 2 + 4 + n);
    function_code = bit_or d.s_flag d.address_space;
    pc = stacked_pc store d;
  }

  abbrev pub returned : ℕ → Cpu S → Cpu S
  returned n d = record (set_sr_noint (stacked_sr store d) (popped n d)) {
    instr_mode = instruction_yes;
    run_mode = run_mode_normal;
  }

  pub return_by_lem :
      (pass : M S (Unit {0})) (n limit : ℕ) (d : Cpu S)
      → Passes n pass
      → IsFrame store n limit d
      → return_by pass d ≡ ok true (returned n d)
  unfolding return_by resume
  return_by_lem pass n limit d passes frame =
      let d1 = pulled store ram word d in
      let d2 = pulled store ram long d1 in
      then_lem _ (
        pull_lem store ram word limit d frame.flat frame.top (omega (arith, frame.room)) frame.even)
      ∙ then_lem _ (
          pull_lem store ram long limit d1 frame.flat frame.top (omega (arith, frame.room))
            (omega (arith, frame.even)))
      ∙ then_lem _ (passes d2 (omega (arith, frame.room, frame.top)))
      ∙ then_lem _ (
          set_sr_quiet (stacked_sr store d) (popped n d)
            (record { no_nmi = frame.quiet.no_nmi; masked = frame.quiet.masked }))

  pub rte_000_lem :
      (limit : ℕ) (d : Cpu S) → IsFrame store 0 limit d → rte_000 d ≡ ok true (returned 0 d)
  unfolding rte_000
  rte_000_lem limit d frame = return_by_lem (pure tt) 0 limit d none-Passes frame

  pub frame_format_lem :
      (n limit : ℕ) (d : Cpu S)
      → IsFrame store n limit d
      → 2 ≤ n
      → frame_format d
        ≡ ok (stacked_format store d) (record d { function_code = bit_or d.s_flag d.address_space })
  unfolding frame_format
  frame_format_lem n limit d frame more =
      rw (u32-small (d.dar 15 + 6) (omega (arith, frame.room, frame.top))) (
        then_lem _ (
          read_lem store ram word limit (d.dar 15 + 6) d frame.flat (omega (arith, frame.room))
            (omega (arith, frame.even))))
