-- ===== src/M68k/Status.antt =====
-- The status register and the stack pointers that it selects.
use cute_mac.Base.{ℕ, bit_and, bit_or, shl32, ◌>>>◌}
use cute_mac.M68k.Flags.{get_ccr, set_ccr}
use cute_mac.M68k.Cpu.{Cpu, update, stack_pointer}
pub mod Laws
pub mod Fields

abbrev pub sflag_set : ℕ
sflag_set = 4

abbrev pub mflag_set : ℕ
mflag_set = 2

-- The entry of `sp` for the mode: 0 for the user, 4 for the interrupt and 6 for the master
-- stack pointer.
abbrev pub sp_index : ℕ → ℕ → ℕ
sp_index s m = bit_or s (bit_and (s >>> 1) m)

module _ {S : Type 0} where
  -- m68ki_get_sr.
  unfoldable pub get_sr : Cpu S → ℕ
  get_sr c = bit_or c.t1_flag (
      bit_or c.t0_flag (
        bit_or (shl32 c.s_flag 11)
          (bit_or (shl32 c.m_flag 11) (bit_or c.int_mask (get_ccr c.flags)))))

  -- The stack pointer is kept in `sp`, S and M change, and the stack pointer of the new mode is
  -- loaded.
  switch_stack : ℕ → ℕ → Cpu S → Cpu S
  switch_stack s m c =
      let saved = update c.sp (sp_index c.s_flag c.m_flag) (stack_pointer c) in
      record c { sp = saved; s_flag = s; m_flag = m; dar = update c.dar 15 (saved (sp_index s m)) }

  -- m68ki_set_s_flag.
  unfoldable pub set_s_flag : ℕ → Cpu S → Cpu S
  unfolding switch_stack
  set_s_flag value c = switch_stack value c.m_flag c

  -- m68ki_set_sm_flag.
  unfoldable pub set_sm_flag : ℕ → Cpu S → Cpu S
  unfolding switch_stack
  set_sm_flag value c = switch_stack (bit_and value sflag_set) (bit_and value mflag_set) c

  -- m68ki_set_sr_noint.
  unfoldable pub set_sr_noint : ℕ → Cpu S → Cpu S
  unfolding set_sm_flag
  set_sr_noint value c =
      let v = bit_and value c.sr_mask in
      set_sm_flag (bit_and (v >>> 11) 6) (record c {
        t1_flag = bit_and v 0x8000;
        t0_flag = bit_and v 0x4000;
        int_mask = bit_and v 0x0700;
        flags = set_ccr v;
      })
