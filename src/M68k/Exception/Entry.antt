-- ===== src/M68k/Exception/Entry.antt =====
-- Entering an exception on a memory of bytes: where execution goes on, and what the frame holds.
use cute_mac.Base.{
  sub32, bit_or, ℕ, true, false, ◌+◌, ◌%◌, ◌^◌, ◌≤◌, ◌<◌, u32, shl32, ◌≡◌, ◌∙◌, arith,
}
use cute_mac.M68k.Flags.{word, long}
use cute_mac.M68k.Cpu.{use_cycles, Cpu, Host, ok, ◌>>◌, is_000, then_lem}
use cute_mac.M68k.Memory.{push, function_code_user_data}
use cute_mac.M68k.Memory.Layout.{peek}
use cute_mac.M68k.Memory.Ram.{IsRam, IsFlat, pushed, push_lem, read_data_lem}
use cute_mac.M68k.Status.{get_sr, set_s_flag, sflag_set}
use cute_mac.M68k.Frames.{stack_frame_3word, stack_frame_0000}
use cute_mac.M68k.Exception.{exception_0000, init_exception, jump_vector, exception_cycles}

-- The processor with the frame still to be stacked: in supervisor mode and not tracing.
abbrev pub opened : {S : Type 0} → Cpu S → Cpu S
opened c = set_s_flag sflag_set (record c { t1_flag = 0; t0_flag = 0 })

abbrev pub vector_entry : {S : Type 0} → ℕ → Cpu S → ℕ
vector_entry vector c = u32 (shl32 vector 2 + c.vbr)

-- There is room for eight bytes on the supervisor stack, and the vector is below `limit`.
pub record IsStackable {S : Type 0} (limit vector : ℕ) (c : Cpu S) : Type 0 where
  pub flat : IsFlat limit c
  pub top : limit ≤ 2 ^ 32
  pub room : 8 ≤ (opened c).dar 15
  pub below : (opened c).dar 15 ≤ limit
  pub even : (opened c).dar 15 % 2 ≡ 0
  pub vector_below : vector_entry vector c < limit
  pub vector_even : vector_entry vector c % 2 ≡ 0

module _ {S : Type 0} ⦃host : Host S⦄ (store : S → ℕ → ℕ) (ram : IsRam host store) where
  -- The two frames, the 68000's and the others'.
  abbrev pub framed_000 : ℕ → ℕ → Cpu S → Cpu S
  framed_000 pc sr c = pushed store ram word sr (pushed store ram long pc c)

  abbrev pub framed : ℕ → ℕ → ℕ → Cpu S → Cpu S
  framed pc sr vector c = framed_000 pc sr (pushed store ram word (shl32 vector 2) c)

  framed_000_lem :
      (pc sr limit : ℕ) (c : Cpu S)
      → IsFlat limit c
      → limit ≤ 2 ^ 32
      → 6 ≤ c.dar 15
      → c.dar 15 ≤ limit
      → c.dar 15 % 2 ≡ 0
      → (push long pc >> push word sr) c ≡ ok tt (framed_000 pc sr c)
  framed_000_lem pc sr limit c flat top room below even =
      then_lem _ (push_lem store ram long limit pc c flat top (omega arith) below (omega arith))
      ∙ push_lem store ram word limit sr (pushed store ram long pc c) flat top (omega arith)
          (omega arith) (omega arith)

  -- The vector is fetched, and the clocks are counted.
  abbrev pub vectored : ℕ → Cpu S → Cpu S
  vectored vector d = record d {
    function_code = bit_or d.s_flag function_code_user_data;
    pc = peek long (store d.bus) (vector_entry vector d);
    remaining_cycles =
        sub32 d.remaining_cycles
          (u32 (sub32 (d.timing.exception vector) (d.timing.instruction d.ir)));
  }

  vectored_lem :
      (vector limit : ℕ) (d : Cpu S)
      → IsFlat limit d
      → vector_entry vector d < limit
      → vector_entry vector d % 2 ≡ 0
      → (jump_vector vector >> exception_cycles vector) d ≡ ok tt (vectored vector d)
  unfolding jump_vector exception_cycles use_cycles
  vectored_lem vector limit d flat below even = then_lem _ (
      then_lem _ (
        read_data_lem store ram long limit (vector_entry vector d)
          (record d { pc = vector_entry vector d }) flat below even))

  pub stack_frame_000 :
      (pc sr vector limit : ℕ) (c : Cpu S)
      → IsFlat limit c
      → limit ≤ 2 ^ 32
      → 8 ≤ c.dar 15
      → c.dar 15 ≤ limit
      → c.dar 15 % 2 ≡ 0
      → is_000 c.cpu_type ≡ true
      → stack_frame_0000 pc sr vector c ≡ ok tt (framed_000 pc sr c)
  unfolding stack_frame_0000 stack_frame_3word
  stack_frame_000 pc sr vector limit c flat top room below even t =
      rw t (framed_000_lem pc sr limit c flat top (omega arith) below even)

  pub stack_frame_other :
      (pc sr vector limit : ℕ) (c : Cpu S)
      → IsFlat limit c
      → limit ≤ 2 ^ 32
      → 8 ≤ c.dar 15
      → c.dar 15 ≤ limit
      → c.dar 15 % 2 ≡ 0
      → is_000 c.cpu_type ≡ false
      → stack_frame_0000 pc sr vector c ≡ ok tt (framed pc sr vector c)
  unfolding stack_frame_0000
  stack_frame_other pc sr vector limit c flat top room below even t = rw t (
      then_lem _ (
        push_lem store ram word limit (shl32 vector 2) c flat top (omega arith) below (omega arith))
      ∙ framed_000_lem pc sr limit (pushed store ram word (shl32 vector 2) c) flat top (omega arith)
          (omega arith) (omega arith))

  -- An exception, given the frame.
  entered_lem :
      (at_pc : Cpu S → ℕ) (vector limit : ℕ) (c d : Cpu S)
      → stack_frame_0000 (at_pc (opened c)) (get_sr c) vector (opened c) ≡ ok tt d
      → IsFlat limit d
      → vector_entry vector d < limit
      → vector_entry vector d % 2 ≡ 0
      → exception_0000 at_pc vector c ≡ ok tt (vectored vector d)
  unfolding exception_0000 init_exception
  entered_lem at_pc vector limit c d stacked flat below even =
      then_lem _ stacked ∙ vectored_lem vector limit d flat below even

  pub entered_000 :
      (at_pc : Cpu S → ℕ) (vector limit : ℕ) (c : Cpu S)
      → IsStackable limit vector c
      → is_000 c.cpu_type ≡ true
      → exception_0000 at_pc vector c
        ≡ ok tt (vectored vector (framed_000 (at_pc (opened c)) (get_sr c) (opened c)))
  unfolding set_s_flag
  entered_000 at_pc vector limit c ready t =
      entered_lem at_pc vector limit c (framed_000 (at_pc (opened c)) (get_sr c) (opened c))
        (stack_frame_000 (at_pc (opened c)) (get_sr c) vector limit (opened c) ready.flat ready.top
          ready.room ready.below ready.even t)
        ready.flat ready.vector_below ready.vector_even

  pub entered_other :
      (at_pc : Cpu S → ℕ) (vector limit : ℕ) (c : Cpu S)
      → IsStackable limit vector c
      → is_000 c.cpu_type ≡ false
      → exception_0000 at_pc vector c
        ≡ ok tt (vectored vector (framed (at_pc (opened c)) (get_sr c) vector (opened c)))
  unfolding set_s_flag
  entered_other at_pc vector limit c ready t =
      entered_lem at_pc vector limit c (framed (at_pc (opened c)) (get_sr c) vector (opened c))
        (stack_frame_other (at_pc (opened c)) (get_sr c) vector limit (opened c) ready.flat
          ready.top ready.room ready.below ready.even t)
        ready.flat ready.vector_below ready.vector_even
