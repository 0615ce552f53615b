-- ===== src/M68k/Ops/Flow.antt =====
-- The handlers of program flow of m68kops.c: b…, db…, s…, bra, bsr, jmp, jsr, rts, rtr, rtd, link and
-- unlk. A family that differs in the condition is one definition that takes the condition.
use cute_mac.Base.{
  ℕ, ◌+◌, bit_and, bit_or, ◌==◌, if◌then◌else◌, u32, sub32, sext8, sext16, pos, int32, word_of, rem,
}
use cute_mac.M68k.Flags.{byte, word, long, Condition, cond, set_ccr, mask_out_above}
use cute_mac.M68k.Cpu.{
  Host, M, ◌>>=◌, ◌>>◌, gets, modify, when, set_da, use_cycles, is_ec020_plus, is_010_plus,
}
use cute_mac.M68k.Memory.{read, write, push, pull}
use cute_mac.M68k.Exception.{illegal}
use cute_mac.M68k.Ea.{Mode, dy, ay, ea_of, oper_i}
use cute_mac.M68k.Ops.{merge, set_flags}

module _ {S : Type 0} where
  -- m68ki_jump, and m68ki_branch_8, _16 and _32 by the sign extended offset.
  unfoldable pub jump : ℕ → M S (Unit {0})
  jump new_pc = modify λ c. record c { pc = new_pc }

  unfoldable pub branch : ℕ → M S (Unit {0})
  branch offset = modify λ c. record c { pc = u32 (c.pc + offset) }

  -- `REG_PC -= n`.
  unfoldable pub back : ℕ → M S (Unit {0})
  back n = modify λ c. record c { pc = sub32 c.pc n }

  -- USE_ALL_CYCLES, of a branch to itself.
  unfoldable pub use_all_cycles : M S (Unit {0})
  use_all_cycles = modify λ c. record c {
    remaining_cycles = word_of (rem (int32 c.remaining_cycles) (pos (c.timing.instruction c.ir)));
  }

  unfoldable pub idle_loop : M S (Unit {0})
  unfolding use_all_cycles
  idle_loop = do here ← gets (λ c. c.pc == c.ppc); when here use_all_cycles

  unfoldable pub branch_byte : M S (Unit {0})
  unfolding branch
  branch_byte = do offset ← gets (λ c. sext8 c.ir); branch offset

  unfoldable pub bcc_8 : Condition → M S (Unit {0})
  unfolding cond branch_byte use_cycles
  bcc_8 condition = do
    holds ← gets (λ c. cond condition c.flags)
    clocks ← gets (λ c. c.timing.bcc_notake_b)
    if holds then branch_byte else use_cycles clocks

  unfoldable pub scc_8_d : Condition → M S (Unit {0})
  unfolding cond set_da use_cycles
  scc_8_d condition = do
    holds ← gets (λ c. cond condition c.flags)
    n ← gets dy
    old ← gets (λ c. c.dar n)
    clocks ← gets (λ c. c.timing.scc_r_true)
    if holds
        then (do set_da n (bit_or old 0xff); use_cycles clocks)
        else set_da n (bit_and old 0xffffff00)

  unfoldable pub dbt_16 : M S (Unit {0})
  unfolding branch
  dbt_16 = branch 2

module _ {S : Type 0} ⦃host : Host S⦄ where
  -- The offset that follows the opcode, from its own address.
  branch_word : M S (Unit {0})
  unfolding oper_i back branch
  branch_word = do offset ← oper_i word; back 2; branch (sext16 offset)

  branch_long : M S (Unit {0})
  unfolding oper_i back branch
  branch_long = do offset ← oper_i long; back 4; branch offset

  unfoldable pub bcc_16 : Condition → M S (Unit {0})
  unfolding cond branch_word branch use_cycles
  bcc_16 condition = do
    holds ← gets (λ c. cond condition c.flags)
    clocks ← gets (λ c. c.timing.bcc_notake_w)
    if holds then branch_word else (do branch 2; use_cycles clocks)

  unfoldable pub bcc_32 : Condition → M S (Unit {0})
  unfolding cond branch_long branch bcc_8
  bcc_32 condition = do
    cpu_type ← gets (λ c. c.cpu_type)
    holds ← gets (λ c. cond condition c.flags)
    if is_ec020_plus cpu_type then (if holds then branch_long else branch 4) else bcc_8 condition

  -- The counter of DBcc, and the branch while it has not passed 0.
  unfoldable pub dbf_16 : M S (Unit {0})
  unfolding set_da branch_word branch use_cycles
  dbf_16 = do
    n ← gets dy
    old ← gets (λ c. c.dar n)
    let res = mask_out_above word (sub32 old 1)
    set_da n (merge word old res)
    taken ← gets (λ c. c.timing.dbcc_f_noexp)
    expired ← gets (λ c. c.timing.dbcc_f_exp)
    if res == 0xffff then (do branch 2; use_cycles expired) else (do branch_word; use_cycles taken)

  unfoldable pub dbcc_16 : Condition → M S (Unit {0})
  unfolding cond dbf_16 branch
  dbcc_16 condition = do
    holds ← gets (λ c. cond condition c.flags)
    if holds then branch 2 else dbf_16

  unfoldable pub scc_8_mem : Condition → Mode → M S (Unit {0})
  unfolding ea_of cond write
  scc_8_mem condition mode = do
    ea ← ea_of byte ay mode
    holds ← gets (λ c. cond condition c.flags)
    write byte ea (if holds then 0xff else 0)

  unfoldable pub bra_8 : M S (Unit {0})
  unfolding branch_byte idle_loop
  bra_8 = do branch_byte; idle_loop

  unfoldable pub bra_16 : M S (Unit {0})
  unfolding branch_word idle_loop
  bra_16 = do branch_word; idle_loop

  unfoldable pub bra_32 : M S (Unit {0})
  unfolding branch_long idle_loop bra_8
  bra_32 = do
    cpu_type ← gets (λ c. c.cpu_type)
    if is_ec020_plus cpu_type then (do branch_long; idle_loop) else bra_8

  unfoldable pub push_pc : M S (Unit {0})
  unfolding push
  push_pc = do pc ← gets (λ c. c.pc); push long pc

  unfoldable pub bsr_8 : M S (Unit {0})
  unfolding push_pc branch_byte
  bsr_8 = do push_pc; branch_byte

  unfoldable pub bsr_16 : M S (Unit {0})
  unfolding oper_i push_pc back branch
  bsr_16 = do offset ← oper_i word; push_pc; back 2; branch (sext16 offset)

  unfoldable pub bsr_32 : M S (Unit {0})
  unfolding oper_i push_pc back branch bsr_8
  bsr_32 = do
    cpu_type ← gets (λ c. c.cpu_type)
    if is_ec020_plus cpu_type
        then (do offset ← oper_i long; push_pc; back 4; branch offset)
        else bsr_8

  unfoldable pub jmp_32 : Mode → M S (Unit {0})
  unfolding ea_of jump idle_loop
  jmp_32 mode = do ea ← ea_of long ay mode; jump ea; idle_loop

  unfoldable pub jsr_32 : Mode → M S (Unit {0})
  unfolding ea_of push_pc jump
  jsr_32 mode = do ea ← ea_of long ay mode; push_pc; jump ea

  unfoldable pub rts_32 : M S (Unit {0})
  unfolding pull jump
  rts_32 = do new_pc ← pull long; jump new_pc

  unfoldable pub rtr_32 : M S (Unit {0})
  unfolding pull set_ccr set_flags jump
  rtr_32 = do ccr ← pull word; set_flags (set_ccr ccr); new_pc ← pull long; jump new_pc

  -- `REG_A[7] = MASK_OUT_ABOVE_32(REG_A[7] + n)`.
  add_to_stack : ℕ → M S (Unit {0})
  unfolding set_da
  add_to_stack n = do sp ← gets (λ c. c.dar 15); set_da 15 (u32 (sp + n))

  unfoldable pub rtd_32 : M S (Unit {0})
  unfolding pull oper_i add_to_stack jump illegal
  rtd_32 = do
    cpu_type ← gets (λ c. c.cpu_type)
    let return = (do new_pc ← pull long; n ← oper_i word; add_to_stack (sext16 n); jump new_pc)
    if is_010_plus cpu_type then return else illegal

  -- The frame of LINK on the stack of another register.
  link_frame : M S (Unit {0})
  unfolding push set_da
  link_frame = do
    n ← gets ay
    old ← gets (λ c. c.dar n)
    push long old
    sp ← gets (λ c. c.dar 15)
    set_da n sp

  -- LINK through A7 stores the register after it has been decremented.
  link_frame_a7 : M S (Unit {0})
  unfolding set_da write
  link_frame_a7 = do sp ← gets (λ c. sub32 (c.dar 15) 4); set_da 15 sp; write long sp sp

  unfoldable pub link_16_a7 : M S (Unit {0})
  unfolding link_frame_a7 oper_i add_to_stack
  link_16_a7 = do link_frame_a7; n ← oper_i word; add_to_stack (sext16 n)

  unfoldable pub link_16 : M S (Unit {0})
  unfolding link_frame oper_i add_to_stack
  link_16 = do link_frame; n ← oper_i word; add_to_stack (sext16 n)

  unfoldable pub link_32_a7 : M S (Unit {0})
  unfolding link_frame_a7 oper_i add_to_stack illegal
  link_32_a7 = do
    cpu_type ← gets (λ c. c.cpu_type)
    if is_ec020_plus cpu_type then (do link_frame_a7; n ← oper_i long; add_to_stack n) else illegal

  unfoldable pub link_32 : M S (Unit {0})
  unfolding link_frame oper_i add_to_stack illegal
  link_32 = do
    cpu_type ← gets (λ c. c.cpu_type)
    if is_ec020_plus cpu_type then (do link_frame; n ← oper_i long; add_to_stack n) else illegal

  unfoldable pub unlk_32_a7 : M S (Unit {0})
  unfolding read set_da
  unlk_32_a7 = do sp ← gets (λ c. c.dar 15); value ← read long sp; set_da 15 value

  unfoldable pub unlk_32 : M S (Unit {0})
  unfolding pull set_da
  unlk_32 = do
    n ← gets ay
    frame ← gets (λ c. c.dar n)
    set_da 15 frame
    value ← pull long
    set_da n value
