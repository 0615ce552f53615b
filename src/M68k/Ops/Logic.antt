-- ===== src/M68k/Ops/Logic.antt =====
-- The handlers m68k_op_and_…, or_…, and eor_… of m68kops.c, by size; a family that differs in the addressing mode is one definition.
use cute_mac.Base.{ℕ, bit_and, bit_or, bit_xor, not32}
use cute_mac.M68k.Flags.{Size, byte, word, long, Flags, mask_out_above, nflag}
use cute_mac.M68k.Cpu.{Cpu, Host, M, ◌>>=◌, ◌>>◌, gets, set_da}
use cute_mac.M68k.Memory.{read, write}
use cute_mac.M68k.Ea.{Mode, Operand, dx, dy, ay, ea_of, source}
use cute_mac.M68k.Ops.{merge, set_flags}

-- The flags of a result that is moved or logical: X is kept, C and V are clear.
abbrev pub logic_flags : Size → ℕ → Flags → Flags
logic_flags size res f = record {
  x = f.x;
  n = nflag size res;
  not_z = mask_out_above size res;
  v = 0;
  c = 0;
}

-- 0xffffff00, 0xffff0000 and nothing: what the operand of AND keeps of the register.
abbrev pub kept_bits : Size → ℕ
kept_bits byte = 0xffffff00
kept_bits word = 0xffff0000
kept_bits long = 0

-- `DX &= src | 0xffffff00`, `DX |= src` and `DX ^= src`.
abbrev pub and_whole : Size → ℕ → ℕ → ℕ
and_whole size src old = bit_and old (bit_or src (kept_bits size))

abbrev pub not_whole : Size → ℕ → ℕ
not_whole size old = merge size old (mask_out_above size (not32 old))

module _ {S : Type 0} where
  unfoldable pub set_logic_flags : Size → ℕ → M S (Unit {0})
  unfolding set_flags
  set_logic_flags size res = do f ← gets (λ c. c.flags); set_flags (logic_flags size res f)

  -- A register is replaced, and the flags are those of its low part.
  unfoldable pub logic_reg : Size → (Cpu S → ℕ) → (ℕ → ℕ) → M S (Unit {0})
  unfolding set_logic_flags set_da
  logic_reg size r operation = do
    n ← gets r
    old ← gets (λ c. c.dar n)
    set_da n (operation old)
    set_logic_flags size (mask_out_above size (operation old))

module _ {S : Type 0} ⦃host : Host S⦄ where
  -- AND writes after its flags are set, the others before.
  unfoldable pub flags_then_write : Size → (ℕ → ℕ) → ℕ → M S (Unit {0})
  unfolding read write set_logic_flags
  flags_then_write size operation ea = do
    old ← read size ea
    set_logic_flags size (operation old)
    write size ea (mask_out_above size (operation old))

  unfoldable pub write_then_flags : Size → (ℕ → ℕ) → ℕ → M S (Unit {0})
  unfolding read write set_logic_flags
  write_then_flags size operation ea = do
    old ← read size ea
    write size ea (mask_out_above size (operation old))
    set_logic_flags size (mask_out_above size (operation old))

  and_er : Size → Operand → M S (Unit {0})
  unfolding source logic_reg
  and_er size operand = do src ← source size operand; logic_reg size dx (and_whole size src)

  unfoldable pub and_8_er : Operand → M S (Unit {0})
  unfolding and_er
  and_8_er operand = and_er byte operand

  unfoldable pub and_16_er : Operand → M S (Unit {0})
  unfolding and_er
  and_16_er operand = and_er word operand

  unfoldable pub and_32_er : Operand → M S (Unit {0})
  unfolding and_er
  and_32_er operand = and_er long operand

  or_er : Size → Operand → M S (Unit {0})
  unfolding source logic_reg
  or_er size operand = do src ← source size operand; logic_reg size dx (λ old. bit_or old src)

  unfoldable pub or_8_er : Operand → M S (Unit {0})
  unfolding or_er
  or_8_er operand = or_er byte operand

  unfoldable pub or_16_er : Operand → M S (Unit {0})
  unfolding or_er
  or_16_er operand = or_er word operand

  unfoldable pub or_32_er : Operand → M S (Unit {0})
  unfolding or_er
  or_32_er operand = or_er long operand

  and_re : Size → Mode → M S (Unit {0})
  unfolding ea_of flags_then_write
  and_re size mode = do
    ea ← ea_of size ay mode
    src ← gets (λ c. c.dar (dx c))
    flags_then_write size (bit_and src) ea

  unfoldable pub and_8_re : Mode → M S (Unit {0})
  unfolding and_re
  and_8_re operand = and_re byte operand

  unfoldable pub and_16_re : Mode → M S (Unit {0})
  unfolding and_re
  and_16_re operand = and_re word operand

  unfoldable pub and_32_re : Mode → M S (Unit {0})
  unfolding and_re
  and_32_re operand = and_re long operand

  or_re : Size → Mode → M S (Unit {0})
  unfolding ea_of write_then_flags
  or_re size mode = do
    ea ← ea_of size ay mode
    src ← gets (λ c. c.dar (dx c))
    write_then_flags size (bit_or src) ea

  unfoldable pub or_8_re : Mode → M S (Unit {0})
  unfolding or_re
  or_8_re operand = or_re byte operand

  unfoldable pub or_16_re : Mode → M S (Unit {0})
  unfolding or_re
  or_16_re operand = or_re word operand

  unfoldable pub or_32_re : Mode → M S (Unit {0})
  unfolding or_re
  or_32_re operand = or_re long operand

  eor_d : Size → M S (Unit {0})
  unfolding logic_reg
  eor_d size = do
    src ← gets (λ c. mask_out_above size (c.dar (dx c)))
    logic_reg size dy (λ old. bit_xor old src)

  eor_mem : Size → Mode → M S (Unit {0})
  unfolding ea_of write_then_flags
  eor_mem size mode = do
    ea ← ea_of size ay mode
    src ← gets (λ c. c.dar (dx c))
    write_then_flags size (bit_xor src) ea

  eor : Size → Operand → M S (Unit {0})
  unfolding eor_d eor_mem
  eor size (Operand.mem mode) = eor_mem size mode
  eor size _ = eor_d size

  unfoldable pub eor_8 : Operand → M S (Unit {0})
  unfolding eor
  eor_8 operand = eor byte operand

  unfoldable pub eor_16 : Operand → M S (Unit {0})
  unfolding eor
  eor_16 operand = eor word operand

  unfoldable pub eor_32 : Operand → M S (Unit {0})
  unfolding eor
  eor_32 operand = eor long operand
