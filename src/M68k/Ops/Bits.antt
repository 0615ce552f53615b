-- ===== src/M68k/Ops/Bits.antt =====
-- The handlers m68k_op_btst_…, bset_…, bclr_… and bchg_… of m68kops.c, with the bit in a register
-- (r) or in the instruction (s), and exg_32_….
use cute_mac.Base.{ℕ, bit_and, bit_or, bit_xor, not32, shl32}
use cute_mac.M68k.Flags.{byte}
use cute_mac.M68k.Cpu.{Cpu, Host, M, ◌>>=◌, ◌>>◌, gets, set_da}
use cute_mac.M68k.Memory.{read, write}
use cute_mac.M68k.Ea.{Mode, Operand, mem, dx, dy, ax, ay, ea_of, oper_i, source}
use cute_mac.M68k.Ops.{set_flags}

-- `1 << (n & 7)` and `1 << (n & 0x1f)`.
abbrev pub byte_mask : ℕ → ℕ
byte_mask n = shl32 1 (bit_and n 7)

abbrev pub long_mask : ℕ → ℕ
long_mask n = shl32 1 (bit_and n 0x1f)

-- `src & ~mask`.
abbrev pub clear_bit : ℕ → ℕ → ℕ
clear_bit src mask = bit_and src (not32 mask)

module _ {S : Type 0} where
  -- `FLAG_Z = z`.
  unfoldable pub set_z : ℕ → M S (Unit {0})
  unfolding set_flags
  set_z z = do f ← gets (λ c. c.flags); set_flags (record f { not_z = z })

  -- A bit of DY is tested and changed.
  unfoldable pub change_register : (ℕ → ℕ → ℕ) → ℕ → M S (Unit {0})
  unfolding set_z set_da
  change_register change mask = do
    n ← gets dy
    old ← gets (λ c. c.dar n)
    set_z (bit_and old mask)
    set_da n (change old mask)

  unfoldable pub btst_32_r_d : M S (Unit {0})
  unfolding set_z
  btst_32_r_d = do z ← gets (λ c. bit_and (c.dar (dy c)) (long_mask (c.dar (dx c)))); set_z z

  unfoldable pub bset_32_r_d : M S (Unit {0})
  unfolding change_register
  bset_32_r_d = gets (λ c. long_mask (c.dar (dx c))) >>= change_register bit_or

  unfoldable pub bclr_32_r_d : M S (Unit {0})
  unfolding change_register
  bclr_32_r_d = gets (λ c. long_mask (c.dar (dx c))) >>= change_register clear_bit

  unfoldable pub bchg_32_r_d : M S (Unit {0})
  unfolding change_register
  bchg_32_r_d = gets (λ c. long_mask (c.dar (dx c))) >>= change_register bit_xor

  -- Two registers are exchanged.
  unfoldable pub exchange : (Cpu S → ℕ) → (Cpu S → ℕ) → M S (Unit {0})
  unfolding set_da
  exchange reg_a reg_b = do
    a ← gets reg_a
    b ← gets reg_b
    tmp ← gets (λ c. c.dar a)
    other ← gets (λ c. c.dar b)
    set_da a other
    set_da b tmp

  unfoldable pub exg_32_dd : M S (Unit {0})
  unfolding exchange
  exg_32_dd = exchange dx dy

  unfoldable pub exg_32_aa : M S (Unit {0})
  unfolding exchange
  exg_32_aa = exchange ax ay

  unfoldable pub exg_32_da : M S (Unit {0})
  unfolding exchange
  exg_32_da = exchange dx ay

module _ {S : Type 0} ⦃host : Host S⦄ where
  unfoldable pub btst_32_s_d : M S (Unit {0})
  unfolding oper_i set_z
  btst_32_s_d = do n ← oper_i byte; z ← gets (λ c. bit_and (c.dar (dy c)) (long_mask n)); set_z z

  unfoldable pub bset_32_s_d : M S (Unit {0})
  unfolding oper_i change_register
  bset_32_s_d = do n ← oper_i byte; change_register bit_or (long_mask n)

  unfoldable pub bclr_32_s_d : M S (Unit {0})
  unfolding oper_i change_register
  bclr_32_s_d = do n ← oper_i byte; change_register clear_bit (long_mask n)

  unfoldable pub bchg_32_s_d : M S (Unit {0})
  unfolding oper_i change_register
  bchg_32_s_d = do n ← oper_i byte; change_register bit_xor (long_mask n)

  -- The operand is in memory or immediate.
  unfoldable pub btst_8_r : Operand → M S (Unit {0})
  unfolding source set_z
  btst_8_r operand = do
    src ← source byte operand
    mask ← gets (λ c. byte_mask (c.dar (dx c)))
    set_z (bit_and src mask)

  unfoldable pub btst_8_s : Mode → M S (Unit {0})
  unfolding oper_i source set_z
  btst_8_s mode = do
    n ← oper_i byte
    src ← source byte (mem mode)
    set_z (bit_and src (byte_mask n))

  -- A bit of a byte in memory is tested and changed: the bit of DX, and the bit of the instruction.
  unfoldable pub change_r : (ℕ → ℕ → ℕ) → Mode → M S (Unit {0})
  unfolding ea_of read write set_z
  change_r change mode = do
    ea ← ea_of byte ay mode
    src ← read byte ea
    mask ← gets (λ c. byte_mask (c.dar (dx c)))
    set_z (bit_and src mask)
    write byte ea (change src mask)

  unfoldable pub change_s : (ℕ → ℕ → ℕ) → Mode → M S (Unit {0})
  unfolding oper_i ea_of read write set_z
  change_s change mode = do
    n ← oper_i byte
    let mask = byte_mask n
    ea ← ea_of byte ay mode
    src ← read byte ea
    set_z (bit_and src mask)
    write byte ea (change src mask)

  unfoldable pub bset_8_r : Mode → M S (Unit {0})
  unfolding change_r
  bset_8_r mode = change_r bit_or mode

  unfoldable pub bclr_8_r : Mode → M S (Unit {0})
  unfolding change_r
  bclr_8_r mode = change_r clear_bit mode

  unfoldable pub bchg_8_r : Mode → M S (Unit {0})
  unfolding change_r
  bchg_8_r mode = change_r bit_xor mode

  unfoldable pub bset_8_s : Mode → M S (Unit {0})
  unfolding change_s
  bset_8_s mode = change_s bit_or mode

  unfoldable pub bclr_8_s : Mode → M S (Unit {0})
  unfolding change_s
  bclr_8_s mode = change_s clear_bit mode

  unfoldable pub bchg_8_s : Mode → M S (Unit {0})
  unfolding change_s
  bchg_8_s mode = change_s bit_xor mode
