-- ===== src/M68k/Ea.antt =====
-- Operands: the registers that an opcode names, the EA_… and OPER_… macros of m68kcpu.h, and the
-- indexed addressing modes.
use cute_mac.Base.{
  ℕ, ◌+◌, ◌^◌, bit_and, Bool, true, false, ◌||◌, ◌==◌, not, if◌then◌else◌, u32, sub32, shl32, sext8,
  sext16, ◌>>>◌,
}
use cute_mac.M68k.Flags.{Size, byte, word, long, mask_out_above}
use cute_mac.M68k.Cpu.{
  Cpu, Host, M, pure, ◌>>=◌, ◌>>◌, gets, modify, is_010_less, is_ec020_plus, set_da, use_cycles,
}
use cute_mac.M68k.Memory.{
  read, read_program, read_imm_8, read_imm_16, read_imm_32, bytes, function_code_user_program,
}

-- The modes of the handlers' names. `pi7` and `pd7` are the byte accesses through A7, which move
-- it by 2.
pub data Mode : Type 0 where
  ai pi pi7 pd pd7 di ix aw al pcdi pcix : Mode

-- A source operand: Dn, An, memory, or immediate.
pub data Operand : Type 0 where
  data_reg addr_reg imm : Operand
  mem : Mode → Operand

-- BIT_k.
abbrev pub has_bit : ℕ → ℕ → Bool
has_bit k x = not (bit_and x (2 ^ k) == 0)

-- The brief format of the 68000, and that of the later types, which scale the index.
brief_format : ℕ → ℕ → ℕ → ℕ → ℕ
brief_format cpu_type an extension index =
    let xn = if is_ec020_plus cpu_type then shl32 index (bit_and (extension >>> 9) 3) else index in
    if is_010_less cpu_type
    then u32 (an + index + sext8 extension)
    else u32 (an + xn + sext8 extension)

abbrev pub is_pc_relative : Mode → Bool
is_pc_relative pcdi = true
is_pc_relative pcix = true
is_pc_relative _ = false

module _ {S : Type 0} where
  -- The numbers in `dar` of DX, DY, AX and AY.
  abbrev pub dx : Cpu S → ℕ
  dx c = bit_and (c.ir >>> 9) 7

  abbrev pub dy : Cpu S → ℕ
  dy c = bit_and c.ir 7

  abbrev pub ax : Cpu S → ℕ
  ax c = 8 + bit_and (c.ir >>> 9) 7

  abbrev pub ay : Cpu S → ℕ
  ay c = 8 + bit_and c.ir 7

  -- EA_AY_PI_…, EA_AX_PI_… and EA_A7_PI_8, for the register and the step.
  unfoldable pub post_increment : ℕ → ℕ → M S ℕ
  unfolding set_da
  post_increment r step = do
    address ← gets (λ c. c.dar r)
    set_da r (u32 (address + step))
    pure (sub32 (u32 (address + step)) step)

  -- EA_AY_PD_…, EA_AX_PD_… and EA_A7_PD_8.
  unfoldable pub pre_decrement : ℕ → ℕ → M S ℕ
  unfolding set_da
  pre_decrement r step = do
    address ← gets (λ c. c.dar r)
    set_da r (sub32 address step)
    pure (sub32 address step)

  -- The index register of an extension word: its low word sign extended, or the whole of it.
  unfoldable pub index_register : ℕ → Cpu S → ℕ
  index_register extension c =
      let xn = c.dar (extension >>> 12) in if has_bit 11 extension then xn else sext16 xn

module _ {S : Type 0} ⦃host : Host S⦄ where
  -- A displacement of the full format, absent, a word or a long.
  displacement : Bool → Bool → M S ℕ
  unfolding read_imm_16 read_imm_32
  displacement false is_long = pure 0
  displacement true true = read_imm_32
  displacement true false = do value ← read_imm_16; pure (sext16 value)

  -- The address from the base, index and displacements, with the memory indirection.
  indirection : ℕ → ℕ → ℕ → ℕ → M S ℕ
  unfolding displacement read
  indirection extension an bd xn =
      if bit_and extension 7 == 0 then pure (u32 (an + bd + xn)) else (do
        od ← displacement (has_bit 1 extension) (has_bit 0 extension)
        let post = has_bit 2 extension
        base ← read long (if post then u32 (an + bd) else u32 (an + bd + xn))
        pure (if post then u32 (base + xn + od) else u32 (base + od)))

  full_format : ℕ → ℕ → M S ℕ
  unfolding index_register indirection displacement use_cycles
  full_format an extension = do
    clocks ← gets (λ c. c.timing.ea_idx (bit_and extension 0x3f))
    use_cycles clocks
    index ← gets (index_register extension)
    let xn = if has_bit 6 extension then 0 else shl32 index (bit_and (extension >>> 9) 3)
    bd ← displacement (has_bit 5 extension) (has_bit 4 extension)
    indirection extension (if has_bit 7 extension then 0 else an) bd xn

  -- m68ki_get_ea_ix.
  unfoldable pub get_ea_ix : ℕ → M S ℕ
  unfolding read_imm_16 index_register full_format brief_format
  get_ea_ix an = do
    extension ← read_imm_16
    cpu_type ← gets (λ c. c.cpu_type)
    index ← gets (index_register extension)
    let brief = pure (brief_format cpu_type an extension index)
    if is_010_less cpu_type || not (has_bit 8 extension) then brief else full_format an extension

  -- m68ki_get_ea_pcdi; the program counter before the displacement is read.
  unfoldable pub get_ea_pcdi : M S ℕ
  unfolding read_imm_16
  get_ea_pcdi = do
    old_pc ← gets (λ c. c.pc)
    modify λ c. record c { address_space = function_code_user_program }
    offset ← read_imm_16
    pure (u32 (old_pc + sext16 offset))

  -- m68ki_get_ea_pcix.
  unfoldable pub get_ea_pcix : M S ℕ
  unfolding get_ea_ix
  get_ea_pcix = do
    modify λ c. record c { address_space = function_code_user_program }
    base ← gets (λ c. c.pc)
    get_ea_ix base

  -- EA_AY_…, EA_A7_…, EA_AW_…, EA_AL_…, EA_PCDI_… and EA_PCIX_…; `r` is the address register,
  -- AY or AX.
  unfoldable pub ea_of : Size → (Cpu S → ℕ) → Mode → M S ℕ
  unfolding post_increment pre_decrement read_imm_16 read_imm_32 get_ea_ix get_ea_pcdi get_ea_pcix
  ea_of size r ai = gets (λ c. c.dar (r c))
  ea_of size r pi = gets r >>= λ n. post_increment n (bytes size)
  ea_of size r pi7 = post_increment 15 2
  ea_of size r pd = gets r >>= λ n. pre_decrement n (bytes size)
  ea_of size r pd7 = pre_decrement 15 2
  ea_of size r di = do
    base ← gets (λ c. c.dar (r c))
    offset ← read_imm_16
    pure (u32 (base + sext16 offset))
  ea_of size r ix = gets (λ c. c.dar (r c)) >>= get_ea_ix
  ea_of size r aw = do offset ← read_imm_16; pure (sext16 offset)
  ea_of size r al = read_imm_32
  ea_of size r pcdi = get_ea_pcdi
  ea_of size r pcix = get_ea_pcix

  -- OPER_AY_… and its kin: the address, then the operand there, which the modes relative to the
  -- program counter read from program space.
  unfoldable pub oper_of : Size → (Cpu S → ℕ) → Mode → M S ℕ
  unfolding ea_of read read_program
  oper_of size r mode = do
    address ← ea_of size r mode
    if is_pc_relative mode then read_program size address else read size address

  -- OPER_I_8, _16 and _32.
  unfoldable pub oper_i : Size → M S ℕ
  unfolding read_imm_8 read_imm_16 read_imm_32
  oper_i byte = read_imm_8
  oper_i word = read_imm_16
  oper_i long = read_imm_32

  -- The source operand of the handlers that name DY, AY, memory through AY, or the immediate.
  unfoldable pub source : Size → Operand → M S ℕ
  unfolding oper_of oper_i
  source size data_reg = gets (λ c. mask_out_above size (c.dar (dy c)))
  source size addr_reg = gets (λ c. mask_out_above size (c.dar (ay c)))
  source size imm = oper_i size
  source size (mem mode) = oper_of size ay mode
