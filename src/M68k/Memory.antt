-- ===== src/M68k/Memory.antt =====
-- Memory accesses: `m68k_read_memory_…` and `m68k_write_memory_…` of M68kCpuCore.cpp with
-- `m68k_report_physical_bus_error`, the top level accesses and the immediate reads of m68kcpu.h,
-- and the stack.
use cute_mac.Base.{
  ℕ, ◌+◌, bit_and, bit_or, Bool, true, false, ◌&&◌, ◌||◌, ◌==◌, not, if◌then◌else◌, u32, sub32,
  shl32,
}
use cute_mac.M68k.Flags.{Size, byte, word, long, mask_out_above}
use cute_mac.M68k.Cpu.{
  Cpu, Host, ok, address_fault, bus_fault, M, pure, ◌>>=◌, ◌>>◌, gets, modify, when, stack_pointer,
  is_010_less, set_da,
}
pub mod Layout
pub mod Ram

abbrev pub function_code_user_data : ℕ
function_code_user_data = 1

abbrev pub function_code_user_program : ℕ
function_code_user_program = 2

abbrev pub run_mode_normal : ℕ
run_mode_normal = 0

abbrev pub run_mode_berr_aerr_reset_wsf : ℕ
run_mode_berr_aerr_reset_wsf = 1

abbrev pub run_mode_berr_aerr_reset : ℕ
run_mode_berr_aerr_reset = 2

abbrev pub stop_level_stop : ℕ
stop_level_stop = 1

abbrev pub stop_level_halt : ℕ
stop_level_halt = 2

abbrev pub mmu_kind_68040 : ℕ
mmu_kind_68040 = 3

abbrev pub bytes : Size → ℕ
bytes byte = 1
bytes word = 2
bytes long = 4

module _ {S : Type 0} where
  -- The start of m68ki_exception_bus_error: a fault while a stack frame is written halts the
  -- processor and returns; any other leaves for the loop, where the exception is processed.
  unfoldable pub raise_bus_error : M S (Unit {0})
  raise_bus_error c =
      if c.run_mode == run_mode_berr_aerr_reset_wsf
      then ok tt (record c { stopped = stop_level_halt })
      else bus_fault c

  unfoldable pub report_physical_bus_error : ℕ → Bool → ℕ → M S (Unit {0})
  unfolding raise_bus_error
  report_physical_bus_error address is_write size c =
      if c.mmu_tablewalk
      then ok tt (record c { mmu_tmp_sr = bit_or c.mmu_tmp_sr 0x8400 })
      else raise_bus_error (record c {
        fault = record {
          address = address;
          fc = bit_or c.s_flag function_code_user_data;
          rw_bit = not is_write;
          size = size;
          is_mmu = false;
        };
      })

  -- m68ki_set_fc calls `functionCodeChanged`.
  unfoldable pub set_fc : ℕ → M S (Unit {0})
  set_fc fc = modify λ c. record c { function_code = fc }

  unfoldable pub is_program_function_code : Cpu S → Bool
  is_program_function_code c = bit_and c.function_code 3 == 2

  -- m68ki_check_address_error.
  unfoldable pub check_address_error : ℕ → ℕ → ℕ → M S (Unit {0})
  check_address_error address write_mode fc c =
      if bit_and address 1 == 0
      then ok tt c
      else address_fault
          (record c { aerr_address = address; aerr_write_mode = write_mode; aerr_fc = fc })

  -- m68ki_check_address_error_010_less, and no check for a byte.
  unfoldable pub check_access : Size → ℕ → ℕ → ℕ → M S (Unit {0})
  unfolding check_address_error
  check_access byte address write_mode fc c = ok tt c
  check_access size address write_mode fc c =
      if is_010_less c.cpu_type then check_address_error address write_mode fc c else ok tt c

module _ {S : Type 0} ⦃host : Host S⦄ where
  unfoldable pub read_memory : Size → ℕ → M S ℕ
  unfolding is_program_function_code report_physical_bus_error
  read_memory size address c =
      let (value, bus_error, s) =
        if is_program_function_code c
        then host.read_fetch size address c.bus
        else host.read_physical size address c.bus in
      (do
        when bus_error (report_physical_bus_error address false (bytes size))
        pure (mask_out_above size value))
        (record c { bus = s })

  unfoldable pub write_memory : Size → ℕ → ℕ → M S (Unit {0})
  unfolding report_physical_bus_error
  write_memory size address value c =
      let (done, s) = host.write_physical size address (mask_out_above size value) c.bus in
      when (not done) (report_physical_bus_error address true (bytes size)) (record c { bus = s })

  -- The address after the MMU; `rw` is 1 for a read.
  unfoldable pub translated : Size → ℕ → ℕ → ℕ → M S ℕ
  translated size address fc rw_bit c =
      if c.has_pmmu && (c.pmmu_enabled || c.mmu_kind == mmu_kind_68040)
      then host.translate address fc rw_bit (bytes size) c
      else ok address c

  -- m68ki_read_8_fc, _16_fc and _32_fc; ADDRESS_68K masks the address.
  unfoldable pub read_fc : Size → ℕ → ℕ → M S ℕ
  unfolding set_fc translated read_memory
  read_fc size address fc = do
    set_fc fc
    check_access size address 0x10 fc
    physical ← translated size address fc 1
    mask ← gets (λ c. c.address_mask)
    read_memory size (bit_and physical mask)

  -- m68ki_write_8_fc, _16_fc and _32_fc.
  unfoldable pub write_fc : Size → ℕ → ℕ → ℕ → M S (Unit {0})
  unfolding set_fc translated write_memory
  write_fc size address fc value = do
    set_fc fc
    check_access size address 0 fc
    physical ← translated size address fc 0
    mask ← gets (λ c. c.address_mask)
    write_memory size (bit_and physical mask) value

  -- m68ki_read_8, _16 and _32.
  unfoldable pub read : Size → ℕ → M S ℕ
  unfolding read_fc
  read size address = do fc ← gets (λ c. bit_or c.s_flag c.address_space); read_fc size address fc

  -- m68ki_write_8, _16 and _32.
  unfoldable pub write : Size → ℕ → ℕ → M S (Unit {0})
  unfolding write_fc
  write size address value = do
    fc ← gets (λ c. bit_or c.s_flag function_code_user_data)
    write_fc size address fc value

  -- m68ki_read_program_…, which the reads relative to the program counter are.
  unfoldable pub read_program : Size → ℕ → M S ℕ
  unfolding read_fc
  read_program size address = do
    fc ← gets (λ c. bit_or c.s_flag function_code_user_program)
    read_fc size address fc

  -- m68ki_read_data_….
  unfoldable pub read_data : Size → ℕ → M S ℕ
  unfolding read_fc
  read_data size address = do
    fc ← gets (λ c. bit_or c.s_flag function_code_user_data)
    read_fc size address fc

  -- The prefetch queue holds the word at `pref_addr`.
  fill_prefetch : M S (Unit {0})
  unfolding read_program
  fill_prefetch = do
    modify λ c. record c { pref_addr = c.pc }
    address ← gets (λ c. bit_and c.pref_addr c.address_mask)
    word_read ← read_program word address
    modify λ c. record c { pref_data = word_read }

  -- One word of the instruction stream, by way of the prefetch queue.
  next_word : M S ℕ
  unfolding fill_prefetch
  next_word = do
    stale ← gets (λ c. not (c.pc == c.pref_addr))
    when stale fill_prefetch
    result ← gets (λ c. mask_out_above word c.pref_data)
    modify λ c. record c { pc = u32 (c.pc + 2) }
    fill_prefetch
    pure result

  check_pc : M S (Unit {0})
  unfolding set_fc check_address_error
  check_pc = do
    fc ← gets (λ c. bit_or c.s_flag function_code_user_program)
    set_fc fc
    address ← gets (λ c. c.pc)
    check_address_error address 0x10 fc

  unfoldable pub read_imm_16 : M S ℕ
  unfolding next_word check_pc
  read_imm_16 = do check_pc; next_word

  unfoldable pub read_imm_8 : M S ℕ
  unfolding read_imm_16
  read_imm_8 = do value ← read_imm_16; pure (mask_out_above byte value)

  -- The second word is taken from the queue as the first left it.
  unfoldable pub read_imm_32 : M S ℕ
  unfolding next_word check_pc fill_prefetch
  read_imm_32 = do
    check_pc
    high ← next_word
    low ← gets (λ c. mask_out_above word c.pref_data)
    modify λ c. record c { pc = u32 (c.pc + 2) }
    fill_prefetch
    pure (bit_or (shl32 high 16) low)

  -- m68ki_push_16 and m68ki_push_32.
  unfoldable pub push : Size → ℕ → M S (Unit {0})
  unfolding write set_da
  push size value = do
    address ← gets (λ c. sub32 (stack_pointer c) (bytes size))
    set_da 15 address
    write size address value

  -- m68ki_pull_16 and m68ki_pull_32; `REG_SP-2` is the stack pointer before.
  unfoldable pub pull : Size → M S ℕ
  unfolding read set_da
  pull size = do
    address ← gets stack_pointer
    set_da 15 (u32 (address + bytes size))
    read size (sub32 (u32 (address + bytes size)) (bytes size))

module _ {S : Type 0} where
  -- m68ki_fake_push_16 and m68ki_fake_push_32.
  unfoldable pub fake_push : Size → M S (Unit {0})
  unfolding set_da
  fake_push size = do address ← gets stack_pointer; set_da 15 (sub32 address (bytes size))

  -- m68ki_fake_pull_16 and m68ki_fake_pull_32.
  unfoldable pub fake_pull : Size → M S (Unit {0})
  unfolding set_da
  fake_pull size = do address ← gets stack_pointer; set_da 15 (u32 (address + bytes size))
