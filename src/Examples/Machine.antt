-- ===== src/Examples/Machine.antt =====
-- A 68000 and a 68020 in front of plain memory, for the examples.
use cute_mac.Base.{ℕ, false, true, refl, ◌∙◌, arith, bit_and-mask}
use cute_mac.M68k.Cpu.{Cpu, Host, Timing, ok}
use cute_mac.M68k.Memory.Layout.{peek, poke}
use cute_mac.M68k.Memory.Ram.{IsRam, IsFlatAt}

abbrev pub Bytes : Type 0
Bytes = ℕ → ℕ

instance pub ram_host : Host Bytes
ram_host = record {
  read_fetch = λ size a m. (peek size m a, false, m);
  read_physical = λ size a m. (peek size m a, false, m);
  write_physical = λ size a v m. (true, poke size m a v);
  translate = λ a fc rw_bit size c. ok a c;
}

abbrev pub shown : Bytes → ℕ → ℕ
shown m = m

pub ram_host-IsRam : IsRam ram_host shown
unfolding ram_host
ram_host-IsRam = record {
  next = λ size a v m. poke size m a v;
  reads = λ size a m. refl;
  reads_program = λ size a m. refl;
  writes = λ size a v m. refl;
  stores = λ size a v m. refl;
}

abbrev pub clocks : Timing
clocks = record {
  bcc_notake_b = 0;
  bcc_notake_w = 0;
  dbcc_f_noexp = 0;
  dbcc_f_exp = 0;
  scc_r_true = 0;
  movem_w = 2;
  movem_l = 3;
  shift = 1;
  reset = 132;
  instruction = λ opcode. 4;
  exception = λ vector. 34;
  ea_idx = λ extension. 0;
}

-- In supervisor mode, interrupts masked, the stack pointer at `sp` and the memory `bytes`.
abbrev pub machine : ℕ → ℕ → (ℕ → ℕ) → Cpu Bytes
machine cpu_type sp bytes = record {
  cpu_type = cpu_type;
  dar = λ i. sp;
  dar_save = λ i. 0;
  ppc = 0x400;
  pc = 0x402;
  sp = λ i. 0x3000;
  vbr = 0;
  ir = 0x4e73;
  t1_flag = 0;
  t0_flag = 0;
  s_flag = 4;
  m_flag = 0;
  flags = record { x = 0; n = 0; not_z = 1; v = 0; c = 0 };
  int_mask = 0x700;
  int_level = 0;
  stopped = 0;
  pref_addr = 0;
  pref_data = 0;
  address_mask = 0xffffff;
  sr_mask = 0xf71f;
  instr_mode = 0;
  run_mode = 0;
  has_pmmu = false;
  pmmu_enabled = false;
  mmu_kind = 0;
  reset_cycles = 0;
  timing = clocks;
  virq_state = 0;
  nmi_pending = false;
  mmu_tablewalk = false;
  mmu_tmp_sr = 0;
  fault = record { address = 0; fc = 0; rw_bit = false; size = 0; is_mmu = false };
  aerr_address = 0;
  aerr_write_mode = 0;
  aerr_fc = 0;
  address_space = 1;
  function_code = 0;
  remaining_cycles = 100;
  initial_cycles = 100;
  bus = bytes;
}

pub machine-IsFlatAt : IsFlatAt 0x100000 false 0xffffff
machine-IsFlatAt = record { no_pmmu = refl; reach = λ a below. bit_and-mask 24 a ∙ omega arith }
