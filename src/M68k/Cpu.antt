-- ===== src/M68k/Cpu.antt =====
-- The state of the processor (`m68ki_cpu_core` and the globals beside it in m68kcpu.h), what the
-- engine asks of the host, and the ways in which a handler ends: it returns, or it leaves by
-- `longjmp` to the loop of `m68k_execute` with an address error or a bus error.
use cute_mac.Base.{◌≡◌, ap, ℕ, Bool, ◌==◌, if◌then◌else◌, bit_and, sub32, u32, not}
use cute_mac.M68k.Flags.{Size, Flags}

-- The clocks of instructions and exceptions, `cyc_…` of the structure, and
-- m68ki_ea_idx_cycle_table.
pub record Timing : Type 0 where
  pub bcc_notake_b : ℕ
  pub bcc_notake_w : ℕ
  pub dbcc_f_noexp : ℕ
  pub dbcc_f_exp : ℕ
  pub scc_r_true : ℕ
  pub movem_w : ℕ
  pub movem_l : ℕ
  pub shift : ℕ
  pub reset : ℕ
  pub instruction : ℕ → ℕ
  pub exception : ℕ → ℕ
  pub ea_idx : ℕ → ℕ

-- `mmu_fault_address`, `mmu_fault_fc`, `mmu_fault_rw`, `mmu_fault_size` and `mmu_fault_is_mmu`.
pub record Fault : Type 0 where
  pub address : ℕ
  pub fc : ℕ
  pub rw_bit : Bool
  pub size : ℕ
  pub is_mmu : Bool

-- `S` is the state of the machine behind the bus. `remaining_cycles` is a signed word, kept as
-- its bit pattern; `function_code` is what the host was last told by `m68ki_set_fc`.
pub record Cpu (S : Type 0) : Type 0 where
  pub cpu_type : ℕ
  pub dar : ℕ → ℕ
  pub dar_save : ℕ → ℕ
  pub ppc : ℕ
  pub pc : ℕ
  pub sp : ℕ → ℕ
  pub vbr : ℕ
  pub ir : ℕ
  pub t1_flag : ℕ
  pub t0_flag : ℕ
  pub s_flag : ℕ
  pub m_flag : ℕ
  pub flags : Flags
  pub int_mask : ℕ
  pub int_level : ℕ
  pub stopped : ℕ
  pub pref_addr : ℕ
  pub pref_data : ℕ
  pub address_mask : ℕ
  pub sr_mask : ℕ
  pub instr_mode : ℕ
  pub run_mode : ℕ
  pub has_pmmu : Bool
  pub pmmu_enabled : Bool
  pub mmu_kind : ℕ
  pub reset_cycles : ℕ
  pub timing : Timing
  pub virq_state : ℕ
  pub nmi_pending : Bool
  pub mmu_tablewalk : Bool
  pub mmu_tmp_sr : ℕ
  pub fault : Fault
  pub aerr_address : ℕ
  pub aerr_write_mode : ℕ
  pub aerr_fc : ℕ
  pub address_space : ℕ
  pub function_code : ℕ
  pub remaining_cycles : ℕ
  pub initial_cycles : ℕ
  pub bus : S

pub data Outcome (S A : Type 0) : Type 0 where
  ok : A → Cpu S → Outcome S A
  address_fault : Cpu S → Outcome S A
  bus_fault : Cpu S → Outcome S A

abbrev pub M : Type 0 → Type 0 → Type 0
M S A = Cpu S → Outcome S A

module _ {S : Type 0} where
  abbrev pub pure : {A : Type 0} → A → M S A
  pure a c = ok a c

  infixl 5 ◌>>=◌ ◌>>◌
  abbrev pub ◌>>=◌ : {A B : Type 0} → M S A → (A → M S B) → M S B
  ◌>>=◌ m f c = elim (m c) [
    | ok a c' ↦ f a c'
    | address_fault c' ↦ address_fault c'
    | bus_fault c' ↦ bus_fault c'
  ]

  abbrev pub ◌>>◌ : {B : Type 0} → M S (Unit {0}) → M S B → M S B
  m >> k = m >>= λ _. k

  -- A read of a register or a field, and an assignment.
  abbrev pub gets : {A : Type 0} → (Cpu S → A) → M S A
  gets f c = ok (f c) c

  abbrev pub modify : (Cpu S → Cpu S) → M S (Unit {0})
  modify f c = ok tt (f c)

  abbrev pub when : Bool → M S (Unit {0}) → M S (Unit {0})
  when b m = if b then m else pure tt

  abbrev pub after : {A B : Type 0} → Outcome S A → (A → M S B) → Outcome S B
  after o k = elim o [
    | ok a c' ↦ k a c'
    | address_fault c' ↦ address_fault c'
    | bus_fault c' ↦ bus_fault c'
  ]

  -- What comes after a statement that returns.
  pub then_lem :
      {A B : Type 0}
      → (k : A → M S B) → {o : Outcome S A} → {a : A} → {c : Cpu S} → o ≡ ok a c
      → after o k ≡ k a c
  then_lem k h = ap (λ o. after o k) h

-- The bus of M68kBus.h, with the two kinds of read (program and data space), the MMU's
-- `pmmu_translate_addr_fc_size`, and each access's error flag.
pub record Host (S : Type 0) : Type 0 where
  pub read_fetch : Size → ℕ → S → ℕ × Bool × S
  pub read_physical : Size → ℕ → S → ℕ × Bool × S
  pub write_physical : Size → ℕ → ℕ → S → Bool × S
  pub translate : ℕ → ℕ → ℕ → ℕ → M S ℕ

-- The processor types of m68kcpu.h, as single bits.
abbrev pub cpu_type_000 : ℕ
cpu_type_000 = 0x001

abbrev pub cpu_type_010 : ℕ
cpu_type_010 = 0x004

-- CPU_TYPE_IS_010_LESS, _EC020_PLUS and _040_PLUS test the type against a set of types.
abbrev pub is_type : ℕ → ℕ → Bool
is_type set t = not (bit_and t set == 0)

abbrev pub is_000 : ℕ → Bool
is_000 t = t == cpu_type_000

abbrev pub is_010 : ℕ → Bool
is_010 t = t == cpu_type_010

abbrev pub is_010_less : ℕ → Bool
is_010_less t = is_type 0x007 t

abbrev pub is_010_plus : ℕ → Bool
is_010_plus t = is_type 0x2fc t

abbrev pub is_ec020_plus : ℕ → Bool
is_ec020_plus t = is_type 0x2f8 t

abbrev pub is_040_plus : ℕ → Bool
is_040_plus t = is_type 0x280 t

-- An assignment to one register of a bank.
abbrev pub update : (ℕ → ℕ) → ℕ → ℕ → ℕ → ℕ
update regs i v j = if j == i then v else regs j

-- REG_SP is `dar[15]`.
abbrev pub stack_pointer : {S : Type 0} → Cpu S → ℕ
stack_pointer c = c.dar 15

module _ {S : Type 0} where
  unfoldable pub set_da : ℕ → ℕ → M S (Unit {0})
  set_da i v = modify λ c. record c { dar = update c.dar i v }

  -- USE_CYCLES.
  unfoldable pub use_cycles : ℕ → M S (Unit {0})
  use_cycles n = modify λ c. record c { remaining_cycles = sub32 c.remaining_cycles (u32 n) }
