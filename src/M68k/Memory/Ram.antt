-- ===== src/M68k/Memory/Ram.antt =====
-- A bus with plain memory behind it, and what an access does there when the MMU is off.
use cute_mac.Base.{
  ℕ, Bool, ◌+◌, ◌-◌, ◌%◌, ◌^◌, ◌≤◌, ◌<◌, bit_and, bit_or, Bool, true, false, Bool-cases, inl, inr,
  u32, sub32, ◌≡◌, refl, ◌∙◌, arith, bit_and-pow,
}
use cute_mac.M68k.Flags.{Size, byte, word, long, mask_out_above}
use cute_mac.M68k.Cpu.{then_lem, Cpu, Host, ok, update, is_010_less}
use cute_mac.M68k.Memory.Layout.{peek, poke, mask_out_above-peek}
use cute_mac.M68k.Memory.{
  is_program_function_code, read_data, check_access, bytes, translated, write_memory, read_memory,
  read, write, push, pull, read_fc, function_code_user_data,
}

-- Every read and write succeeds, and they act on the bytes that `store` shows.
pub record IsRam {S : Type 0} (host : Host S) (store : S → ℕ → ℕ) : Type 0 where
  pub next : Size → ℕ → ℕ → S → S
  pub reads :
      (size : Size) (a : ℕ) (s : S)
      → host.read_physical size a s ≡ (peek size (store s) a, false, s)
  pub reads_program :
      (size : Size) (a : ℕ) (s : S) → host.read_fetch size a s ≡ (peek size (store s) a, false, s)
  pub writes :
      (size : Size) (a v : ℕ) (s : S) → host.write_physical size a v s ≡ (true, next size a v s)
  pub stores : (size : Size) (a v : ℕ) (s : S) → store (next size a v s) ≡ poke size (store s) a v

-- The MMU is off, and the addresses below `limit` are on the bus as they are.
pub record IsFlatAt (limit : ℕ) (has_pmmu : Bool) (address_mask : ℕ) : Type 0 where
  pub no_pmmu : has_pmmu ≡ false
  pub reach : (a : ℕ) → a < limit → bit_and a address_mask ≡ a

abbrev pub IsFlat : {S : Type 0} → ℕ → Cpu S → Type 0
IsFlat limit c = IsFlatAt limit c.has_pmmu c.address_mask

is_even : (a : ℕ) → a % 2 ≡ 0 → bit_and a 1 ≡ 0
is_even a h = omega (arith, bit_and-pow 0 a)

-- An even address is never an address error.
check_access_even :
    {S : Type 0}
    → (size : Size) (a mode fc : ℕ) (c : Cpu S) → a % 2 ≡ 0
    → check_access size a mode fc c ≡ ok tt c
unfolding check_access
check_access_even byte a mode fc c even = refl
check_access_even word a mode fc c even =
    rw (is_even a even)
      (elim (Bool-cases (is_010_less c.cpu_type)) [ inl t ↦ rw t refl | inr t ↦ rw t refl ])
check_access_even long a mode fc c even =
    rw (is_even a even)
      (elim (Bool-cases (is_010_less c.cpu_type)) [ inl t ↦ rw t refl | inr t ↦ rw t refl ])

bytes_pos : (size : Size) → 0 < bytes size
bytes_pos byte = omega arith
bytes_pos word = omega arith
bytes_pos long = omega arith

sub32-no_borrow : (a b : ℕ) → b ≤ a → a ≤ 2 ^ 32 → 0 < b → sub32 a b ≡ a - b
sub32-no_borrow a b le below pos = omega arith

pub u32-small : (a : ℕ) → a < 2 ^ 32 → u32 a ≡ a
u32-small a below = omega arith

sub32-add : (a b : ℕ) → a + b < 2 ^ 32 → sub32 (a + b) b ≡ a
sub32-add a b below = omega arith

module _ {S : Type 0} ⦃host : Host S⦄ (store : S → ℕ → ℕ) (ram : IsRam host store) where
  abbrev pub wrote : Size → ℕ → ℕ → Cpu S → Cpu S
  wrote size a v c = record c {
    function_code = bit_or c.s_flag function_code_user_data;
    bus = ram.next size a (mask_out_above size v) c.bus;
  }

  translated_flat :
      (size : Size) (a fc rw_bit : ℕ) (c : Cpu S)
      → c.has_pmmu ≡ false
      → translated size a fc rw_bit c ≡ ok a c
  unfolding translated
  translated_flat size a fc rw_bit c flat = rw flat refl

  write_memory_lem :
      (size : Size) (a v : ℕ) (c : Cpu S)
      → write_memory size a v c
        ≡ ok tt (record c { bus = ram.next size a (mask_out_above size v) c.bus })
  unfolding write_memory
  write_memory_lem size a v c = rw (ram.writes) refl

  pub write_lem :
      (size : Size) (limit a v : ℕ) (c : Cpu S)
      → IsFlat limit c
      → a < limit
      → a % 2 ≡ 0
      → write size a v c ≡ ok tt (wrote size a v c)
  unfolding write
  write_lem size limit a v c flat below even =
      let fc = bit_or c.s_flag function_code_user_data in
      let d = record c { function_code = fc } in
      then_lem _ (check_access_even size a 0 fc d even)
      ∙ then_lem _ (translated_flat size a fc 0 d flat.no_pmmu)
      ∙ rw (flat.reach a below) (write_memory_lem size a v d)

  read_memory_lem :
      (size : Size) (a : ℕ) (c : Cpu S) → read_memory size a c ≡ ok (peek size (store c.bus) a) c
  unfolding read_memory
  read_memory_lem size a c = elim (Bool-cases (is_program_function_code c)) [
    | inl t ↦ rw t (rw (ram.reads_program) (rw (mask_out_above-peek size (store c.bus) a) refl))
    | inr t ↦ rw t (rw (ram.reads) (rw (mask_out_above-peek size (store c.bus) a) refl))
  ]

  read_fc_lem :
      (size : Size) (limit a fc : ℕ) (c : Cpu S)
      → IsFlat limit c
      → a < limit
      → a % 2 ≡ 0
      → read_fc size a fc c ≡ ok (peek size (store c.bus) a) (record c { function_code = fc })
  unfolding read_fc
  read_fc_lem size limit a fc c flat below even =
      let d = record c { function_code = fc } in
      then_lem _ (check_access_even size a 0x10 fc d even)
      ∙ then_lem _ (translated_flat size a fc 1 d flat.no_pmmu)
      ∙ rw (flat.reach a below) (read_memory_lem size a d)

  pub read_lem :
      (size : Size) (limit a : ℕ) (c : Cpu S)
      → IsFlat limit c
      → a < limit
      → a % 2 ≡ 0
      → read size a c
        ≡ ok
            (peek size (store c.bus) a)
            (record c { function_code = bit_or c.s_flag c.address_space })
  unfolding read
  read_lem size limit a c flat below even = read_fc_lem size limit a _ c flat below even

  pub read_data_lem :
      (size : Size) (limit a : ℕ) (c : Cpu S)
      → IsFlat limit c
      → a < limit
      → a % 2 ≡ 0
      → read_data size a c
        ≡ ok
            (peek size (store c.bus) a)
            (record c { function_code = bit_or c.s_flag function_code_user_data })
  unfolding read_data
  read_data_lem size limit a c flat below even = read_fc_lem size limit a _ c flat below even

  -- The state after a push.
  abbrev pub pushed : Size → ℕ → Cpu S → Cpu S
  pushed size v c =
      let a = c.dar 15 - bytes size in wrote size a v (record c { dar = update c.dar 15 a })

  pub push_lem :
      (size : Size) (limit v : ℕ) (c : Cpu S)
      → IsFlat limit c
      → limit ≤ 2 ^ 32
      → bytes size ≤ c.dar 15
      → c.dar 15 ≤ limit
      → (c.dar 15 - bytes size) % 2 ≡ 0
      → push size v c ≡ ok tt (pushed size v c)
  unfolding push
  push_lem size limit v c flat top room below even =
      rw (sub32-no_borrow (c.dar 15) (bytes size) room (omega arith) (bytes_pos size)) (
        write_lem size limit (c.dar 15 - bytes size) v
          (record c { dar = update c.dar 15 (c.dar 15 - bytes size) }) flat
          (omega (arith, bytes_pos size)) even)

  -- The state after a pull.
  abbrev pub pulled : Size → Cpu S → Cpu S
  pulled size c = record c {
    dar = update c.dar 15 (c.dar 15 + bytes size);
    function_code = bit_or c.s_flag c.address_space;
  }

  pub pull_lem :
      (size : Size) (limit : ℕ) (c : Cpu S)
      → IsFlat limit c
      → limit ≤ 2 ^ 32
      → c.dar 15 + bytes size < limit
      → c.dar 15 % 2 ≡ 0
      → pull size c ≡ ok (peek size (store c.bus) (c.dar 15)) (pulled size c)
  unfolding pull
  pull_lem size limit c flat top below even = rw (u32-small (c.dar 15 + bytes size) (omega arith)) (
      rw (sub32-add (c.dar 15) (bytes size) (omega arith)) (
        read_lem size limit (c.dar 15) (record c { dar = update c.dar 15 (c.dar 15 + bytes size) })
          flat (omega (arith, bytes_pos size)) even))
