-- ===== src/M68k/Frames.antt =====
-- The stack frames of m68kcpu.h, each pushed from its highest address down.
use cute_mac.Base.{ℕ, zero, suc, bit_or, if◌then◌else◌, shl32}
use cute_mac.M68k.Flags.{word, long}
use cute_mac.M68k.Cpu.{Host, M, pure, ◌>>=◌, ◌>>◌, gets, is_000}
use cute_mac.M68k.Memory.{push, fake_push}

module _ {S : Type 0} where
  unfoldable pub fake_push_longs : ℕ → M S (Unit {0})
  unfolding fake_push
  fake_push_longs zero = pure tt
  fake_push_longs (suc n) = fake_push long >> fake_push_longs n

module _ {S : Type 0} ⦃host : Host S⦄ where
  -- The words of a frame whose pushed value is 0.
  unfoldable pub push_zero_longs : ℕ → M S (Unit {0})
  unfolding push
  push_zero_longs zero = pure tt
  push_zero_longs (suc n) = push long 0 >> push_zero_longs n

  unfoldable pub stack_frame_3word : ℕ → ℕ → M S (Unit {0})
  unfolding push
  stack_frame_3word pc sr = do push long pc; push word sr

  unfoldable pub stack_frame_0000 : ℕ → ℕ → ℕ → M S (Unit {0})
  unfolding stack_frame_3word push
  stack_frame_0000 pc sr vector = do
    short ← gets (λ c. is_000 c.cpu_type)
    if short
        then stack_frame_3word pc sr
        else (do push word (shl32 vector 2); push long pc; push word sr)

  unfoldable pub stack_frame_0001 : ℕ → ℕ → ℕ → M S (Unit {0})
  unfolding push
  stack_frame_0001 pc sr vector = do
    push word (bit_or 0x1000 (shl32 vector 2))
    push long pc
    push word sr

  unfoldable pub stack_frame_0010 : ℕ → ℕ → M S (Unit {0})
  unfolding push
  stack_frame_0010 sr vector = do
    ppc ← gets (λ c. c.ppc)
    push long ppc
    push word (bit_or 0x2000 (shl32 vector 2))
    pc ← gets (λ c. c.pc)
    push long pc
    push word sr

  unfoldable pub stack_frame_buserr : ℕ → M S (Unit {0})
  unfolding push
  stack_frame_buserr sr = do
    pc ← gets (λ c. c.pc)
    push long pc
    push word sr
    ir ← gets (λ c. c.ir)
    push word ir
    address ← gets (λ c. c.aerr_address)
    push long address
    info ← gets (λ c. bit_or c.aerr_write_mode (bit_or c.instr_mode c.aerr_fc))
    push word info

  unfoldable pub stack_frame_1000 : ℕ → ℕ → ℕ → M S (Unit {0})
  unfolding push fake_push fake_push_longs
  stack_frame_1000 pc sr vector = do
    fake_push_longs 8
    push word 0
    fake_push word
    push word 0
    fake_push word
    push word 0
    fake_push word
    push long 0
    push word 0
    push word (bit_or 0x8000 (shl32 vector 2))
    push long pc
    push word sr

  -- The frame of a short access fault on the 68020 and 68030.
  unfoldable pub stack_frame_1010 : ℕ → ℕ → ℕ → ℕ → ℕ → M S (Unit {0})
  unfolding push
  stack_frame_1010 sr vector pc fault_address ssw = do
    push word 0
    push word 0
    push long 0
    push word 0
    push word 0
    push long fault_address
    push word 0
    push word 0
    push word ssw
    push word 0
    push word (bit_or 0xa000 (shl32 vector 2))
    push long pc
    push word sr

  -- The frame of a long access fault.
  unfoldable pub stack_frame_1011 : ℕ → ℕ → ℕ → ℕ → ℕ → M S (Unit {0})
  unfolding push push_zero_longs
  stack_frame_1011 sr vector pc fault_address ssw = do
    push_zero_longs 9
    push word 0
    push long 0
    push word 0
    push_zero_longs 6
    push word 0
    push word 0
    push long fault_address
    push word 0
    push word 0
    push word ssw
    push word 0
    push word (bit_or 0xb000 (shl32 vector 2))
    push long pc
    push word sr

  -- The frame of an access error on the 68040.
  unfoldable pub stack_frame_0111 : ℕ → ℕ → ℕ → ℕ → ℕ → M S (Unit {0})
  unfolding push fake_push_longs
  stack_frame_0111 sr vector pc fault_address ssw = do
    fake_push_longs 9
    push long fault_address
    push word 0
    push word 0
    push word 0
    push word ssw
    push long fault_address
    push word (bit_or 0x7000 (shl32 vector 2))
    push long pc
    push word sr
