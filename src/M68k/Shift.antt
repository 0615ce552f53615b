-- ===== src/M68k/Shift.antt =====
-- LSL and LSR on registers, the handlers m68k_op_lsl_…_r, lsl_…_s, lsr_…_r and lsr_…_s of
-- m68kops.c: first what they compute for a count, then the handlers. A shift whose result the code
-- does not use is not computed.
use cute_mac.Base.{
  ℕ, ◌+◌, ◌-◌, ◌*◌, ◌/◌, ◌%◌, ◌^◌, bit_and, Bool, ◌&&◌, not, leb, ◌==◌, if◌then◌else◌, u32, shl32,
  ◌>>>◌,
}
use cute_mac.M68k.Flags.{Size, byte, word, long, Flags, mask_out_above, nflag}
use cute_mac.M68k.Cpu.{Cpu, M, ◌>>=◌, ◌>>◌, gets, when, is_010_less, use_cycles, set_da}
use cute_mac.M68k.Ea.{dx, dy}
use cute_mac.M68k.Alu.{Result}
use cute_mac.M68k.Ops.{merge, quick, set_flags}
pub mod Laws
pub mod Right
pub mod Memory
pub mod Immediate

abbrev pub shifted : Size → ℕ → ℕ → Flags → Result
shifted size value carry f = record {
  value = value;
  flags = record { x = carry; n = nflag size value; not_z = value; v = 0; c = carry };
}

-- A count of 0 changes no register, and X is as before.
abbrev pub not_shifted : Size → ℕ → Flags → Result
not_shifted size src f = record {
  value = src;
  flags = record { x = f.x; n = nflag size src; not_z = src; v = 0; c = 0 };
}

-- The word that the code assigns to X and C.
abbrev pub carry_right : Size → ℕ → ℕ → ℕ
carry_right byte count src = shl32 src (9 - count)
carry_right word count src = shl32 (src >>> (count - 1)) 8
carry_right long count src = shl32 (src >>> (count - 1)) 8

abbrev pub carry_left : Size → ℕ → ℕ → ℕ
carry_left byte count src = shl32 src count
carry_left word count src = shl32 src count >>> 8
carry_left long count src = shl32 (src >>> (32 - count)) 8

-- The greatest count that the code shifts by.
abbrev pub greatest : Size → ℕ
greatest byte = 8
greatest word = 16
greatest long = 31

-- The carry of a long shift by 32 is the bit that is shifted out last.
abbrev pub carry_beyond : Size → ℕ → ℕ → ℕ
carry_beyond long count last = if count == 32 then last else 0
carry_beyond size count last = 0

unfoldable pub alu_lsr : Size → ℕ → ℕ → Flags → Result
alu_lsr size count src f =
    if count == 0
    then not_shifted size src f
    else if leb count (greatest size)
    then record {
      value = src >>> count;
      flags = record {
        x = carry_right size count src;
        n = 0;
        not_z = src >>> count;
        v = 0;
        c = carry_right size count src;
      };
    }
    else shifted size 0 (carry_beyond size count (bit_and src 0x80000000 >>> 23)) f

unfoldable pub alu_lsl : Size → ℕ → ℕ → Flags → Result
alu_lsl size count src f =
    if count == 0
    then not_shifted size src f
    else if leb count (greatest size)
    then shifted size (mask_out_above size (shl32 src count)) (carry_left size count src) f
    else shifted size 0 (carry_beyond size count (shl32 (bit_and src 1) 8)) f

-- The forms with a count of 1 to 8 in the instruction.
unfoldable pub alu_lsr_s : Size → ℕ → ℕ → Flags → Result
alu_lsr_s size count src f =
    let carry = shl32 src (9 - count) in
    record {
      value = src >>> count;
      flags = record { x = carry; n = 0; not_z = src >>> count; v = 0; c = carry };
    }

abbrev pub carry_left_s : Size → ℕ → ℕ → ℕ
carry_left_s byte count src = shl32 src count
carry_left_s word count src = src >>> (8 - count)
carry_left_s long count src = src >>> (24 - count)

unfoldable pub alu_lsl_s : Size → ℕ → ℕ → Flags → Result
alu_lsl_s size count src f =
    shifted size (mask_out_above size (shl32 src count)) (carry_left_s size count src) f

module _ {S : Type 0} where
  -- `shift << CYC_SHIFT`, on the 68000 and 68010 only.
  shift_cycles : ℕ → M S (Unit {0})
  unfolding use_cycles
  shift_cycles count = do
    early ← gets (λ c. is_010_less c.cpu_type && not (count == 0))
    n ← gets (λ c. shl32 count c.timing.shift)
    when early (use_cycles n)

  shift_by : (Cpu S → ℕ) → Size → (Size → ℕ → ℕ → Flags → Result) → M S (Unit {0})
  unfolding shift_cycles set_da set_flags
  shift_by counted size operation = do
    count ← gets counted
    n ← gets dy
    old ← gets (λ c. c.dar n)
    f ← gets (λ c. c.flags)
    let result = operation size count (mask_out_above size old) f
    shift_cycles count
    set_da n (merge size old result.value)
    set_flags result.flags

  -- The count is `DX & 0x3f`.
  unfoldable pub lsr_r : Size → M S (Unit {0})
  unfolding shift_by
  lsr_r size = shift_by (λ c. bit_and (c.dar (dx c)) 0x3f) size alu_lsr

  unfoldable pub lsl_r : Size → M S (Unit {0})
  unfolding shift_by
  lsl_r size = shift_by (λ c. bit_and (c.dar (dx c)) 0x3f) size alu_lsl

  -- The count is in the instruction.
  unfoldable pub lsr_s : Size → M S (Unit {0})
  unfolding shift_by
  lsr_s size = shift_by quick size alu_lsr_s

  unfoldable pub lsl_s : Size → M S (Unit {0})
  unfolding shift_by
  lsl_s size = shift_by quick size alu_lsl_s
