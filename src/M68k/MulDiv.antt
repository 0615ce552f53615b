-- ===== src/M68k/MulDiv.antt =====
-- MULU, MULS, DIVU and DIVS with word operands, the handlers m68k_op_mulu_16_…, muls_16_…,
-- divu_16_… and divs_16_… of m68kops.c: first what they compute, then the handlers.
use cute_mac.Base.{
  ℕ, zero, suc, ◌+◌, ◌-◌, ◌*◌, ◌/◌, ◌%◌, ◌^◌, bit_or, Option, none, some, Bool, true, ◌&&◌, ◌==◌,
  ltb, leb, if◌then◌else◌, u32, sub32, shl32, sext16, ◌>>>◌, ℤ, pos, negsuc, quot, rem, int16,
  int32, word_of, same,
}
use cute_mac.M68k.Flags.{Size, word, long, Flags, mask_out_above, nflag}
use cute_mac.M68k.Cpu.{Host, M, pure, ◌>>=◌, ◌>>◌, gets, when, is_010_less, use_cycles, set_da}
use cute_mac.M68k.Ea.{Operand, dx, source}
use cute_mac.M68k.Alu.{Result}
use cute_mac.M68k.Ops.{set_flags}
use cute_mac.M68k.Exception.{exception_trap}
use cute_mac.M68k.Vectors.{exception_zero_divide}
pub mod Laws
pub mod Signed

-- The flags of a long result that cannot overflow.
abbrev pub product_flags : ℕ → Flags → Flags
product_flags res f = record { x = f.x; n = nflag long res; not_z = res; v = 0; c = 0 }

unfoldable pub alu_mulu : ℕ → ℕ → Flags → Result
alu_mulu src dst f =
    let res = u32 (src * mask_out_above word dst) in
    record { value = res; flags = product_flags res f }

unfoldable pub alu_muls : ℕ → ℕ → Flags → Result
alu_muls src dst f =
    let res = u32 (sext16 src * sext16 (mask_out_above word dst)) in
    record { value = res; flags = product_flags res f }

-- A quotient and a remainder in one register.
abbrev pub packed : ℕ → ℕ → ℕ
packed quotient remainder = u32 (bit_or (mask_out_above word quotient) (shl32 remainder 16))

abbrev pub quotient_flags : ℕ → Flags → Flags
quotient_flags quotient f = record { x = f.x; n = quotient >>> 8; not_z = quotient; v = 0; c = 0 }

abbrev overflow : ℕ → Flags → Result
overflow dst f = record {
  value = dst;
  flags = record { x = f.x; n = f.n; not_z = f.not_z; v = 0x80; c = f.c };
}

-- None where the divisor is 0, and the handler takes the exception.
unfoldable pub alu_divu : ℕ → ℕ → Flags → Option Result
alu_divu src dst f =
    if src == 0
    then none
    else if ltb (dst / src) 0x10000
    then some
        (record { value = packed (dst / src) (dst % src); flags = quotient_flags (dst / src) f })
    else some (overflow dst f)

unfoldable pub alu_divs : ℕ → ℕ → Flags → Option Result
alu_divs src dst f =
    if src == 0
    then none
    else if dst == 0x80000000 && src == 0xffff
    then some (record { value = 0; flags = record { x = f.x; n = 0; not_z = 0; v = 0; c = 0 } })
    else if same (quot (int32 dst) (int16 src)) (int16 (word_of (quot (int32 dst) (int16 src))))
    then some (record {
      value =
          packed (word_of (quot (int32 dst) (int16 src))) (word_of (rem (int32 dst) (int16 src)));
      flags = quotient_flags (word_of (quot (int32 dst) (int16 src))) f;
    })
    else some (overflow dst f)

-- The clocks of a multiplication on the 68000 and 68010: two for each set bit of an unsigned
-- operand, and for each change between neighbouring bits of a signed one.
unfoldable pub set_bit_clocks : ℕ → ℕ → ℕ
set_bit_clocks zero y = 0
set_bit_clocks (suc fuel) y =
    let later = set_bit_clocks fuel (y / 2) in
    if y == 0 then 0 else if y % 2 == 1 then 2 + later else later

unfoldable pub change_clocks : ℕ → ℕ → ℕ → ℕ
change_clocks zero last y = 0
change_clocks (suc fuel) last y =
    let later = change_clocks fuel (y % 2) (y / 2) in
    if y == 0 then 0 else if y % 2 == last then later else 2 + later

module _ {S : Type 0} where
  -- `*r_dst = …` and the flags.
  unfoldable pub store_result : Result → M S (Unit {0})
  unfolding set_flags set_da
  store_result result = do n ← gets dx; set_da n result.value; set_flags result.flags

module _ {S : Type 0} ⦃host : Host S⦄ where
  multiply : (ℕ → ℕ) → (ℕ → ℕ → Flags → Result) → Operand → M S (Unit {0})
  unfolding source use_cycles store_result
  multiply clocks operation operand = do
    src ← source word operand
    early ← gets (λ c. is_010_less c.cpu_type)
    when early (use_cycles (clocks src))
    result ← gets (λ c. operation src (c.dar (dx c)) c.flags)
    store_result result

  unfoldable pub mulu_16 : Operand → M S (Unit {0})
  unfolding multiply
  mulu_16 operand = multiply (set_bit_clocks 16) alu_mulu operand

  unfoldable pub muls_16 : Operand → M S (Unit {0})
  unfolding multiply
  muls_16 operand = multiply (λ src. change_clocks 32 0 (sext16 src)) alu_muls operand

  divide : (ℕ → ℕ → Flags → Option Result) → Operand → M S (Unit {0})
  unfolding source store_result exception_trap
  divide operation operand = do
    src ← source word operand
    result ← gets (λ c. operation src (c.dar (dx c)) c.flags)
    elim result [ some r ↦ store_result r | none ↦ exception_trap exception_zero_divide ]

  unfoldable pub divu_16 : Operand → M S (Unit {0})
  unfolding divide
  divu_16 operand = divide alu_divu operand

  unfoldable pub divs_16 : Operand → M S (Unit {0})
  unfolding divide
  divs_16 operand = divide alu_divs operand
