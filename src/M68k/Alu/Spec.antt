-- ===== src/M68k/Alu/Spec.antt =====
-- What an addition and a subtraction of two operands of a size must do, in terms of the numbers
-- that the operands stand for, unsigned and signed.
use cute_mac.Base.{
  ℕ, ◌+◌, ◌-◌, ◌%◌, ◌^◌, Bool, true, ◌&&◌, ltb, leb, ◌==◌, if◌then◌else◌, ◌≡◌, ◌↔◌, ℤ, pos, negsuc,
  ◌+ℤ◌, ◌-ℤ◌,
}
use cute_mac.M68k.Flags.{Size, width, cond, extend, cs, vc, mi, eq}
use cute_mac.M68k.Alu.{Result}

abbrev pub modulus : Size → ℕ
modulus size = 2 ^ width size

abbrev pub half : Size → ℕ
half size = 2 ^ (width size - 1)

-- The number that a word of a size stands for in two's complement.
abbrev pub signed : Size → ℕ → ℤ
signed size a = if ltb a (half size) then pos a else negsuc (modulus size - a - 1)

-- The result is `src + dst + carry` modulo the size; C and X say whether that sum leaves the
-- unsigned range, V whether it leaves the signed range, N and Z are those of the result.
-- `zero_before` is what Z may still be: true where the instruction sets Z afresh.
pub record IsSum (size : Size) (src dst carry : ℕ) (zero_before : Bool) (r : Result) : Type 0 where
  pub value : r.value ≡ (src + dst + carry) % modulus size
  pub carry_out : cond cs r.flags ≡ leb (modulus size) (src + dst + carry)
  pub extend_out : extend r.flags ≡ leb (modulus size) (src + dst + carry)
  pub negative : cond mi r.flags ≡ leb (half size) r.value
  pub zero_out : cond eq r.flags ≡ (zero_before && r.value == 0)
  pub fits :
      (cond vc r.flags ≡ true)
      ↔ (signed size r.value ≡ signed size src +ℤ signed size dst +ℤ pos carry)

-- So for `dst - src - borrow`.
pub record IsDifference (size : Size) (src dst borrow : ℕ) (zero_before : Bool) (r : Result)
    : Type 0 where
  pub value : r.value ≡ (dst + modulus size - src + modulus size - borrow) % modulus size
  pub carry_out : cond cs r.flags ≡ ltb dst (src + borrow)
  pub extend_out : extend r.flags ≡ ltb dst (src + borrow)
  pub negative : cond mi r.flags ≡ leb (half size) r.value
  pub zero_out : cond eq r.flags ≡ (zero_before && r.value == 0)
  pub fits :
      (cond vc r.flags ≡ true)
      ↔ (signed size r.value ≡ signed size dst -ℤ signed size src -ℤ pos borrow)
