-- ===== src/Base/Words.antt =====
-- The C types of fixed width: casts, shifts, complement and wrapping subtraction.
use Prim.Native.Nat.{ℕ, ◌+◌, ◌-◌, ◌*◌, ◌/◌, ◌%◌, ◌^◌}
use cute_mac.Base.Tests.{ltb, if◌then◌else◌}

abbrev pub u8 : ℕ → ℕ
u8 n = n % 2 ^ 8

abbrev pub u16 : ℕ → ℕ
u16 n = n % 2 ^ 16

abbrev pub u32 : ℕ → ℕ
u32 n = n % 2 ^ 32

-- `~a` on a 32-bit word.
abbrev pub not32 : ℕ → ℕ
not32 a = 2 ^ 32 - 1 - a

-- `a - b` on 32-bit words.
abbrev pub sub32 : ℕ → ℕ → ℕ
sub32 a b = (a + 2 ^ 32 - b) % 2 ^ 32

infixl 75 ◌>>>◌
abbrev pub ◌>>>◌ : ℕ → ℕ → ℕ
a >>> k = a / 2 ^ k

-- `a << k` on a 32-bit word.
abbrev pub shl32 : ℕ → ℕ → ℕ
shl32 a k = a * 2 ^ k % 2 ^ 32

-- `(sint8)a` and `(sint16)a`, widened to a 32-bit word.
abbrev pub sext8 : ℕ → ℕ
sext8 a = if ltb (a % 2 ^ 8) 0x80 then a % 2 ^ 8 else a % 2 ^ 8 + 0xffffff00

abbrev pub sext16 : ℕ → ℕ
sext16 a = if ltb (a % 2 ^ 16) 0x8000 then a % 2 ^ 16 else a % 2 ^ 16 + 0xffff0000

-- The binary digit `k` of `a`.
abbrev pub bit : ℕ → ℕ → ℕ
bit k a = a / 2 ^ k % 2
