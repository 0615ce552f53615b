-- ===== src/M68k/Flags.antt =====
-- The condition codes of m68kcpu.h: the flag calculation macros, the conditions, and the
-- condition code register. The engine keeps N and V in bit 7 of a word, C and X in bit 8, and Z
-- inverted, as a word that is 0 when Z is set.
use cute_mac.Base.{
  ℕ, ◌+◌, ◌*◌, ◌/◌, ◌%◌, ◌^◌, bit_and, bit_or, bit_xor, Bool, true, false, not, ◌&&◌, ◌||◌, ◌==◌,
  if◌then◌else◌, not32, ◌>>>◌, shl32,
}
pub mod Laws

pub data Size : Type 0 where
  byte word long : Size

abbrev pub width : Size → ℕ
width byte = 8
width word = 16
width long = 32

-- `x_flag`, `n_flag`, `not_z_flag`, `v_flag` and `c_flag` of `m68ki_cpu_core`.
pub record Flags : Type 0 where
  pub x : ℕ
  pub n : ℕ
  pub not_z : ℕ
  pub v : ℕ
  pub c : ℕ

-- MASK_OUT_ABOVE_8, _16 and _32.
abbrev pub mask_out_above : Size → ℕ → ℕ
mask_out_above byte a = a % 2 ^ 8
mask_out_above word a = a % 2 ^ 16
mask_out_above long a = a % 2 ^ 32

-- NFLAG_8, _16 and _32.
abbrev pub nflag : Size → ℕ → ℕ
nflag byte a = a
nflag word a = a >>> 8
nflag long a = a >>> 24

-- CFLAG_8, CFLAG_16 and CFLAG_ADD_32 (of the 32-bit build), for a sum.
abbrev pub cflag_add : Size → ℕ → ℕ → ℕ → ℕ
cflag_add byte s d r = r
cflag_add word s d r = r >>> 8
cflag_add long s d r = bit_or (bit_and s d) (bit_and (not32 r) (bit_or s d)) >>> 23

-- CFLAG_8, CFLAG_16 and CFLAG_SUB_32, for a difference.
abbrev pub cflag_sub : Size → ℕ → ℕ → ℕ → ℕ
cflag_sub byte s d r = r
cflag_sub word s d r = r >>> 8
cflag_sub long s d r = bit_or (bit_and s r) (bit_and (not32 d) (bit_or s r)) >>> 23

-- VFLAG_ADD_8, _16 and _32.
abbrev pub vflag_add : Size → ℕ → ℕ → ℕ → ℕ
vflag_add byte s d r = bit_and (bit_xor s r) (bit_xor d r)
vflag_add word s d r = bit_and (bit_xor s r) (bit_xor d r) >>> 8
vflag_add long s d r = bit_and (bit_xor s r) (bit_xor d r) >>> 24

-- VFLAG_SUB_8, _16 and _32.
abbrev pub vflag_sub : Size → ℕ → ℕ → ℕ → ℕ
vflag_sub byte s d r = bit_and (bit_xor s d) (bit_xor r d)
vflag_sub word s d r = bit_and (bit_xor s d) (bit_xor r d) >>> 8
vflag_sub long s d r = bit_and (bit_xor s d) (bit_xor r d) >>> 24

abbrev pub nflag_set : ℕ
nflag_set = 0x80

abbrev pub cflag_set : ℕ
cflag_set = 0x100

abbrev pub zflag_clear : ℕ
zflag_clear = 0xffffffff

-- XFLAG_AS_1.
abbrev pub xflag_as_1 : Flags → ℕ
xflag_as_1 f = bit_and (f.x >>> 8) 1

-- The conditions of the instruction set, COND_HI to COND_LE.
pub data Condition : Type 0 where
  hi ls cc cs ne eq vc vs pl mi ge lt gt le : Condition

cond_cs : Flags → Bool
cond_cs f = not (bit_and f.c 0x100 == 0)

cond_vs : Flags → Bool
cond_vs f = not (bit_and f.v 0x80 == 0)

cond_ne : Flags → Bool
cond_ne f = not (f.not_z == 0)

cond_mi : Flags → Bool
cond_mi f = not (bit_and f.n 0x80 == 0)

cond_lt : Flags → Bool
cond_lt f = not (bit_and (bit_xor f.n f.v) 0x80 == 0)

cond_xs : Flags → Bool
cond_xs f = not (bit_and f.x 0x100 == 0)

unfoldable pub cond : Condition → Flags → Bool
unfolding cond_cs cond_vs cond_ne cond_mi cond_lt
cond cs f = cond_cs f
cond cc f = not (cond_cs f)
cond vs f = cond_vs f
cond vc f = not (cond_vs f)
cond ne f = cond_ne f
cond eq f = not (cond_ne f)
cond mi f = cond_mi f
cond pl f = not (cond_mi f)
cond lt f = cond_lt f
cond ge f = not (cond_lt f)
cond hi f = not (cond_cs f) && cond_ne f
cond ls f = cond_cs f || not (cond_ne f)
cond gt f = not (cond_lt f) && cond_ne f
cond le f = cond_lt f || not (cond_ne f)

unfoldable pub extend : Flags → Bool
unfolding cond_xs
extend f = cond_xs f

-- m68ki_get_ccr; `COND_EQ() << 2` shifts the 0 or 1 of a C comparison.
unfoldable pub get_ccr : Flags → ℕ
unfolding cond
get_ccr f = bit_or (bit_and f.x 0x100 >>> 4) (
    bit_or (bit_and f.n 0x80 >>> 4) (
      bit_or (if cond eq f then 4 else 0)
        (bit_or (bit_and f.v 0x80 >>> 6) (bit_and f.c 0x100 >>> 8))))

-- m68ki_set_ccr.
unfoldable pub set_ccr : ℕ → Flags
set_ccr value = record {
  x = shl32 (bit_and value 0x10) 4;
  n = shl32 (bit_and value 8) 4;
  not_z = if bit_and value 4 == 0 then 1 else 0;
  v = shl32 (bit_and value 2) 6;
  c = shl32 (bit_and value 1) 8;
}
