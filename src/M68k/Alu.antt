-- ===== src/M68k/Alu.antt =====
-- The arithmetic of the instruction handlers of m68kops.c, apart from their operands: each
-- function takes the operands as the handler masked them, and the flags before the instruction,
-- and returns what the handler writes to its destination and the flags after it.
use cute_mac.Base.{ℕ, ◌+◌, ◌*◌, ◌/◌, ◌%◌, ◌^◌, bit_and, bit_or, u32, sub32, ◌>>>◌}
use cute_mac.M68k.Flags.{
  Size, byte, word, long, Flags, mask_out_above, nflag, cflag_add, cflag_sub, vflag_add, vflag_sub,
  xflag_as_1,
}
pub mod Spec
pub mod Add
pub mod Sub
pub mod Compare

pub record Result : Type 0 where
  pub value : ℕ
  pub flags : Flags

-- ADD, ADDI and ADDQ: `res = src + dst`.
unfoldable pub alu_add : Size → ℕ → ℕ → Flags → Result
alu_add size src dst f =
    let res = u32 (src + dst) in
    let carry = cflag_add size src dst res in
    let low = mask_out_above size res in
    record {
      value = low;
      flags = record {
        x = carry;
        n = nflag size res;
        not_z = low;
        v = vflag_add size src dst res;
        c = carry;
      };
    }

-- ADDX: the extend bit is added, and Z is only ever cleared.
unfoldable pub alu_addx : Size → ℕ → ℕ → Flags → Result
alu_addx size src dst f =
    let res = u32 (src + dst + xflag_as_1 f) in
    let carry = cflag_add size src dst res in
    let low = mask_out_above size res in
    record {
      value = low;
      flags = record {
        x = carry;
        n = nflag size res;
        not_z = bit_or f.not_z low;
        v = vflag_add size src dst res;
        c = carry;
      };
    }

-- SUB, SUBI and SUBQ: `res = dst - src`.
unfoldable pub alu_sub : Size → ℕ → ℕ → Flags → Result
alu_sub size src dst f =
    let res = sub32 dst src in
    let borrow = cflag_sub size src dst res in
    let low = mask_out_above size res in
    record {
      value = low;
      flags = record {
        x = borrow;
        n = nflag size res;
        not_z = low;
        v = vflag_sub size src dst res;
        c = borrow;
      };
    }

-- SUBX.
unfoldable pub alu_subx : Size → ℕ → ℕ → Flags → Result
alu_subx size src dst f =
    let res = sub32 (sub32 dst src) (xflag_as_1 f) in
    let borrow = cflag_sub size src dst res in
    let low = mask_out_above size res in
    record {
      value = low;
      flags = record {
        x = borrow;
        n = nflag size res;
        not_z = bit_or f.not_z low;
        v = vflag_sub size src dst res;
        c = borrow;
      };
    }

-- CMP, CMPA, CMPI and CMPM: the flags of a difference, but for X.
unfoldable pub alu_cmp : Size → ℕ → ℕ → Flags → Flags
alu_cmp size src dst f =
    let res = sub32 dst src in
    record {
      x = f.x;
      n = nflag size res;
      not_z = mask_out_above size res;
      v = vflag_sub size src dst res;
      c = cflag_sub size src dst res;
    }

-- NEG: `res = 0 - src`; V is computed as `src & res`.
unfoldable pub alu_neg : Size → ℕ → Flags → Result
alu_neg size src f =
    let res = sub32 0 (mask_out_above size src) in
    let borrow = cflag_sub size src 0 res in
    let low = mask_out_above size res in
    record {
      value = low;
      flags = record {
        x = borrow;
        n = nflag size res;
        not_z = low;
        v = nflag size (bit_and src res);
        c = borrow;
      };
    }

-- NEGX.
unfoldable pub alu_negx : Size → ℕ → Flags → Result
alu_negx size src f =
    let res = sub32 (sub32 0 (mask_out_above size src)) (xflag_as_1 f) in
    let borrow = cflag_sub size src 0 res in
    let low = mask_out_above size res in
    record {
      value = low;
      flags = record {
        x = borrow;
        n = nflag size res;
        not_z = bit_or f.not_z low;
        v = nflag size (bit_and src res);
        c = borrow;
      };
    }
