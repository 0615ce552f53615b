-- ===== src/M68k/Status/Laws.antt =====
-- About m68ki_get_sr and m68ki_set_sr_noint.
use cute_mac.Base.{
  ℕ, ◌+◌, ◌*◌, ◌/◌, ◌%◌, ◌^◌, ◌<◌, bit, bit_and, bit_or, ◌≡◌, arith, bit_and-pow, bit_and-mask,
  bit_and-zero, bit_and-split, bit_or-fields, ◌>>>◌, shl32,
}
use cute_mac.M68k.Flags.Laws.{get_ccr-set_ccr}
use cute_mac.M68k.Cpu.{Cpu}
use cute_mac.M68k.Status.{get_sr, set_sr_noint}

-- A status register is the sum of its fields.
pub fields :
    (t1 t0 s m i ccr : ℕ)
    → t1 < 2
    → t0 < 2
    → s < 2
    → m < 2
    → i < 8
    → ccr < 32
    → bit_or
        (t1 * 2 ^ 15)
        (bit_or (t0 * 2 ^ 14) (bit_or (s * 2 ^ 13) (bit_or (m * 2 ^ 12) (bit_or (i * 2 ^ 8) ccr))))
      ≡ t1 * 2 ^ 15 + (t0 * 2 ^ 14 + (s * 2 ^ 13 + (m * 2 ^ 12 + (i * 2 ^ 8 + ccr))))
fields t1 t0 s m i ccr h1 h0 hs hm hi hc = rw (bit_or-fields 8 i ccr (omega arith)) (
    rw (bit_or-fields 12 m (i * 2 ^ 8 + ccr) (omega arith)) (
      rw (bit_or-fields 13 s (m * 2 ^ 12 + (i * 2 ^ 8 + ccr)) (omega arith)) (
        rw (bit_or-fields 14 t0 (s * 2 ^ 13 + (m * 2 ^ 12 + (i * 2 ^ 8 + ccr))) (omega arith)) (
          bit_or-fields 15 t1 (t0 * 2 ^ 14 + (s * 2 ^ 13 + (m * 2 ^ 12 + (i * 2 ^ 8 + ccr))))
            (omega arith)))))

-- The bits that the status register has.
abbrev pub status_bits : ℕ
status_bits = 0xf71f

abbrev pub status : ℕ → ℕ
status v =
    bit 15 v * 2 ^ 15
    + (bit 14 v * 2 ^ 14
        + (bit 13 v * 2 ^ 13 + (bit 12 v * 2 ^ 12 + (v / 2 ^ 8 % 8 * 2 ^ 8 + v % 32))))

pub status_bits_lem : (v : ℕ) → bit_and v status_bits ≡ status v
status_bits_lem v = omega (
  arith,
  bit_and-split 12 v 15 0x71f (omega arith),
  bit_and-split 8 v 7 31 (omega arith),
  bit_and-mask 4 (v / 2 ^ 12),
  bit_and-mask 3 (v / 2 ^ 8),
  bit_and-mask 5 v,
)

pub interrupt_bits : (v : ℕ) → bit_and v 0x700 ≡ v / 2 ^ 8 % 8 * 2 ^ 8
interrupt_bits v =
    omega (arith, bit_and-split 8 v 7 0 (omega arith), bit_and-mask 3 (v / 2 ^ 8), bit_and-zero v)

s_bit : (v : ℕ) → shl32 (bit_and (bit_and (v >>> 11) 6) 4) 11 ≡ bit 13 v * 2 ^ 13
s_bit v = omega (
  arith,
  bit_and-split 1 (v >>> 11) 3 0 (omega arith),
  bit_and-mask 2 (v >>> 11 >>> 1),
  bit_and-zero (v >>> 11),
  bit_and-pow 2 (bit_and (v >>> 11) 6),
)

m_bit : (v : ℕ) → shl32 (bit_and (bit_and (v >>> 11) 6) 2) 11 ≡ bit 12 v * 2 ^ 12
m_bit v = omega (
  arith,
  bit_and-split 1 (v >>> 11) 3 0 (omega arith),
  bit_and-mask 2 (v >>> 11 >>> 1),
  bit_and-zero (v >>> 11),
  bit_and-pow 1 (bit_and (v >>> 11) 6),
)

-- A value written to the status register reads back, in the bits that the status register has and
-- `sr_mask` admits.
pub get_sr-set_sr_noint :
    {S : Type 0}
    → (value : ℕ) (c : Cpu S)
    → get_sr (set_sr_noint value c) ≡ bit_and (bit_and value c.sr_mask) status_bits
unfolding get_sr set_sr_noint
get_sr-set_sr_noint value c =
    let v = bit_and value c.sr_mask in
    rw
      (
        bit_and-pow 15 v,
        bit_and-pow 14 v,
        s_bit v,
        m_bit v,
        interrupt_bits v,
        get_ccr-set_ccr v,
        status_bits_lem v,
      )
      (fields (bit 15 v) (bit 14 v) (bit 13 v) (bit 12 v) (v / 2 ^ 8 % 8) (v % 32) (omega arith)
        (omega arith) (omega arith) (omega arith) (omega arith) (omega arith))

-- S and M, as the bits that `set_sr_noint` takes.
pub mode :
    (v : ℕ)
    → (bit_and (bit_and (v >>> 11) 6) 4 ≡ bit 13 v * 4)
      × (bit_and (bit_and (v >>> 11) 6) 2 ≡ bit 12 v * 2)
mode v = (
  omega (
    arith,
    bit_and-split 1 (v >>> 11) 3 0 (omega arith),
    bit_and-mask 2 (v >>> 11 >>> 1),
    bit_and-zero (v >>> 11),
    bit_and-pow 2 (bit_and (v >>> 11) 6),
  ),
  omega (
    arith,
    bit_and-split 1 (v >>> 11) 3 0 (omega arith),
    bit_and-mask 2 (v >>> 11 >>> 1),
    bit_and-zero (v >>> 11),
    bit_and-pow 1 (bit_and (v >>> 11) 6),
  ),
)
