-- ===== src/M68k/Status/Fields.antt =====
-- The fields of the status register, from its value.
use cute_mac.Base.{
  ◌+◌, ◌*◌, ◌/◌, ◌%◌, ◌^◌, ◌<◌, ◌⊎◌, ◌≡◌, arith, bit, bit_and, bit_or, bit_and-pow, bit_or-le-add,
  if◌then◌else◌, shl32, ◌>>>◌,
}
use cute_mac.M68k.Flags.{Flags, get_ccr, cond, eq}
use cute_mac.M68k.Cpu.{Cpu}
use cute_mac.M68k.Status.{get_sr}
use cute_mac.M68k.Status.Laws.{status_bits, status_bits_lem, fields}

-- The fields of the status register have the values that its bits can give them.
pub record IsStatus {S : Type 0} (c : Cpu S) : Type 0 where
  pub t1 : (c.t1_flag ≡ 0) ⊎ (c.t1_flag ≡ 0x8000)
  pub t0 : (c.t0_flag ≡ 0) ⊎ (c.t0_flag ≡ 0x4000)
  pub s : (c.s_flag ≡ 0) ⊎ (c.s_flag ≡ 4)
  pub m : (c.m_flag ≡ 0) ⊎ (c.m_flag ≡ 2)
  pub mask : c.int_mask ≡ c.int_mask / 2 ^ 8 % 8 * 2 ^ 8

get_ccr_bound : (f : Flags) → get_ccr f < 32
unfolding get_ccr
get_ccr_bound f = ground (
  arith,
  bit_and-pow 8 f.x,
  bit_and-pow 7 f.n,
  bit_and-pow 7 f.v,
  bit_and-pow 8 f.c,
  bit_or-le-add (bit_and f.v 0x80 >>> 6) (bit_and f.c 0x100 >>> 8),
  bit_or-le-add (if cond eq f then 4 else 0)
      (bit_or (bit_and f.v 0x80 >>> 6) (bit_and f.c 0x100 >>> 8)),
  bit_or-le-add (bit_and f.n 0x80 >>> 4) (
      bit_or (if cond eq f then 4 else 0)
        (bit_or (bit_and f.v 0x80 >>> 6) (bit_and f.c 0x100 >>> 8))),
  bit_or-le-add (bit_and f.x 0x100 >>> 4) (
      bit_or (bit_and f.n 0x80 >>> 4) (
        bit_or (if cond eq f then 4 else 0)
          (bit_or (bit_and f.v 0x80 >>> 6) (bit_and f.c 0x100 >>> 8)))),
)

get_sr_sum :
    {S : Type 0}
    → (c : Cpu S) → IsStatus c
    → get_sr c
      ≡ c.t1_flag
        + (c.t0_flag + (shl32 c.s_flag 11 + (shl32 c.m_flag 11 + (c.int_mask + get_ccr c.flags))))
unfolding get_sr
get_sr_sum c st =
    let t1 : c.t1_flag ≡ c.t1_flag / 2 ^ 15 * 2 ^ 15 = ground (arith, st.t1) in
    let t0 : c.t0_flag ≡ c.t0_flag / 2 ^ 14 * 2 ^ 14 = ground (arith, st.t0) in
    let s : shl32 c.s_flag 11 ≡ c.s_flag / 4 * 2 ^ 13 = ground (arith, st.s) in
    let m : shl32 c.m_flag 11 ≡ c.m_flag / 2 * 2 ^ 12 = ground (arith, st.m) in
    rw (t1, t0, s, m, st.mask)
      (fields (c.t1_flag / 2 ^ 15) (c.t0_flag / 2 ^ 14) (c.s_flag / 4) (c.m_flag / 2)
        (c.int_mask / 2 ^ 8 % 8) (get_ccr c.flags) (ground (arith, st.t1)) (ground (arith, st.t0))
        (ground (arith, st.s)) (ground (arith, st.m)) (omega arith) (get_ccr_bound c.flags))

-- What the status register says of the mode, the interrupt mask and its own size.
pub get_sr-fields :
    {S : Type 0}
    → (c : Cpu S) → IsStatus c
    → (get_sr c < 2 ^ 16)
      × (bit 13 (get_sr c) * 4 ≡ c.s_flag)
      × (bit 12 (get_sr c) * 2 ≡ c.m_flag)
      × (get_sr c / 2 ^ 8 % 8 * 2 ^ 8 ≡ c.int_mask)
get_sr-fields c st =
    let sum = get_sr_sum c st in
    let low = get_ccr_bound c.flags in
    (
      ground (arith, sum, low, st.t1, st.t0, st.s, st.m, st.mask),
      ground (arith, sum, low, st.t1, st.t0, st.s, st.m, st.mask),
      ground (arith, sum, low, st.t1, st.t0, st.s, st.m, st.mask),
      ground (arith, sum, low, st.t1, st.t0, st.s, st.m, st.mask),
    )

-- It has no other bits.
pub get_sr-status_bits :
    {S : Type 0} → (c : Cpu S) → IsStatus c → bit_and (get_sr c) status_bits ≡ get_sr c
get_sr-status_bits c st =
    let sum = get_sr_sum c st in
    let low = get_ccr_bound c.flags in
    ground (arith, sum, low, status_bits_lem (get_sr c), st.t1, st.t0, st.s, st.m, st.mask)
