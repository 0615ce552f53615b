-- ===== src/Devices/Floppy/Gcr/Table.antt =====
-- The table of the group code, and the top bits packed, of devices/floppy/FloppyDiskImage.cpp.
use cute_mac.Base.{
  ℕ, ◌+◌, ◌*◌, ◌/◌, ◌%◌, ◌^◌, ◌<◌, Bool, true, false, ◌&&◌, Option, none, some, ◌==◌, ◌>>>◌,
  bit_and, bit_or, ◌≡◌, refl, ap, ◌∙◌, bit_or-fields, bit_or_comm, holds_below_lem, arith,
}
use cute_mac.Devices.Floppy.Gcr.{decode_gcr, gcr, pack, unpack_a, unpack_b, unpack_c}

abbrev finds : ℕ → Option ℕ → Bool
finds v none = false
finds v (some x) = x == v

finds_lem : (v : ℕ) (o : Option ℕ) → finds v o ≡ true → o ≡ some v
finds_lem v none h = absurd (ground arith)
finds_lem v (some x) h = ap some (ground arith)

all_found : (v : ℕ) → v < 256 → finds (v % 64) (decode_gcr (gcr v)) ≡ true
unfolding decode_gcr gcr
all_found = holds_below_lem 256 (λ v. finds (v % 64) (decode_gcr (gcr v))) refl

-- The decoder finds the low six bits of any byte that was encoded.
pub decode_gcr-gcr : (v : ℕ) → v < 256 → decode_gcr (gcr v) ≡ some (v % 64)
decode_gcr-gcr v small = finds_lem (v % 64) (decode_gcr (gcr v)) (all_found v small)

abbrev tops : ℕ → Bool
tops v =
    (bit_and (v >>> 2) 0x30 == v / 64 * 16)
    && (bit_and (v >>> 4) 0x0c == v / 64 * 4)
    && (bit_and (v >>> 6) 0x03 == v / 64)

all_tops : (v : ℕ) → v < 256 → tops v ≡ true
all_tops = holds_below_lem 256 tops refl

pack_lem :
    (x y z : ℕ) → x < 256 → y < 256 → z < 256 → pack x y z ≡ x / 64 * 16 + y / 64 * 4 + z / 64
pack_lem x y z small small' small'' =
    rw ((tops_of x small).0, (tops_of y small').1, (tops_of z small'').2) two
  where
    tops_of :
        (v : ℕ)
        → v < 256
        → (bit_and (v >>> 2) 0x30 ≡ v / 64 * 16)
          × (bit_and (v >>> 4) 0x0c ≡ v / 64 * 4)
          × (bit_and (v >>> 6) 0x03 ≡ v / 64)
    tops_of v h = let t = all_tops v h in ground arith

    fields : x / 64 * 2 ^ 4 + y / 64 * 4 ≡ (x / 64 * 4 + y / 64) * 2 ^ 2
    fields = omega arith

    two : bit_or (bit_or (x / 64 * 16) (y / 64 * 4)) (z / 64) ≡ x / 64 * 16 + y / 64 * 4 + z / 64
    two =
        ap (λ q. bit_or q (z / 64)) (bit_or-fields 4 (x / 64) (y / 64 * 4) (omega arith) ∙ fields)
        ∙ bit_or-fields 2 (x / 64 * 4 + y / 64) (z / 64) (omega arith)
        ∙ omega arith

abbrev parts : ℕ → Bool
parts p =
    (bit_and p 0x30 * 4 == p / 16 * 64)
    && (bit_and p 0x0c * 16 == p / 4 % 4 * 64)
    && (bit_and p 0x03 * 64 == p % 4 * 64)

all_parts : (p : ℕ) → p < 64 → parts p ≡ true
all_parts = holds_below_lem 64 parts refl

parts_lem :
    (p : ℕ)
    → p < 64
    → (bit_and p 0x30 * 4 ≡ p / 16 * 64)
      × (bit_and p 0x0c * 16 ≡ p / 4 % 4 * 64)
      × (bit_and p 0x03 * 64 ≡ p % 4 * 64)
parts_lem p h = let t = all_parts p h in ground arith

joined : (top low : ℕ) → low < 64 → bit_or low (top * 64) ≡ top * 64 + low
joined top low small = bit_or_comm low (top * 64) ∙ bit_or-fields 6 top low small

-- The three bytes of a group come back from the low six bits of each and the packed top bits, as
-- `decodeGcr` finds them.
pub unpack-pack :
    (x y z : ℕ)
    → x < 256
    → y < 256
    → z < 256
    → let packed = pack x y z % 64 in
      (unpack_a packed (x % 64) ≡ x)
      × (unpack_b packed (y % 64) ≡ y)
      × (unpack_c packed (z % 64) ≡ z)
unpack-pack x y z small small' small'' =
    rw
      (
        pack_lem x y z small small' small'',
        (parts_lem packed (omega arith)).0,
        (parts_lem packed (omega arith)).1,
        (parts_lem packed (omega arith)).2,
        joined (packed / 16) (x % 64) (omega arith),
        joined (packed / 4 % 4) (y % 64) (omega arith),
        joined (packed % 4) (z % 64) (omega arith),
      )
      (omega arith, omega arith, omega arith)
  where
    packed : ℕ
    packed = (x / 64 * 16 + y / 64 * 4 + z / 64) % 64

pub pack-byte : (x y z : ℕ) → x < 256 → y < 256 → z < 256 → pack x y z < 256
pack-byte x y z small small' small'' = omega (arith, pack_lem x y z small small' small'')
