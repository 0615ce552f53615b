-- ===== src/Devices/Floppy/Gcr.antt =====
-- The group code of devices/floppy/FloppyDiskImage.cpp: six bits in a disk byte, and 524 bytes of a
-- sector in 703 disk bytes with three running checksums.
pub mod Table
pub mod RoundTrip
use cute_mac.Base.{
  ℕ, zero, suc, ◌+◌, ◌*◌, ◌/◌, ◌%◌, ◌^◌, ◌<◌, Bool, true, false, ◌&&◌, List, [], ◌∷◌, ◌++◌, Option,
  none, some, ltb, ◌==◌, if◌then◌else◌, bool_to_ℕ, length, u8, ◌>>>◌, bit_and, bit_or, bit_xor,
}

abbrev pub gcr_encode_table : List ℕ
gcr_encode_table =
    0x96 ∷ 0x97 ∷ 0x9a ∷ 0x9b ∷ 0x9d ∷ 0x9e ∷ 0x9f ∷ 0xa6 ∷ 0xa7 ∷ 0xab ∷ 0xac ∷ 0xad ∷ 0xae ∷ 0xaf
    ∷ 0xb2 ∷ 0xb3 ∷ 0xb4 ∷ 0xb5 ∷ 0xb6 ∷ 0xb7 ∷ 0xb9 ∷ 0xba ∷ 0xbb ∷ 0xbc ∷ 0xbd ∷ 0xbe ∷ 0xbf
    ∷ 0xcb ∷ 0xcd ∷ 0xce ∷ 0xcf ∷ 0xd3 ∷ 0xd6 ∷ 0xd7 ∷ 0xd9 ∷ 0xda ∷ 0xdb ∷ 0xdc ∷ 0xdd ∷ 0xde
    ∷ 0xdf ∷ 0xe5 ∷ 0xe6 ∷ 0xe7 ∷ 0xe9 ∷ 0xea ∷ 0xeb ∷ 0xec ∷ 0xed ∷ 0xee ∷ 0xef ∷ 0xf2 ∷ 0xf3
    ∷ 0xf4 ∷ 0xf5 ∷ 0xf6 ∷ 0xf7 ∷ 0xf9 ∷ 0xfa ∷ 0xfb ∷ 0xfc ∷ 0xfd ∷ 0xfe ∷ 0xff ∷ []

abbrev pub entry : List ℕ → ℕ → ℕ
entry [] i = 0
entry (x ∷ xs) zero = x
entry (x ∷ xs) (suc i) = entry xs i

-- `std::find` and the distance from the start; none is the code's -1.
abbrev pub find_from : ℕ → ℕ → List ℕ → Option ℕ
find_from i value [] = none
find_from i value (x ∷ xs) = if x == value then some i else find_from (suc i) value xs

-- `decodeGcr`
unfoldable pub decode_gcr : ℕ → Option ℕ
decode_gcr value = find_from 0 value gcr_encode_table

-- The byte that `appendGcr` appends.
unfoldable pub gcr : ℕ → ℕ
gcr value = entry gcr_encode_table (bit_and value 0x3f)

unfoldable pub rol1 : ℕ → ℕ
rol1 value = u8 (bit_or (value * 2) (value >>> 7))

-- `checksumA`, `checksumB` and `checksumC`.
pub record Checksums : Type 0 where
  pub a : ℕ
  pub b : ℕ
  pub c : ℕ

abbrev pub no_checksums : Checksums
no_checksums = record { a = 0; b = 0; c = 0 }

-- `sumA`, `sumB` and `sumC`, as the encoder and the decoder both compute them, with the checksum
-- that has been rotated.
abbrev pub sum_a : Checksums → ℕ → ℕ
sum_a s plain_a = s.a + plain_a + bit_and (rol1 s.c) 1

abbrev pub sum_b : Checksums → ℕ → ℕ → ℕ
sum_b s plain_a plain_b = s.b + plain_b + bool_to_ℕ (ltb 0xff (sum_a s plain_a))

abbrev pub sum_c : Checksums → ℕ → ℕ → ℕ → ℕ
sum_c s plain_a plain_b plain_c =
    rol1 s.c + plain_c + bool_to_ℕ (ltb 0xff (sum_b s plain_a plain_b))

-- The checksums after a group of three bytes, and after the last group, of two.
abbrev pub after_three : Checksums → ℕ → ℕ → ℕ → Checksums
after_three s x y z = record { a = u8 (sum_a s x); b = u8 (sum_b s x y); c = u8 (sum_c s x y z) }

abbrev pub after_two : Checksums → ℕ → ℕ → Checksums
after_two s x y = record { a = u8 (sum_a s x); b = u8 (sum_b s x y); c = rol1 s.c }

-- The top bits of three bytes, in one value of six bits.
abbrev pub pack : ℕ → ℕ → ℕ → ℕ
pack x y z =
    bit_or (bit_or (bit_and (x >>> 2) 0x30) (bit_and (y >>> 4) 0x0c)) (bit_and (z >>> 6) 0x03)

-- The end of `appendEncodedPayload`.
abbrev pub trailer : Checksums → List ℕ
trailer s = gcr (pack s.a s.b s.c) ∷ gcr s.a ∷ gcr s.b ∷ gcr s.c ∷ []

-- The loop of `appendEncodedPayload` with `rest` = 174 - i groups of three left, then one of two.
-- It is called with a payload of 524 bytes, so a missing byte does not occur.
unfoldable pub encode_groups : ℕ → List ℕ → Checksums → List ℕ
encode_groups zero (x ∷ y ∷ []) s =
    let a = bit_xor x (rol1 s.c) in
    let b = bit_xor y (u8 (sum_a s x)) in
    let c = bit_xor 0 (u8 (sum_b s x y)) in
    gcr (pack a b c) ∷ gcr a ∷ gcr b ∷ trailer (after_two s x y)
encode_groups (suc rest) (x ∷ y ∷ z ∷ payload) s =
    let a = bit_xor x (rol1 s.c) in
    let b = bit_xor y (u8 (sum_a s x)) in
    let c = bit_xor z (u8 (sum_b s x y)) in
    gcr (pack a b c) ∷ gcr a ∷ gcr b ∷ gcr c ∷ encode_groups rest payload (after_three s x y z)
encode_groups rest payload s = []

unfoldable pub append_encoded_payload : List ℕ → List ℕ → List ℕ
append_encoded_payload output payload = output ++ encode_groups 174 payload no_checksums

-- The three bytes of a group, from its disk bytes. `lowA | ((packed & 0x30) << 2)` and so on.
abbrev pub unpack_a : ℕ → ℕ → ℕ
unpack_a packed low = u8 (bit_or low (bit_and packed 0x30 * 4))

abbrev pub unpack_b : ℕ → ℕ → ℕ
unpack_b packed low = u8 (bit_or low (bit_and packed 0x0c * 16))

abbrev pub unpack_c : ℕ → ℕ → ℕ
unpack_c packed low = u8 (bit_or low (bit_and packed 0x03 * 64))

-- The end of `decodeGcrPayload`: whether the checksums are those of the disk.
unfoldable pub check_trailer : List ℕ → Checksums → Bool
check_trailer (e0 ∷ e1 ∷ e2 ∷ e3 ∷ []) s = elim (decode_gcr e0) [
  | none ↦ false
  | some packed ↦ elim (decode_gcr e1) [
    | none ↦ false
    | some check_a ↦ elim (decode_gcr e2) [
      | none ↦ false
      | some check_b ↦ elim (decode_gcr e3) [
        | none ↦ false
        | some check_c ↦
            (unpack_a packed check_a == s.a)
            && (unpack_b packed check_b == s.b)
            && (unpack_c packed check_c == s.c)
      ]
    ]
  ]
]
check_trailer encoded s = false

-- The loop of `decodeGcrPayload` with `rest` = 174 - group groups of four bytes left, then one of
-- three. The payload where the code returns true.
unfoldable pub decode_groups : ℕ → List ℕ → Checksums → Option (List ℕ)
decode_groups zero (e0 ∷ e1 ∷ e2 ∷ encoded) s = elim (decode_gcr e0) [
  | none ↦ none
  | some packed ↦ elim (decode_gcr e1) [
    | none ↦ none
    | some low_a ↦ elim (decode_gcr e2) [
      | none ↦ none
      | some low_b ↦
          let x = bit_xor (unpack_a packed low_a) (rol1 s.c) in
          let y = bit_xor (unpack_b packed low_b) (u8 (sum_a s x)) in
          if check_trailer encoded (after_two s x y) then some (x ∷ y ∷ []) else none
    ]
  ]
]
decode_groups (suc rest) (e0 ∷ e1 ∷ e2 ∷ e3 ∷ encoded) s = elim (decode_gcr e0) [
  | none ↦ none
  | some packed ↦ elim (decode_gcr e1) [
    | none ↦ none
    | some low_a ↦ elim (decode_gcr e2) [
      | none ↦ none
      | some low_b ↦ elim (decode_gcr e3) [
        | none ↦ none
        | some low_c ↦
            let x = bit_xor (unpack_a packed low_a) (rol1 s.c) in
            let y = bit_xor (unpack_b packed low_b) (u8 (sum_a s x)) in
            let z = bit_xor (unpack_c packed low_c) (u8 (sum_b s x y)) in
            elim (decode_groups rest encoded (after_three s x y z)) [
              | none ↦ none
              | some payload ↦ some (x ∷ y ∷ z ∷ payload)
            ]
      ]
    ]
  ]
]
decode_groups rest encoded s = none

unfoldable pub decode_gcr_payload : List ℕ → Option (List ℕ)
decode_gcr_payload encoded =
    if length encoded == 703 then decode_groups 174 encoded no_checksums else none
