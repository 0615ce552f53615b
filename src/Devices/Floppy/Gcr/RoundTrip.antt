-- ===== src/Devices/Floppy/Gcr/RoundTrip.antt =====
-- The group code of devices/floppy/FloppyDiskImage.cpp read back.
use cute_mac.Base.{
  ℕ, zero, suc, ◌+◌, ◌*◌, ◌%◌, ◌<◌, true, ◌&&◌, List, [], ◌∷◌, none, some, ◌==◌, if◌then◌else◌,
  if_holds, length, AllBytes, u8, bit_xor, ◌≡◌, refl, ap, ◌∙◌, bit_xor_cancel, bit_xor-below, arith,
}
use cute_mac.Devices.Floppy.Gcr.{
  decode_gcr, pack, rol1, Checksums, no_checksums, sum_a, sum_b, after_two, after_three, trailer,
  encode_groups, append_encoded_payload, unpack_a, unpack_b, unpack_c, check_trailer, decode_groups,
  decode_gcr_payload,
}
use cute_mac.Devices.Floppy.Gcr.Table.{decode_gcr-gcr, unpack-pack, pack-byte}

abbrev IsBytes : Checksums → Type 0
IsBytes s = (s.a < 256) × (s.b < 256) × (s.c < 256)

rol1-byte : (v : ℕ) → rol1 v < 256
unfolding rol1
rol1-byte v = omega arith

-- The decoder where every disk byte is in the table.
check_trailer-found :
    (e0 e1 e2 e3 : ℕ) {p a b c : ℕ} (s : Checksums)
    → decode_gcr e0 ≡ some p
    → decode_gcr e1 ≡ some a
    → decode_gcr e2 ≡ some b
    → decode_gcr e3 ≡ some c
    → check_trailer (e0 ∷ e1 ∷ e2 ∷ e3 ∷ []) s
      ≡ ((unpack_a p a == s.a) && (unpack_b p b == s.b) && (unpack_c p c == s.c))
unfolding check_trailer
check_trailer-found e0 e1 e2 e3 s h0 h1 h2 h3 = rw (check_trailer, h0, h1, h2, h3) refl

decode_groups-two :
    (e0 e1 e2 : ℕ) {p a b : ℕ} (encoded : List ℕ) (s : Checksums)
    → decode_gcr e0 ≡ some p
    → decode_gcr e1 ≡ some a
    → decode_gcr e2 ≡ some b
    → let x = bit_xor (unpack_a p a) (rol1 s.c) in
      let y = bit_xor (unpack_b p b) (u8 (sum_a s x)) in
      decode_groups zero (e0 ∷ e1 ∷ e2 ∷ encoded) s
      ≡ (if check_trailer encoded (after_two s x y) then some (x ∷ y ∷ []) else none)
unfolding decode_groups
decode_groups-two e0 e1 e2 encoded s h0 h1 h2 = rw (decode_groups, h0, h1, h2) refl

decode_groups-three :
    (e0 e1 e2 e3 : ℕ) {p a b c : ℕ} (rest : ℕ) (encoded payload : List ℕ) (s : Checksums)
    → decode_gcr e0 ≡ some p
    → decode_gcr e1 ≡ some a
    → decode_gcr e2 ≡ some b
    → decode_gcr e3 ≡ some c
    → let x = bit_xor (unpack_a p a) (rol1 s.c) in
      let y = bit_xor (unpack_b p b) (u8 (sum_a s x)) in
      let z = bit_xor (unpack_c p c) (u8 (sum_b s x y)) in
      decode_groups rest encoded (after_three s x y z) ≡ some payload
      → decode_groups (suc rest) (e0 ∷ e1 ∷ e2 ∷ e3 ∷ encoded) s ≡ some (x ∷ y ∷ z ∷ payload)
unfolding decode_groups
decode_groups-three e0 e1 e2 e3 rest encoded payload s h0 h1 h2 h3 later =
    rw (decode_groups, h0, h1, h2, h3, later) refl

-- The trailer of a state's checksums passes against that state.
trailer_passes : (s : Checksums) → IsBytes s → check_trailer (trailer s) s ≡ true
trailer_passes s h =
    let (a, b, c) = unpack-pack s.a s.b s.c h.0 h.1 h.2 in
    check_trailer-found _ _ _ _ s
      (decode_gcr-gcr (pack s.a s.b s.c) (pack-byte s.a s.b s.c h.0 h.1 h.2))
      (decode_gcr-gcr s.a h.0) (decode_gcr-gcr s.b h.1) (decode_gcr-gcr s.c h.2)
    ∙ rw (a, b, c) (ground arith)

-- The bytes of a group as the encoder leaves them.
module _ (x y z : ℕ) (s : Checksums) where
  abbrev code_a : ℕ
  code_a = bit_xor x (rol1 s.c)

  abbrev code_b : ℕ
  code_b = bit_xor y (u8 (sum_a s x))

  abbrev code_c : ℕ
  code_c = bit_xor z (u8 (sum_b s x y))

  codes : x < 256 → y < 256 → z < 256 → (code_a < 256) × (code_b < 256) × (code_c < 256)
  codes hx hy hz = (
    bit_xor-below 8 x (rol1 s.c) hx (rol1-byte s.c),
    bit_xor-below 8 y (u8 (sum_a s x)) hy (omega arith),
    bit_xor-below 8 z (u8 (sum_b s x y)) hz (omega arith),
  )

-- What the decoder makes of the disk bytes of a group is the group.
module _ (x y z : ℕ) (s : Checksums) (hx : x < 256) (hy : y < 256) (hz : z < 256) where
  abbrev packed : ℕ
  packed = pack (code_a x y z s) (code_b x y z s) (code_c x y z s) % 64

  first_back : bit_xor (unpack_a packed (code_a x y z s % 64)) (rol1 s.c) ≡ x
  first_back =
      let (ha, hb, hc) = codes x y z s hx hy hz in
      ap (λ v. bit_xor v (rol1 s.c)) (unpack-pack _ _ _ ha hb hc).0
      ∙ bit_xor_cancel x (rol1 s.c) hx (rol1-byte s.c)

  second_back : bit_xor (unpack_b packed (code_b x y z s % 64)) (u8 (sum_a s x)) ≡ y
  second_back =
      let (ha, hb, hc) = codes x y z s hx hy hz in
      ap (λ v. bit_xor v (u8 (sum_a s x))) (unpack-pack _ _ _ ha hb hc).1
      ∙ bit_xor_cancel y (u8 (sum_a s x)) hy (omega arith)

  third_back : bit_xor (unpack_c packed (code_c x y z s % 64)) (u8 (sum_b s x y)) ≡ z
  third_back =
      let (ha, hb, hc) = codes x y z s hx hy hz in
      ap (λ v. bit_xor v (u8 (sum_b s x y))) (unpack-pack _ _ _ ha hb hc).2
      ∙ bit_xor_cancel z (u8 (sum_b s x y)) hz (omega arith)

-- The groups come back, whatever the checksums before them.
groups_lem :
    (rest : ℕ) (payload : List ℕ) (s : Checksums)
    → length payload ≡ 3 * rest + 2
    → AllBytes payload
    → decode_groups rest (encode_groups rest payload s) s ≡ some payload
unfolding encode_groups
groups_lem zero (x ∷ y ∷ []) s size (hx, (hy, _)) =
    let (ha, hb, hc) = codes x y 0 s hx hy (omega arith) in
    decode_groups-two _ _ _ _ s (decode_gcr-gcr _ (pack-byte _ _ _ ha hb hc)) (decode_gcr-gcr _ ha)
      (decode_gcr-gcr _ hb)
    ∙ rw (first_back x y 0 s hx hy (omega arith), second_back x y 0 s hx hy (omega arith))
        (if_holds _ _ (trailer_passes (after_two s x y) (omega arith, omega arith, rol1-byte s.c)))
groups_lem (suc rest) (x ∷ y ∷ z ∷ payload) s size (hx, (hy, (hz, bytes))) =
    let (ha, hb, hc) = codes x y z s hx hy hz in
    let a_back = first_back x y z s hx hy hz in
    let b_back = second_back x y z s hx hy hz in
    let c_back = third_back x y z s hx hy hz in
    decode_groups-three _ _ _ _ rest _ payload s (decode_gcr-gcr _ (pack-byte _ _ _ ha hb hc))
      (decode_gcr-gcr _ ha) (decode_gcr-gcr _ hb) (decode_gcr-gcr _ hc)
      (rw (a_back, b_back, c_back)
        (groups_lem rest payload (after_three s x y z) (omega arith) bytes))
    ∙ rw (a_back, b_back, c_back) refl
groups_lem zero [] s size bytes = absurd (omega arith)
groups_lem zero (x ∷ []) s size bytes = absurd (omega arith)
groups_lem zero (x ∷ (y ∷ (z ∷ payload))) s size bytes = absurd (omega arith)
groups_lem (suc rest) [] s size bytes = absurd (omega arith)
groups_lem (suc rest) (x ∷ []) s size bytes = absurd (omega arith)
groups_lem (suc rest) (x ∷ (y ∷ [])) s size bytes = absurd (omega arith)

pub length-encode_groups :
    (rest : ℕ) (payload : List ℕ) (s : Checksums)
    → length payload ≡ 3 * rest + 2
    → length (encode_groups rest payload s) ≡ 4 * rest + 7
unfolding encode_groups
length-encode_groups zero (x ∷ y ∷ []) s size = refl
length-encode_groups (suc rest) (x ∷ y ∷ z ∷ payload) s size =
    omega (arith, length-encode_groups rest payload (after_three s x y z) (omega arith))
length-encode_groups zero [] s size = absurd (omega arith)
length-encode_groups zero (x ∷ []) s size = absurd (omega arith)
length-encode_groups zero (x ∷ (y ∷ (z ∷ payload))) s size = absurd (omega arith)
length-encode_groups (suc rest) [] s size = absurd (omega arith)
length-encode_groups (suc rest) (x ∷ []) s size = absurd (omega arith)
length-encode_groups (suc rest) (x ∷ (y ∷ [])) s size = absurd (omega arith)

-- The 524 bytes of a sector, written in the group code, are decoded to the same bytes, with both
-- checksum tests passed.
pub decode_gcr_payload-encode :
    (payload : List ℕ)
    → length payload ≡ 524
    → AllBytes payload
    → decode_gcr_payload (append_encoded_payload [] payload) ≡ some payload
unfolding decode_gcr_payload append_encoded_payload
decode_gcr_payload-encode payload size bytes =
    if_holds _ _ right_size ∙ groups_lem 174 payload no_checksums size bytes
  where
    right_size : (length (encode_groups 174 payload no_checksums) == 703) ≡ true
    right_size = ground (arith, length-encode_groups 174 payload no_checksums size)
