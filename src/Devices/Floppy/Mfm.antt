-- ===== src/Devices/Floppy/Mfm.antt =====
-- The fields and the checksum of a high-density track of devices/floppy/FloppyDiskImage.cpp.
use cute_mac.Base.{
  ℕ, zero, suc, ◌*◌, ◌^◌, Bool, true, false, not, List, [], ◌∷◌, ◌++◌, ◌==◌, if◌then◌else◌,
  replicate, u8, u16, ◌>>>◌, bit_and, bit_xor,
}

-- One round of the loop on the bits.
abbrev pub crc_bit : ℕ → ℕ
crc_bit crc = u16 (if not (bit_and crc 0x8000 == 0) then bit_xor (crc * 2) 0x1021 else crc * 2)

abbrev pub crc_bits : ℕ → ℕ → ℕ
crc_bits zero crc = crc
crc_bits (suc n) crc = crc_bits n (crc_bit crc)

unfoldable pub crc_from : ℕ → List ℕ → ℕ
crc_from crc [] = crc
crc_from crc (byte ∷ bytes) = crc_from (crc_bits 8 (bit_xor crc (u16 (byte * 2 ^ 8)))) bytes

unfoldable pub mfm_crc : List ℕ → ℕ
mfm_crc bytes = crc_from 0xffff bytes

-- The bytes of a track and which of them are marks.
abbrev pub Track : Type 0
Track = List ℕ × List Bool

unfoldable pub append_mfm_byte : Track → ℕ → Bool → Track
append_mfm_byte track value mark = (track.0 ++ value ∷ [], track.1 ++ mark ∷ [])

unfoldable pub append_mfm_repeated : Track → ℕ → ℕ → Track
append_mfm_repeated track value zero = track
append_mfm_repeated track value (suc count) =
    append_mfm_repeated (append_mfm_byte track value false) value count

unfoldable pub append_mfm_bytes : Track → List ℕ → Track
append_mfm_bytes track [] = track
append_mfm_bytes track (byte ∷ bytes) = append_mfm_bytes (append_mfm_byte track byte false) bytes

-- The bytes of which a field holds the checksum.
abbrev pub crc_bytes : ℕ → List ℕ → ℕ → List ℕ
crc_bytes type payload sync_mark = replicate 3 sync_mark ++ type ∷ payload

unfoldable pub append_mfm_field : Track → ℕ → List ℕ → ℕ → Track
append_mfm_field track type payload sync_mark =
    let marks =
      append_mfm_byte (append_mfm_byte (append_mfm_byte track sync_mark true) sync_mark true)
        sync_mark true in
    let crc = mfm_crc (crc_bytes type payload sync_mark) in
    append_mfm_byte
      (append_mfm_byte (append_mfm_bytes (append_mfm_byte marks type false) payload)
        (u8 (crc >>> 8)) false)
      (u8 crc) false
