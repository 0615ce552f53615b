-- ===== src/Devices/Floppy/Store.antt =====
-- How devices/floppy/FloppyDiskImage.cpp stores a sector and writes the image back.
pub mod ReadBack
use cute_mac.Base.{
  ℕ, zero, suc, ◌+◌, ◌-◌, ◌*◌, ◌/◌, ◌%◌, ◌^◌, Bool, true, false, not, ◌&&◌, ◌||◌, List, [], ◌∷◌,
  ◌++◌, Option, none, some, ltb, leb, ◌==◌, if◌then◌else◌, length, take, drop, mid, byte_at, set,
  u8, u32, ◌>>>◌, bit_or,
}
use cute_mac.Devices.Floppy.Geometry.{bytes_per_sector, tag_bytes_per_sector, first_block_for_track}
use cute_mac.Devices.Floppy.Disk.{
  Kind, is_disk_copy, Files, Floppy, block_in_image, invalidate_track_cache, mfm_sectors_per_track,
}

-- `readBe32`
unfoldable pub read_be32 : List ℕ → ℕ → ℕ
read_be32 bytes offset =
    if ltb (length bytes) (offset + 4)
    then 0
    else bit_or
        (bit_or (bit_or (byte_at bytes offset * 2 ^ 24) (byte_at bytes (offset + 1) * 2 ^ 16))
          (byte_at bytes (offset + 2) * 2 ^ 8))
        (byte_at bytes (offset + 3))

-- `writeBe32`
unfoldable pub write_be32 : List ℕ → ℕ → ℕ → List ℕ
write_be32 bytes offset value =
    if ltb (length bytes) (offset + 4)
    then bytes
    else set
        (set (set (set bytes offset (u8 (value >>> 24))) (offset + 1) (u8 (value >>> 16)))
          (offset + 2) (u8 (value >>> 8)))
        (offset + 3) (u8 value)

-- One round of the loop of `diskCopyChecksum`, on a sum of 32 bits.
abbrev pub checksum_step : ℕ → ℕ → ℕ → ℕ
checksum_step checksum high low =
    let added = u32 (checksum + bit_or (high * 2 ^ 8) low) in
    u32 (bit_or (added >>> 1) (added * 2 ^ 31))

-- `diskCopyChecksum`. An odd byte at the end is left out.
unfoldable pub disk_copy_checksum : ℕ → List ℕ → ℕ
disk_copy_checksum checksum (high ∷ low ∷ bytes) =
    disk_copy_checksum (checksum_step checksum high low) bytes
disk_copy_checksum checksum bytes = checksum

unfoldable pub concat : List (List ℕ) → List ℕ
concat [] = []
concat (tag ∷ tags) = tag ++ concat tags

abbrev pub disk_copy_header_bytes : ℕ
disk_copy_header_bytes = 84

-- The file that `persistImage` writes.
unfoldable pub image_file : Floppy → List ℕ
image_file f =
    let tag_bytes = concat f.tags in
    if is_disk_copy f.kind
    then write_be32
        (write_be32 (f.disk_copy_header ++ (f.data_bytes ++ tag_bytes)) 72
          (disk_copy_checksum 0 f.data_bytes))
        76 (disk_copy_checksum 0 (drop tag_bytes_per_sector tag_bytes))
    else f.data_bytes

-- `std::copy` of a sector into the data.
abbrev pub store_block : ℕ → List ℕ → List ℕ → List ℕ
store_block block sector bytes =
    let offset = block * bytes_per_sector in
    take offset bytes ++ (sector ++ drop (offset + bytes_per_sector) bytes)

-- The block of a sector on the track under the head.
unfoldable pub block_under_head : ℕ → Floppy → ℕ
block_under_head sector f =
    if f.high_density
    then (f.current_track * 2 + f.current_side) * mfm_sectors_per_track + sector
    else first_block_for_track f.current_track f.current_side f.double_sided + sector

-- The state with a sector and its tag in place.
unfoldable pub with_sector : ℕ → List ℕ → List ℕ → Floppy → Floppy
with_sector block sector tag f = record f {
  data_bytes = store_block block sector f.data_bytes;
  tags =
      if not (length tag == 0) && ltb block (length f.tags) && (length tag == tag_bytes_per_sector)
      then set f.tags block tag
      else f.tags;
}

module _ {W : Type 0} (files : Files W) where
  -- `persistImage`
  unfoldable pub persist_image : Floppy → W → Bool × W
  persist_image f w =
      if not f.writable || (length f.path == 0)
      then (false, w)
      else if is_disk_copy f.kind && not (length f.disk_copy_header == disk_copy_header_bytes)
      then (false, w)
      else files.save_file f.path (image_file f) w

  -- `commitSector`
  unfoldable pub commit_sector : ℕ → List ℕ → List ℕ → Floppy → W → Bool × Floppy × W
  commit_sector logical_sector sector tag f w =
      let block = block_under_head logical_sector f in
      let g = with_sector block sector tag f in
      let (saved, w') = persist_image g w in
      if not (length sector == bytes_per_sector)
      then (false, f, w)
      else if not (block_in_image block f)
      then (false, f, w)
      else if saved
      then (true, invalidate_track_cache g, w')
      else (false, record g { write_failed = true }, w')
