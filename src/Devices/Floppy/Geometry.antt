-- ===== src/Devices/Floppy/Geometry.antt =====
-- Where devices/floppy/FloppyDiskImage.cpp finds the sectors of a disk of variable speed.
pub mod Blocks
pub mod Order
use cute_mac.Base.{
  ℕ, zero, suc, ◌+◌, ◌*◌, ◌%◌, Bool, true, false, List, [], ◌∷◌, ltb, ◌==◌, if◌then◌else◌,
  replicate, set,
}

abbrev pub bytes_per_sector : ℕ
bytes_per_sector = 512

abbrev pub tag_bytes_per_sector : ℕ
tag_bytes_per_sector = 12

abbrev pub encoded_payload_bytes : ℕ
encoded_payload_bytes = bytes_per_sector + tag_bytes_per_sector

abbrev pub tracks_per_side : ℕ
tracks_per_side = 80

unfoldable pub sectors_for_track : ℕ → ℕ
sectors_for_track track =
    if ltb track 16
    then 12
    else if ltb track 32
    then 11
    else if ltb track 48
    then 10
    else if ltb track 64
    then 9
    else 8

-- The loop over the tracks before one.
unfoldable pub blocks_before : ℕ → ℕ → ℕ
blocks_before heads zero = 0
blocks_before heads (suc track) = blocks_before heads track + sectors_for_track track * heads

unfoldable pub first_block_for_track : ℕ → ℕ → Bool → ℕ
first_block_for_track track side double_sided =
    blocks_before (if double_sided then 2 else 1) track
    + (if double_sided then side * sectors_for_track track else 0)

-- The loop of `interleavedSectorOrder` from a logical sector on, with `left` of them to place.
unfoldable pub place_sectors : ℕ → ℕ → ℕ → ℕ → List ℕ → List ℕ
place_sectors zero sectors logical slot order = order
place_sectors (suc left) sectors logical slot order =
    let next = (slot + 2) % sectors in
    place_sectors left sectors (suc logical) (if next == 0 then next + 1 else next)
      (set order slot logical)

unfoldable pub interleaved_sector_order : ℕ → List ℕ
interleaved_sector_order sectors = place_sectors sectors sectors 0 0 (replicate sectors 0)
