-- ===== src/Devices/Floppy/Disk.antt =====
-- The state of devices/floppy/FloppyDiskImage.cpp, its tracks and how a sector is stored.
-- The files are the parameter `Files`, and `W` is their state; the debug trace is left out.
use cute_mac.Base.{
  ℕ, zero, suc, ◌+◌, ◌-◌, ◌*◌, ◌/◌, ◌%◌, Bool, true, false, not, ◌&&◌, ◌||◌, List, [], ◌∷◌, ◌++◌,
  Option, none, some, ltb, ◌==◌, if◌then◌else◌, length, get_elem?, replicate, mid, byte_at, u8,
  ◌>>>◌, bit_and, bit_or, bit_xor,
}
use cute_mac.Devices.Floppy.Gcr.{gcr, append_encoded_payload}
use cute_mac.Devices.Floppy.Mfm.{append_mfm_repeated, append_mfm_field, Track}
use cute_mac.Devices.Floppy.Geometry.{
  bytes_per_sector, tag_bytes_per_sector, encoded_payload_bytes, sectors_for_track,
  first_block_for_track, interleaved_sector_order,
}

-- `FloppyDiskImage::Kind`
pub data Kind : Type 0 where
  empty : Kind
  raw_400k : Kind
  raw_800k : Kind
  raw_1440k : Kind
  disk_copy_42 : Kind

abbrev pub is_empty : Kind → Bool
is_empty empty = true
is_empty _ = false

abbrev pub is_disk_copy : Kind → Bool
is_disk_copy disk_copy_42 = true
is_disk_copy _ = false

-- A path is the text of a QString.
pub record Files (W : Type 0) : Type 0 where
  -- QFile::open for reading and readAll: none where the file cannot be opened
  pub contents : List ℕ → W → Option (List ℕ)
  -- QFileInfo::isWritable
  pub is_writable : List ℕ → W → Bool
  -- QSaveFile: open, write, commit
  pub save_file : List ℕ → List ℕ → W → Bool × W

-- `m_trackCache`; `track` and `side` are -1 in a cache that was made invalid, which has no bytes.
pub record TrackCache : Type 0 where
  pub track : ℕ
  pub side : ℕ
  pub cursor : ℕ
  pub bytes : List ℕ
  pub marks : List Bool

pub record Floppy : Type 0 where
  pub path : List ℕ
  pub kind : Kind
  pub data_bytes : List ℕ
  pub tags : List (List ℕ)
  pub disk_copy_header : List ℕ
  pub writable : Bool
  pub force_read_only : Bool
  pub double_sided : Bool
  pub high_density : Bool
  pub media_changed : Bool
  pub motor_on : Bool
  pub current_track : ℕ
  pub current_side : ℕ
  pub track_cache : TrackCache
  pub write_bytes : List ℕ
  pub write_marks : List Bool
  pub write_mfm_sector : Option ℕ
  pub write_failed : Bool

abbrev pub no_track_cache : TrackCache
no_track_cache = record { track = 0; side = 0; cursor = 0; bytes = []; marks = [] }

abbrev pub inserted : Floppy → Bool
inserted f = not (is_empty f.kind)

abbrev pub invalidate_track_cache : Floppy → Floppy
invalidate_track_cache f = record f { track_cache = no_track_cache }

-- `block < m_data.size() / bytesPerSector`
abbrev pub block_in_image : ℕ → Floppy → Bool
block_in_image block f = ltb block (length f.data_bytes / bytes_per_sector)

-- `m_tags[i]`, where there is one.
abbrev pub tag_at : List (List ℕ) → ℕ → List ℕ
tag_at tags i = elim (get_elem? tags i) [ some tag ↦ tag | none ↦ [] ]

-- `sectorPayload`
unfoldable pub sector_payload : ℕ → ℕ → ℕ → Floppy → List ℕ
sector_payload track side logical_sector f =
    let block = first_block_for_track track side f.double_sided + logical_sector in
    let tag =
      if ltb block (length f.tags) && (length (tag_at f.tags block) == tag_bytes_per_sector)
      then tag_at f.tags block
      else replicate tag_bytes_per_sector 0 in
    if block_in_image block f
    then tag ++ mid f.data_bytes (block * bytes_per_sector) bytes_per_sector
    else replicate encoded_payload_bytes 0

-- The header of a sector: `appendSector` up to the data field.
abbrev pub address_field : ℕ → ℕ → ℕ → Bool → List ℕ
address_field track side logical_sector double_sided =
    let format_byte = if double_sided then 0x22 else 0x02 in
    let track_low = u8 (bit_and track 0x3f) in
    let side_and_track_high =
      u8 (bit_or (bit_and (track >>> 6) 0x01) (if side == 0 then 0x00 else 0x20)) in
    let checksum =
      u8 (bit_xor (bit_xor (bit_xor format_byte track_low) side_and_track_high) logical_sector) in
    0xd5
    ∷ 0xaa
    ∷ 0x96
    ∷ gcr track_low
    ∷ gcr logical_sector
    ∷ gcr side_and_track_high
    ∷ gcr format_byte
    ∷ gcr checksum
    ∷ 0xde
    ∷ 0xaa
    ∷ 0xff
    ∷ []

-- The data field of a sector, between its two gaps.
abbrev pub data_field : ℕ → List ℕ → List ℕ
data_field logical_sector payload =
    append_encoded_payload (0xd5 ∷ 0xaa ∷ 0xad ∷ gcr logical_sector ∷ []) payload
    ++ 0xde ∷ 0xaa ∷ 0xff ∷ []

-- `appendSector`
unfoldable pub append_sector : List ℕ → ℕ → ℕ → ℕ → Floppy → List ℕ
append_sector track_bytes track side logical_sector f =
    track_bytes
    ++ replicate 18 0xff
    ++ address_field track side logical_sector f.double_sided
    ++ replicate 14 0xff
    ++ data_field logical_sector (sector_payload track side logical_sector f)
    ++ replicate 8 0xff

abbrev pub append_sectors : List ℕ → ℕ → ℕ → List ℕ → Floppy → List ℕ
append_sectors track_bytes track side [] f = track_bytes
append_sectors track_bytes track side (sector ∷ order) f =
    append_sectors (append_sector track_bytes track side sector f) track side order f

-- `buildTrackBytes`
unfoldable pub build_track_bytes : ℕ → ℕ → Floppy → List ℕ
build_track_bytes track side f =
    if inserted f
    then append_sectors (replicate 48 0xff) track side
        (interleaved_sector_order (sectors_for_track track)) f
      ++ replicate 128 0xff
    else []

abbrev pub mfm_sectors_per_track : ℕ
mfm_sectors_per_track = 18

-- The loop of `buildMfmTrack`, with `left` sectors to go.
unfoldable pub append_mfm_sectors : ℕ → ℕ → ℕ → ℕ → Floppy → Track → Track
append_mfm_sectors zero sector track side f bytes = bytes
append_mfm_sectors (suc left) sector track side f bytes =
    let block = (track * 2 + side) * mfm_sectors_per_track + sector in
    let address = u8 track ∷ u8 side ∷ u8 (sector + 1) ∷ 2 ∷ [] in
    let header = append_mfm_field (append_mfm_repeated bytes 0x00 12) 0xfe address 0xa1 in
    let gap = append_mfm_repeated (append_mfm_repeated header 0x4e 22) 0x00 12 in
    let field =
      append_mfm_field gap 0xfb (mid f.data_bytes (block * bytes_per_sector) bytes_per_sector)
        0xa1 in
    append_mfm_sectors left (suc sector) track side f (append_mfm_repeated field 0x4e 101)

abbrev pub bytes_per_revolution : ℕ
bytes_per_revolution = 12500

-- `buildMfmTrack`. A negative count of bytes to append appends none.
unfoldable pub build_mfm_track : ℕ → ℕ → Floppy → Track
build_mfm_track track side f =
    let start = append_mfm_repeated (append_mfm_repeated ([], []) 0x4e 80) 0x00 12 in
    let index = append_mfm_repeated (append_mfm_field start 0xfc [] 0xc2) 0x4e 50 in
    let all = append_mfm_sectors mfm_sectors_per_track 0 track side f index in
    append_mfm_repeated all 0x4e (bytes_per_revolution - length all.0)

-- `rebuildTrackCache`
unfoldable pub rebuild_track_cache : Floppy → Floppy
rebuild_track_cache f =
    let mfm = build_mfm_track f.current_track f.current_side f in
    record f {
      track_cache = record {
        track = f.current_track;
        side = f.current_side;
        cursor = 0;
        bytes =
            if f.high_density then mfm.0 else build_track_bytes f.current_track f.current_side f;
        marks = if f.high_density then mfm.1 else [];
      };
    }

abbrev pub cache_stale : Floppy → Bool
cache_stale f =
    (length f.track_cache.bytes == 0)
    || not (f.track_cache.track == f.current_track)
    || not (f.track_cache.side == f.current_side)

-- `DiskByte`
pub record DiskByte : Type 0 where
  pub value : ℕ
  pub mark : Bool

abbrev no_byte : DiskByte
no_byte = record { value = 0; mark = false }

abbrev mark_at : List Bool → ℕ → Bool
mark_at marks i = elim (get_elem? marks i) [ some mark ↦ mark | none ↦ false ]

-- `peekDiskByte`
unfoldable pub peek_disk_byte : Floppy → DiskByte × Floppy
peek_disk_byte f =
    let g = if cache_stale f then rebuild_track_cache f else f in
    let cache = g.track_cache in
    if not (inserted f) || not f.motor_on
    then (no_byte, f)
    else if length cache.bytes == 0
    then (no_byte, g)
    else (
      record {
        value = u8 (byte_at cache.bytes cache.cursor);
        mark = mark_at cache.marks cache.cursor;
      },
      g,
    )

-- `nextDiskByte`, without the trace.
unfoldable pub next_disk_byte : Floppy → DiskByte × Floppy
next_disk_byte f =
    let (disk_byte, g) = peek_disk_byte f in
    let cache = g.track_cache in
    let cursor = (cache.cursor + 1) % length cache.bytes in
    if not (inserted f) || not f.motor_on || (length cache.bytes == 0)
    then (disk_byte, g)
    else (disk_byte, record g { track_cache = record cache { cursor = cursor } })
