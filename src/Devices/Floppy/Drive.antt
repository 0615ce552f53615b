-- ===== src/Devices/Floppy/Drive.antt =====
-- The drive's operations of devices/floppy/FloppyDiskImage.cpp: writing a byte, moving the head,
-- the motor, ejecting and loading a disk.
pub mod Head
pub mod Ops
use cute_mac.Base.{
  ℕ, zero, suc, ◌+◌, ◌-◌, ◌*◌, ◌/◌, ◌%◌, ◌^◌, min, Bool, true, false, not, ◌&&◌, ◌||◌, List, [],
  ◌∷◌, ◌++◌, Option, none, some, ltb, leb, ◌==◌, if◌then◌else◌, length, take, drop, mid, byte_at,
  same_bytes, replicate, bit_or, u32, sub32, ℤ, pos, negsuc, ◌+ℤ◌,
}
use cute_mac.Devices.Floppy.Geometry.{bytes_per_sector, tag_bytes_per_sector, tracks_per_side}
use cute_mac.Devices.Floppy.Store.{read_be32, disk_copy_header_bytes}
use cute_mac.Devices.Floppy.Write.{process_writes, less_one}
use cute_mac.Devices.Floppy.Disk.{
  Kind, empty, raw_400k, raw_800k, raw_1440k, disk_copy_42, is_empty, Files, Floppy, inserted,
  cache_stale, rebuild_track_cache, invalidate_track_cache, no_track_cache,
}

-- The loop of `inferMfmSectorAtCursor` from an offset on: `left` offsets, the sector found so far
-- (none is -1), and the bytes from that offset.
unfoldable pub infer_from : ℕ → Option ℕ → List ℕ → Option ℕ
infer_from zero sector bytes = sector
infer_from (suc left) sector [] = sector
infer_from (suc left) sector (byte ∷ bytes) =
    let found = same_bytes (take 4 (byte ∷ bytes)) (0xa1 ∷ 0xa1 ∷ 0xa1 ∷ 0xfe ∷ []) in
    infer_from left (if found then less_one (byte_at (byte ∷ bytes) 6) else sector) bytes

-- `inferMfmSectorAtCursor`
unfoldable pub infer_mfm_sector_at_cursor : Floppy → Option ℕ
infer_mfm_sector_at_cursor f =
    infer_from (min f.track_cache.cursor (length f.track_cache.bytes) - 7) none f.track_cache.bytes

abbrev pub maximum_write_window : ℕ
maximum_write_window = 16384

-- The written bytes are cut to the window.
abbrev pub cut_window : Floppy → Floppy
cut_window f =
    let excess = length f.write_bytes - maximum_write_window in
    if ltb maximum_write_window (length f.write_bytes)
    then record f {
      write_bytes = drop excess f.write_bytes;
      write_marks = drop excess f.write_marks;
    }
    else f

-- `writeDiskByte` up to the processing of the bytes.
unfoldable pub take_byte : ℕ → Bool → Floppy → Floppy
take_byte value mark f =
    let g = if cache_stale f then rebuild_track_cache f else f in
    let cache = g.track_cache in
    let sector =
      if g.high_density
        && (length g.write_bytes == 0)
        && (elim g.write_mfm_sector [ none ↦ true | some s ↦ false ])
      then infer_mfm_sector_at_cursor g
      else g.write_mfm_sector in
    record g {
      write_mfm_sector = sector;
      write_bytes = g.write_bytes ++ value ∷ [];
      write_marks = g.write_marks ++ mark ∷ [];
      track_cache =
          if length cache.bytes == 0
          then cache
          else record cache { cursor = (cache.cursor + 1) % length cache.bytes };
    }

-- The flags and positions that a disk starts with: the end of `loadRaw` and `loadDiskCopy42`.
abbrev pub reset_head : Floppy → Floppy
reset_head f = record f {
  current_track = 0;
  current_side = 0;
  track_cache = no_track_cache;
  write_bytes = [];
  write_marks = [];
  write_mfm_sector = none;
  write_failed = false;
}

-- `m_mediaChanged` of a disk that is loaded over a state.
abbrev pub media_changed_by : List ℕ → Floppy → Bool
media_changed_by path f = not (is_empty f.kind) || not (same_bytes f.path path) || f.media_changed

abbrev pub is_raw_400k : Kind → Bool
is_raw_400k raw_400k = true
is_raw_400k _ = false

abbrev pub is_raw_1440k : Kind → Bool
is_raw_1440k raw_1440k = true
is_raw_1440k _ = false

abbrev pub raw_400k_bytes : ℕ
raw_400k_bytes = 400 * 1024

abbrev pub raw_800k_bytes : ℕ
raw_800k_bytes = 800 * 1024

abbrev pub raw_1440k_bytes : ℕ
raw_1440k_bytes = 1440 * 1024

abbrev pub hfs_geometry_slack_bytes : ℕ
hfs_geometry_slack_bytes = 4 * 1024

abbrev pub be16 : List ℕ → ℕ → ℕ
be16 bytes offset = bit_or (byte_at bytes offset * 2 ^ 8) (byte_at bytes (offset + 1))

-- `truncatedRawHfsKind`
unfoldable pub truncated_raw_hfs_kind : List ℕ → Kind
truncated_raw_hfs_kind bytes =
    let size = length bytes in
    let target_bytes = if ltb size raw_800k_bytes then raw_800k_bytes else raw_1440k_bytes in
    let mdb = mid bytes 1024 32 in
    let allocation_blocks = be16 mdb 18 in
    let allocation_block_size = bit_or (be16 mdb 20 * 2 ^ 16) (be16 mdb 22) in
    let volume_bytes = be16 mdb 28 * bytes_per_sector + allocation_blocks * allocation_block_size in
    if leb size raw_400k_bytes || leb raw_1440k_bytes size || ltb size 1056
    then empty
    else if not (be16 mdb 0 == 0x4244)
        || (allocation_blocks == 0)
        || (allocation_block_size == 0)
        || leb volume_bytes size
        || ltb (target_bytes + hfs_geometry_slack_bytes) volume_bytes
    then empty
    else if target_bytes == raw_800k_bytes
    then raw_800k
    else raw_1440k

-- `QByteArray::resize` to a larger size.
abbrev pub padded : List ℕ → ℕ → List ℕ
padded bytes size = bytes ++ replicate (size - length bytes) 0

-- The tags of `count` blocks.
unfoldable pub split_tags : ℕ → List ℕ → List (List ℕ)
split_tags zero bytes = []
split_tags (suc count) bytes =
    take tag_bytes_per_sector bytes ∷ split_tags count (drop tag_bytes_per_sector bytes)

-- `std::clamp(track, 0, tracksPerSide - 1)`
abbrev pub clamp_track : ℤ → ℕ
clamp_track (negsuc n) = 0
clamp_track (pos n) = min n (tracks_per_side - 1)

-- `std::clamp(side, 0, 1)`
abbrev pub clamp_side : ℤ → ℕ
clamp_side (negsuc n) = 0
clamp_side (pos n) = min n 1

module _ {W : Type 0} (files : Files W) where
  -- `loadRaw`
  unfoldable pub load_raw : List ℕ → List ℕ → Kind → Floppy → W → Floppy
  load_raw path bytes kind f w = reset_head record f {
    path = path;
    kind = kind;
    data_bytes = bytes;
    tags = [];
    disk_copy_header = [];
    writable = not f.force_read_only && files.is_writable path w;
    double_sided = not (is_raw_400k kind);
    high_density = is_raw_1440k kind;
    media_changed = media_changed_by path f;
  }

  -- `loadDiskCopy42`
  unfoldable pub load_disk_copy_42 : List ℕ → List ℕ → Floppy → W → Bool × Floppy
  load_disk_copy_42 path bytes f w =
      let data_size = read_be32 bytes 64 in
      let tag_size = read_be32 bytes 68 in
      if not (data_size == raw_400k_bytes)
          && not (data_size == raw_800k_bytes)
          && not (data_size == raw_1440k_bytes)
        || ltb (length bytes) (u32 (disk_copy_header_bytes + data_size + tag_size))
      then (false, f)
      else if not (tag_size == 0)
          && not (tag_size == u32 (data_size / bytes_per_sector * tag_bytes_per_sector))
      then (false, f)
      else (
        true,
        reset_head record f {
          path = path;
          kind = disk_copy_42;
          disk_copy_header = take disk_copy_header_bytes bytes;
          data_bytes = mid bytes disk_copy_header_bytes data_size;
          tags =
              if tag_size == 0
              then []
              else split_tags (tag_size / tag_bytes_per_sector)
                  (mid bytes (disk_copy_header_bytes + data_size) tag_size);
          writable = not f.force_read_only && files.is_writable path w;
          double_sided = not (data_size == raw_400k_bytes);
          high_density = data_size == raw_1440k_bytes;
          media_changed = media_changed_by path f;
        },
      )

  -- `load` of a file that has been read.
  unfoldable pub load_bytes : List ℕ → List ℕ → Floppy → W → Bool × Floppy
  load_bytes path bytes f w =
      let size = length bytes in
      if size == raw_400k_bytes
      then (true, load_raw path bytes raw_400k f w)
      else if size == raw_800k_bytes
      then (true, load_raw path bytes raw_800k f w)
      else if size == raw_1440k_bytes
      then (true, load_raw path bytes raw_1440k f w)
      else elim (truncated_raw_hfs_kind bytes) [
        | raw_800k ↦ (true, load_raw path (padded bytes raw_800k_bytes) raw_800k f w)
        | raw_1440k ↦ (true, load_raw path (padded bytes raw_1440k_bytes) raw_1440k f w)
        | _ ↦ if leb 84 size then load_disk_copy_42 path bytes f w else (false, f)
      ]

  -- `load`
  unfoldable pub load : List ℕ → Bool → Floppy → W → Bool × Floppy
  load path read_only f w =
      let g = record f { force_read_only = read_only } in
      elim (files.contents path w) [ none ↦ (false, g) | some bytes ↦ load_bytes path bytes g w ]

  -- `writeDiskByte`; none only where the loop over the written bytes had too few rounds.
  unfoldable pub write_disk_byte : ℕ → Bool → Floppy → W → Option (Bool × Floppy × W)
  write_disk_byte value mark f w =
      if not f.writable || not (inserted f) || not f.motor_on
      then some (false, record f { write_failed = true }, w)
      else elim (process_writes files (take_byte value mark f) w) [
        | none ↦ none
        | some r ↦ some (r.0 || not r.1.write_failed, cut_window r.1, r.2)
      ]

  abbrev pub clear_written : Floppy → Floppy
  clear_written f = record f {
    write_bytes = [];
    write_marks = [];
    write_mfm_sector = none;
    write_failed = false;
  }

  -- `flushWrites`
  unfoldable pub flush_writes : Floppy → W → Option (Bool × Floppy × W)
  flush_writes f w =
      if length f.write_bytes == 0
      then some (not f.write_failed, clear_written f, w)
      else elim (process_writes files f w) [
        | none ↦ none
        | some r ↦ some (not r.1.write_failed, clear_written r.1, r.2)
      ]

  -- What follows a flush whose result is not looked at.
  abbrev pub flushed : (Floppy → Floppy) → Floppy → W → Option (Floppy × W)
  flushed next f w = elim (flush_writes f w) [ none ↦ none | some r ↦ some (next r.1, r.2) ]

  -- `eject`
  unfoldable pub eject : Floppy → W → Option (Floppy × W)
  eject = flushed λ f. reset_head record f {
    media_changed = not (is_empty f.kind) || f.media_changed;
    path = [];
    kind = empty;
    data_bytes = [];
    tags = [];
    disk_copy_header = [];
    writable = false;
    double_sided = false;
    high_density = false;
    motor_on = false;
  }

  -- `setCurrentTrack`
  unfoldable pub set_current_track : ℤ → Floppy → W → Option (Floppy × W)
  set_current_track track f w =
      if f.current_track == clamp_track track
      then some (f, w)
      else flushed
          (λ g. record g { current_track = clamp_track track; track_cache = no_track_cache }) f w

  -- `step`
  unfoldable pub step : Bool → Floppy → W → Option (Floppy × W)
  step toward_track_zero f w =
      set_current_track (pos f.current_track +ℤ (if toward_track_zero then negsuc 0 else pos 1)) f w

  -- `setCurrentSide`
  unfoldable pub set_current_side : ℤ → Floppy → W → Option (Floppy × W)
  set_current_side side f w =
      let clamped = if f.double_sided then clamp_side side else 0 in
      if f.current_side == clamped
      then some (f, w)
      else flushed (λ g. record g { current_side = clamped; track_cache = no_track_cache }) f w

  -- `setMotorOn`
  unfoldable pub set_motor_on : Bool → Floppy → W → Option (Floppy × W)
  set_motor_on on f w =
      if f.motor_on && not on
      then flushed (λ g. record g { motor_on = on }) f w
      else some (record f { motor_on = on }, w)
