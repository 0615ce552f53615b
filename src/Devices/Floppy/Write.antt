-- ===== src/Devices/Floppy/Write.antt =====
-- The bytes that the drive writes to a track of devices/floppy/FloppyDiskImage.cpp.
pub mod Ends
pub mod Accept
use cute_mac.Base.{
  ℕ, zero, suc, ◌+◌, ◌-◌, ◌*◌, ◌/◌, ◌%◌, ◌^◌, min, Bool, true, false, not, ◌&&◌, ◌||◌, List, [],
  ◌∷◌, ◌++◌, Option, none, some, ltb, leb, ◌==◌, if◌then◌else◌, length, take, drop, mid, byte_at,
  same_bytes, bit_or, u16,
}
use cute_mac.Devices.Floppy.Geometry.{bytes_per_sector, tag_bytes_per_sector, sectors_for_track}
use cute_mac.Devices.Floppy.Gcr.{decode_gcr, decode_gcr_payload}
use cute_mac.Devices.Floppy.Mfm.{mfm_crc}
use cute_mac.Devices.Floppy.Store.{commit_sector}
use cute_mac.Devices.Floppy.Disk.{Files, Floppy, inserted, cache_stale, rebuild_track_cache}

-- `QByteArray::indexOf` of three bytes, from an index on.
unfoldable pub index_of : ℕ → ℕ → ℕ → ℕ → List ℕ → Option ℕ
index_of i a b c (x ∷ y ∷ z ∷ bytes) =
    if (x == a) && (y == b) && (z == c) then some i else index_of (suc i) a b c (y ∷ z ∷ bytes)
index_of i a b c bytes = none

-- Both `remove(0, count)`.
abbrev pub remove_written : ℕ → Floppy → Floppy
remove_written count f = record f {
  write_bytes = drop count f.write_bytes;
  write_marks = drop count f.write_marks;
}

-- No prologue: all but the last two bytes are dropped.
abbrev pub keep_two : Floppy → Floppy
keep_two f =
    if ltb 2 (length f.write_bytes)
    then record f {
      write_bytes = drop (length f.write_bytes - 2) f.write_bytes;
      write_marks = drop (length f.write_marks - 2) f.write_marks;
    }
    else f

-- What a round of the loop does: return, or go on.
pub data Round (W : Type 0) : Type 0 where
  leave : Floppy → W → Round W
  go_on : Bool → Floppy → W → Round W

abbrev pub record_bytes : ℕ
record_bytes = 710

-- The three marks, the type, a sector and the checksum.
abbrev pub data_record_bytes : ℕ
data_record_bytes = 3 + 1 + bytes_per_sector + 2

-- `int` from a byte, less one; none is -1.
abbrev pub less_one : ℕ → Option ℕ
less_one zero = none
less_one (suc n) = some n

-- A field of the written bytes is as its two checksum bytes say.
abbrev pub crc_good : List ℕ → ℕ → Bool
crc_good bytes size =
    mfm_crc (take size bytes)
    == bit_or (u16 (byte_at bytes size * 2 ^ 8)) (byte_at bytes (size + 1))

-- An ID field chooses the sector of the data field that follows, where it is good and names the
-- track under the head.
unfoldable pub mfm_address : Floppy → Floppy
mfm_address f =
    let bytes = f.write_bytes in
    if crc_good bytes 8
      && (byte_at bytes 4 == f.current_track)
      && (byte_at bytes 5 == f.current_side)
      && (byte_at bytes 7 == 2)
    then record f { write_mfm_sector = less_one (byte_at bytes 6) }
    else f

module _ {W : Type 0} (files : Files W) where
  -- The record at the head of the written bytes: its sector is stored where the record is good.
  unfoldable pub gcr_record : Floppy → W → Bool × Floppy × W
  gcr_record f w =
      let bytes = f.write_bytes in
      let failed : Bool × Floppy × W = (false, record f { write_failed = true }, w) in
      elim (decode_gcr (byte_at bytes 3)) [
        | none ↦ failed
        | some sector ↦
            if ltb sector (sectors_for_track f.current_track)
            then elim (decode_gcr_payload (mid bytes 4 703)) [
              | none ↦ failed
              | some payload ↦
                  commit_sector files sector (mid payload tag_bytes_per_sector bytes_per_sector)
                    (take tag_bytes_per_sector payload) f w
            ]
            else failed
      ]

  -- A round of the loop of `processGcrWrites` with the prologue at the head.
  unfoldable pub gcr_at_prologue : Floppy → W → Round W
  gcr_at_prologue g w =
      let (done, h, w') = gcr_record g w in
      if ltb (length g.write_bytes) record_bytes
      then leave g w
      else if not (same_bytes (mid g.write_bytes 707 3) (0xde ∷ 0xaa ∷ 0xff ∷ []))
      then go_on false (remove_written 1 g) w
      else go_on done (remove_written record_bytes h) w'

  unfoldable pub gcr_round : Floppy → W → Round W
  gcr_round f w = elim (index_of 0 0xd5 0xaa 0xad f.write_bytes) [
    | none ↦ leave (keep_two f) w
    | some prologue ↦ gcr_at_prologue (if prologue == 0 then f else remove_written prologue f) w
  ]

  -- The loop, with the `committed` so far; none where the rounds given do not suffice.
  unfoldable pub process_gcr_from : ℕ → Bool → Floppy → W → Option (Bool × Floppy × W)
  process_gcr_from zero committed f w = none
  process_gcr_from (suc rounds) committed f w = elim (gcr_round f w) [
    | leave g w' ↦ some (committed, g, w')
    | go_on done g w' ↦ process_gcr_from rounds (committed || done) g w'
  ]

  -- `processGcrWrites`: a round for every written byte, and one to leave.
  unfoldable pub process_gcr_writes : Floppy → W → Option (Bool × Floppy × W)
  process_gcr_writes f w = process_gcr_from (suc (length f.write_bytes)) false f w

  unfoldable pub mfm_data : Floppy → W → Bool × Floppy × W
  mfm_data f w =
      let bytes = f.write_bytes in
      let failed : Bool × Floppy × W = (false, record f { write_failed = true }, w) in
      elim f.write_mfm_sector [
        | none ↦ failed
        | some sector ↦
            if ltb sector 18 && crc_good bytes (4 + bytes_per_sector)
            then commit_sector files sector (mid bytes 4 bytes_per_sector) [] f w
            else failed
      ]

  -- A round of the loop of `processMfmWrites` with three marks at the head.
  unfoldable pub mfm_at_prologue : Floppy → W → Round W
  mfm_at_prologue g w =
      let size = length g.write_bytes in
      let type = byte_at g.write_bytes 3 in
      let (done, h, w') = mfm_data g w in
      if ltb size 4
      then leave g w
      else if type == 0xfe
      then (if ltb size 10 then leave g w else go_on false (remove_written 10 (mfm_address g)) w)
      else if (type == 0xfb) || (type == 0xf8)
      then (if ltb size data_record_bytes
          then leave g w
          else go_on done (remove_written data_record_bytes h) w')
      else go_on false (remove_written 1 g) w

  unfoldable pub mfm_round : Floppy → W → Round W
  mfm_round f w = elim (index_of 0 0xa1 0xa1 0xa1 f.write_bytes) [
    | none ↦ leave (keep_two f) w
    | some prologue ↦ mfm_at_prologue (if prologue == 0 then f else remove_written prologue f) w
  ]

  -- The loop, as `process_gcr_from` is one.
  unfoldable pub process_mfm_from : ℕ → Bool → Floppy → W → Option (Bool × Floppy × W)
  process_mfm_from zero committed f w = none
  process_mfm_from (suc rounds) committed f w = elim (mfm_round f w) [
    | leave g w' ↦ some (committed, g, w')
    | go_on done g w' ↦ process_mfm_from rounds (committed || done) g w'
  ]

  -- `processMfmWrites`
  unfoldable pub process_mfm_writes : Floppy → W → Option (Bool × Floppy × W)
  process_mfm_writes f w = process_mfm_from (suc (length f.write_bytes)) false f w

  unfoldable pub process_writes : Floppy → W → Option (Bool × Floppy × W)
  process_writes f w = if f.high_density then process_mfm_writes f w else process_gcr_writes f w
