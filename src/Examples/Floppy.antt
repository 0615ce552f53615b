-- ===== src/Examples/Floppy.antt =====
-- A disk of two blocks with tags, and files that take every image.
use cute_mac.Base.{
  byte_at, ℕ, zero, suc, ◌+◌, ◌<◌, Bool, true, false, List, [], ◌∷◌, ◌++◌, none, some, length,
  AllBytes, ◌≡◌, refl, replicate, pos, arith,
}
use cute_mac.Devices.Floppy.Geometry.{
  sectors_for_track, blocks_before, first_block_for_track, interleaved_sector_order,
}
use cute_mac.Devices.Floppy.Geometry.Blocks.{
  first_block_for_track-in_image, first_block_for_track-apart,
}
use cute_mac.Devices.Floppy.Geometry.Order.{count, slot_of, interleaved_sector_order-each}
use cute_mac.Devices.Floppy.Gcr.{decode_gcr_payload, append_encoded_payload}
use cute_mac.Devices.Floppy.Gcr.RoundTrip.{decode_gcr_payload-encode}
use cute_mac.Devices.Floppy.Disk.{Files, Floppy, raw_400k, no_track_cache, sector_payload}
use cute_mac.Devices.Floppy.Store.{block_under_head, with_sector, persist_image, commit_sector}
use cute_mac.Devices.Floppy.Store.ReadBack.{sector_payload-commit_sector}
use cute_mac.Devices.Floppy.Write.{record_bytes, remove_written, process_gcr_writes}
use cute_mac.Devices.Floppy.Write.Ends.{process_gcr_writes-ends}
use cute_mac.Devices.Floppy.Write.Accept.{committed, written, process_gcr_writes-data_field}
use cute_mac.Devices.Floppy.Drive.Head.{IsOnDisk}
use cute_mac.Devices.Floppy.Drive.Ops.{
  seek, step_head, write_byte, eject_disk, operate_all, operate_all-IsOnDisk,
}

abbrev every_image : Files (List ℕ)
every_image = record {
  contents = λ path image. some image;
  is_writable = λ path image. true;
  save_file = λ path bytes image. (true, bytes);
}

abbrev small_disk : Floppy
small_disk = record {
  path = 100 ∷ [];
  kind = raw_400k;
  data_bytes = replicate 1024 0;
  tags = replicate 12 0 ∷ replicate 12 0 ∷ [];
  disk_copy_header = [];
  writable = true;
  force_read_only = false;
  double_sided = false;
  high_density = false;
  media_changed = false;
  motor_on = true;
  current_track = 0;
  current_side = 0;
  track_cache = no_track_cache;
  write_bytes = [];
  write_marks = [];
  write_mfm_sector = none;
  write_failed = false;
}

abbrev sevens : List ℕ
sevens = replicate 524 7

all_sevens : (n : ℕ) → AllBytes (replicate n 7)
unfolding replicate
all_sevens zero = tt
all_sevens (suc n) = (omega arith, all_sevens n)

decode_gcr_payload-encode_example :
    decode_gcr_payload (append_encoded_payload [] sevens) ≡ some sevens
unfolding replicate
decode_gcr_payload-encode_example = decode_gcr_payload-encode sevens refl (all_sevens 524)

first_block_for_track-in_image_example : first_block_for_track 79 1 true + 7 < 1600
unfolding sectors_for_track
first_block_for_track-in_image_example =
    first_block_for_track-in_image 79 1 7 true (omega arith) (omega arith) (omega arith)

first_block_for_track-apart_example : ◌≡◌ {A = ℕ} 20 20 × ◌≡◌ {A = ℕ} 1 1 × ◌≡◌ {A = ℕ} 10 10
unfolding sectors_for_track
first_block_for_track-apart_example =
    first_block_for_track-apart true 20 20 1 1 10 10 (omega arith) (omega arith) (omega arith)
      (omega arith) refl

interleaved_sector_order-each_example :
    (length (interleaved_sector_order (sectors_for_track 20)) ≡ sectors_for_track 20)
    × (count 3 (interleaved_sector_order (sectors_for_track 20)) ≡ 1)
    × (byte_at (interleaved_sector_order (sectors_for_track 20)) (slot_of (sectors_for_track 20) 3)
        ≡ 3)
unfolding sectors_for_track
interleaved_sector_order-each_example =
    interleaved_sector_order-each 20 3 (omega arith) (omega arith)

sector_payload-commit_sector_example :
    let (done, g, w') =
      commit_sector every_image 1 (replicate 512 9) (replicate 12 5) small_disk [] in
    (done ≡ true)
    × (sector_payload g.current_track g.current_side 1 g ≡ replicate 12 5 ++ replicate 512 9)
unfolding replicate block_under_head first_block_for_track blocks_before with_sector persist_image
sector_payload-commit_sector_example =
    sector_payload-commit_sector every_image 1 (replicate 512 9) (replicate 12 5) small_disk [] refl
      refl refl (omega arith) (omega arith) refl

process_gcr_writes-ends_example :
    (r : Bool × Floppy × List ℕ) × (process_gcr_writes every_image (written 1 sevens small_disk) []
      ≡ some r)
process_gcr_writes-ends_example =
    process_gcr_writes-ends every_image (written 1 sevens small_disk) []

process_gcr_writes-data_field_example :
    let (done, g, w') = committed every_image 1 sevens small_disk [] in
    process_gcr_writes every_image (written 1 sevens small_disk) []
    ≡ some (done, remove_written record_bytes g, w')
unfolding replicate sectors_for_track
process_gcr_writes-data_field_example =
    process_gcr_writes-data_field every_image 1 sevens small_disk [] refl (all_sevens 524)
      (omega arith)

operate_all-IsOnDisk_example :
    (s : Floppy × List ℕ) × (operate_all every_image
        (seek (pos 90) ∷ step_head false ∷ write_byte 0xd5 false ∷ eject_disk ∷ [])
        small_disk
        []
      ≡ some s)
    × IsOnDisk s.0
operate_all-IsOnDisk_example =
    operate_all-IsOnDisk every_image
      (seek (pos 90) ∷ step_head false ∷ write_byte 0xd5 false ∷ eject_disk ∷ []) small_disk []
      (omega arith, omega arith)
