-- ===== src/Devices/Floppy/Drive/Head.antt =====
-- The head of a drive of devices/floppy/FloppyDiskImage.cpp stays on the disk.
use cute_mac.Base.{
  ℕ, zero, suc, ◌+◌, ◌<◌, Bool, false, not, ◌&&◌, ◌||◌, List, [], ◌∷◌, Option, none, some, ltb,
  ◌==◌, if◌then◌else◌, length, mid, byte_at, same_bytes, ◌≡◌, if_both, option_both,
}
use cute_mac.Devices.Floppy.Geometry.{bytes_per_sector, tracks_per_side, sectors_for_track}
use cute_mac.Devices.Floppy.Gcr.{decode_gcr, decode_gcr_payload}
use cute_mac.Devices.Floppy.Store.{block_under_head, with_sector, persist_image, commit_sector}
use cute_mac.Devices.Floppy.Disk.{Files, Floppy, block_in_image}
use cute_mac.Devices.Floppy.Write.{
  index_of, keep_two, remove_written, record_bytes, data_record_bytes, crc_good, Round, leave,
  go_on, gcr_record, gcr_at_prologue, gcr_round, process_gcr_from, process_gcr_writes, mfm_address,
  mfm_data, mfm_at_prologue, mfm_round, process_mfm_from, process_mfm_writes, process_writes,
}

-- The head is on one of the 80 tracks, and on a side that a disk of one or two sides has.
abbrev pub HasSides : Bool → Floppy → Type 0
HasSides b f =
    (f.double_sided ≡ b)
    × (f.current_track < tracks_per_side)
    × (f.current_side < (if b then 2 else 1))

-- The head is on one of the 80 tracks, and on a side that the disk has.
abbrev pub IsOnDisk : Floppy → Type 0
IsOnDisk f =
    (f.current_track < tracks_per_side) × (f.current_side < (if f.double_sided then 2 else 1))

abbrev RoundOn : {W : Type 0} → Bool → Round W → Type 0
RoundOn b (leave g w) = HasSides b g
RoundOn b (go_on done g w) = HasSides b g

abbrev pub ResultOn : {W : Type 0} → Bool → Option (Bool × Floppy × W) → Type 0
ResultOn b none = Unit {0}
ResultOn b (some r) = HasSides b r.1

module _ {W : Type 0} (files : Files W) (b : Bool) where
  abbrev On : Bool × Floppy × W → Type 0
  On s = HasSides b s.1

  commit-On :
      (sector : ℕ) (bytes tag : List ℕ) (f : Floppy) (w : W)
      → HasSides b f
      → On (commit_sector files sector bytes tag f w)
  unfolding commit_sector with_sector
  commit-On sector bytes tag f w h =
      if_both On (not (length bytes == bytes_per_sector)) _ _ (λ t. h)
        λ t.
          if_both On (not (block_in_image (block_under_head sector f) f)) _ _ (λ t. h)
            λ t.
              if_both On
                (persist_image files (with_sector (block_under_head sector f) bytes tag f) w).0 _ _
                (λ t. h) (λ t. h)

  gcr_record-On : (f : Floppy) (w : W) → HasSides b f → On (gcr_record files f w)
  unfolding gcr_record
  gcr_record-On f w h = option_both On (decode_gcr (byte_at f.write_bytes 3)) _ _ h λ sector.
      if_both On (ltb sector (sectors_for_track f.current_track)) _ _
        (λ t.
          option_both On (decode_gcr_payload (mid f.write_bytes 4 703)) _ _ h
            λ payload. commit-On sector _ _ f w h)
        (λ t. h)

  mfm_data-On : (f : Floppy) (w : W) → HasSides b f → On (mfm_data files f w)
  unfolding mfm_data
  mfm_data-On f w h = option_both On f.write_mfm_sector _ _ h λ sector.
      if_both On (ltb sector 18 && crc_good f.write_bytes (4 + bytes_per_sector)) _ _
        (λ t. commit-On sector _ _ f w h) (λ t. h)

  address-On : (f : Floppy) → HasSides b f → HasSides b (mfm_address f)
  unfolding mfm_address
  address-On f h =
      if_both (HasSides b)
        (crc_good f.write_bytes 8
          && (byte_at f.write_bytes 4 == f.current_track)
          && (byte_at f.write_bytes 5 == f.current_side)
          && (byte_at f.write_bytes 7 == 2))
        _ _ (λ _. h) (λ _. h)

  gcr-On : (g : Floppy) (w : W) → HasSides b g → RoundOn b (gcr_at_prologue files g w)
  unfolding gcr_at_prologue
  gcr-On g w h =
      if_both (RoundOn b) (ltb (length g.write_bytes) record_bytes) _ _ (λ t. h)
        λ t.
          if_both (RoundOn b) (not (same_bytes (mid g.write_bytes 707 3) (0xde ∷ 0xaa ∷ 0xff ∷ [])))
            _ _ (λ t. h) (λ t. gcr_record-On g w h)

  mfm-On : (g : Floppy) (w : W) → HasSides b g → RoundOn b (mfm_at_prologue files g w)
  unfolding mfm_at_prologue
  mfm-On g w h =
      if_both (RoundOn b) (ltb (length g.write_bytes) 4) _ _ (λ t. h)
        λ t.
          if_both (RoundOn b) (type == 0xfe) _ _
            (λ _.
              if_both (RoundOn b) (ltb (length g.write_bytes) 10) _ _ (λ _. h)
                (λ _. address-On g h))
            λ _.
              if_both (RoundOn b) ((type == 0xfb) || (type == 0xf8)) _ _
                (λ _.
                  if_both (RoundOn b) (ltb (length g.write_bytes) data_record_bytes) _ _ (λ _. h)
                    (λ _. mfm_data-On g w h))
                (λ _. h)
    where
      type : ℕ
      type = byte_at g.write_bytes 3

  kept-On : (f : Floppy) → HasSides b f → HasSides b (keep_two f)
  kept-On f h = if_both (HasSides b) (ltb 2 (length f.write_bytes)) _ _ (λ _. h) (λ _. h)

  at_prologue :
      (f : Floppy) (prologue : ℕ)
      → HasSides b f
      → HasSides b (if prologue == 0 then f else remove_written prologue f)
  at_prologue f prologue h = if_both (HasSides b) (prologue == 0) _ _ (λ _. h) (λ _. h)

  loop_On :
      (committed : Bool) (k : Bool → Floppy → W → Option (Bool × Floppy × W)) (r : Round W)
      → RoundOn b r
      → ((done : Bool) (g : Floppy) (w : W) → HasSides b g → ResultOn b (k done g w))
      → ResultOn b (elim r [ leave g w ↦ some (committed, g, w) | go_on done g w ↦ k done g w ])
  loop_On committed k (leave g w) s h = s
  loop_On committed k (go_on done g w) s h = h done g w s

  gcr_from-On :
      (rounds : ℕ) (committed : Bool) (f : Floppy) (w : W)
      → HasSides b f
      → ResultOn b (process_gcr_from files rounds committed f w)
  unfolding process_gcr_from gcr_round
  gcr_from-On zero committed f w h = tt
  gcr_from-On (suc rounds) committed f w h =
      loop_On committed _ (gcr_round files f w)
        (option_both (RoundOn b) (index_of 0 0xd5 0xaa 0xad f.write_bytes) _ _ (kept-On f h)
          λ p. gcr-On _ w (at_prologue f p h))
        (λ done g w' on. gcr_from-On rounds (committed || done) g w' on)

  mfm_from-On :
      (rounds : ℕ) (committed : Bool) (f : Floppy) (w : W)
      → HasSides b f
      → ResultOn b (process_mfm_from files rounds committed f w)
  unfolding process_mfm_from mfm_round
  mfm_from-On zero committed f w h = tt
  mfm_from-On (suc rounds) committed f w h =
      loop_On committed _ (mfm_round files f w)
        (option_both (RoundOn b) (index_of 0 0xa1 0xa1 0xa1 f.write_bytes) _ _ (kept-On f h)
          λ p. mfm-On _ w (at_prologue f p h))
        (λ done g w' on. mfm_from-On rounds (committed || done) g w' on)

  pub process_writes-On :
      (f : Floppy) (w : W) → HasSides b f → ResultOn b (process_writes files f w)
  unfolding process_writes process_gcr_writes process_mfm_writes
  process_writes-On f w h =
      if_both (ResultOn b) f.high_density _ _ (λ _. mfm_from-On _ false f w h)
        (λ _. gcr_from-On _ false f w h)
