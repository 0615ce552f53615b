-- ===== src/Devices/Floppy/Write/Ends.antt =====
-- The loops over the written bytes in devices/floppy/FloppyDiskImage.cpp end.
use cute_mac.Base.{
  ℕ, zero, suc, ◌+◌, ◌≤◌, ◌<◌, Bool, false, not, ◌&&◌, ◌||◌, List, [], ◌∷◌, Option, some, ltb, ◌==◌,
  if◌then◌else◌, length, length-drop, ◌≡◌, refl, ap, if_both, option_both, byte_at, mid, same_bytes,
  arith,
}
use cute_mac.Devices.Floppy.Gcr.{decode_gcr, decode_gcr_payload}
use cute_mac.Devices.Floppy.Geometry.{bytes_per_sector, sectors_for_track}
use cute_mac.Devices.Floppy.Store.{block_under_head, persist_image, commit_sector, with_sector}
use cute_mac.Devices.Floppy.Disk.{block_in_image, Files, Floppy}
use cute_mac.Devices.Floppy.Write.{
  crc_good, index_of, remove_written, record_bytes, data_record_bytes, Round, leave, go_on,
  gcr_record, gcr_at_prologue, mfm_at_prologue, gcr_round, process_gcr_from, process_gcr_writes,
  mfm_address, mfm_data, mfm_round, process_mfm_from, process_mfm_writes,
}

-- What the loop makes of a round.
abbrev Ended : {A : Type 0} → Option A → Type 0
Ended {A} o = (r : A) × (o ≡ some r)

-- A round that goes on leaves fewer written bytes.
abbrev Shrinks : {W : Type 0} → ℕ → Round W → Type 0
Shrinks size (leave g w) = Unit {0}
Shrinks size (go_on done g w) = length g.write_bytes < size

fewer :
    (size : ℕ) (f : Floppy) (prologue : ℕ)
    → length f.write_bytes ≤ size
    → length (if prologue == 0 then f else remove_written prologue f).write_bytes ≤ size
fewer size f prologue h =
    if_both (λ (g : Floppy). length g.write_bytes ≤ size) (prologue == 0) _ _ (λ t. h)
      (λ t. omega (arith, length-drop prologue f.write_bytes))

module _ {W : Type 0} (files : Files W) where
  -- The written bytes are as they were.
  abbrev Untaken : Floppy → Bool × Floppy × W → Type 0
  Untaken f s = s.1.write_bytes ≡ f.write_bytes

  pub commit-Untaken :
      (sector : ℕ) (bytes tag : List ℕ) (f : Floppy) (w : W)
      → Untaken f (commit_sector files sector bytes tag f w)
  unfolding commit_sector with_sector
  commit-Untaken sector bytes tag f w =
      if_both (Untaken f) (not (length bytes == bytes_per_sector)) _ _ (λ t. refl)
        λ t.
          if_both (Untaken f) (not (block_in_image (block_under_head sector f) f)) _ _ (λ t. refl)
            λ t.
              if_both (Untaken f)
                (persist_image files (with_sector (block_under_head sector f) bytes tag f) w).0 _ _
                (λ t. refl) (λ t. refl)

  pub gcr_record-Untaken : (f : Floppy) (w : W) → Untaken f (gcr_record files f w)
  unfolding gcr_record
  gcr_record-Untaken f w =
      option_both (Untaken f) (decode_gcr (byte_at f.write_bytes 3)) _ _ refl λ sector.
        if_both (Untaken f) (ltb sector (sectors_for_track f.current_track)) _ _
          (λ t.
            option_both (Untaken f) (decode_gcr_payload (mid f.write_bytes 4 703)) _ _ refl
              λ payload. commit-Untaken sector _ _ f w)
          (λ t. refl)

  mfm_data-Untaken : (f : Floppy) (w : W) → Untaken f (mfm_data files f w)
  unfolding mfm_data
  mfm_data-Untaken f w = option_both (Untaken f) f.write_mfm_sector _ _ refl λ sector.
      if_both (Untaken f) (ltb sector 18 && crc_good f.write_bytes (4 + bytes_per_sector)) _ _
        (λ t. commit-Untaken sector _ _ f w) (λ t. refl)

  address-Untaken : (f : Floppy) → (mfm_address f).write_bytes ≡ f.write_bytes
  unfolding mfm_address
  address-Untaken f =
      if_both (λ (g : Floppy). g.write_bytes ≡ f.write_bytes)
        (crc_good f.write_bytes 8
          && (byte_at f.write_bytes 4 == f.current_track)
          && (byte_at f.write_bytes 5 == f.current_side)
          && (byte_at f.write_bytes 7 == 2))
        _ _ (λ _. refl) (λ _. refl)

  gcr-Shrinks :
      (size : ℕ) (g : Floppy) (w : W)
      → length g.write_bytes ≤ size
      → Shrinks size (gcr_at_prologue files g w)
  unfolding gcr_at_prologue
  gcr-Shrinks size g w h =
      if_both (Shrinks size) (ltb (length g.write_bytes) record_bytes) _ _ (λ t. tt)
        λ t.
          if_both (Shrinks size)
            (not (same_bytes (mid g.write_bytes 707 3) (0xde ∷ 0xaa ∷ 0xff ∷ []))) _ _
            (λ t'. omega (arith, length-drop 1 g.write_bytes, long t))
            (λ t'. omega (
              arith,
              length-drop record_bytes (gcr_record files g w).1.write_bytes,
              ap length (gcr_record-Untaken g w),
              long t,
            ))
    where
      long : ltb (length g.write_bytes) record_bytes ≡ false → record_bytes ≤ length g.write_bytes
      long t = ground arith

  mfm-Shrinks :
      (size : ℕ) (g : Floppy) (w : W)
      → length g.write_bytes ≤ size
      → Shrinks size (mfm_at_prologue files g w)
  unfolding mfm_at_prologue
  mfm-Shrinks size g w h =
      if_both (Shrinks size) (ltb (length g.write_bytes) 4) _ _ (λ t. tt)
        λ t.
          if_both (Shrinks size) (type == 0xfe) _ _
            (λ _.
              if_both (Shrinks size) (ltb (length g.write_bytes) 10) _ _ (λ _. tt)
                (λ _. omega (
                  arith,
                  length-drop 10 (mfm_address g).write_bytes,
                  ap length (address-Untaken g),
                  long t,
                )))
            λ _.
              if_both (Shrinks size) ((type == 0xfb) || (type == 0xf8)) _ _
                (λ _.
                  if_both (Shrinks size) (ltb (length g.write_bytes) data_record_bytes) _ _
                    (λ _. tt)
                    (λ _. omega (
                      arith,
                      length-drop data_record_bytes (mfm_data files g w).1.write_bytes,
                      ap length (mfm_data-Untaken g w),
                      long t,
                    )))
                (λ _. omega (arith, length-drop 1 g.write_bytes, long t))
    where
      type : ℕ
      type = byte_at g.write_bytes 3

      long : ltb (length g.write_bytes) 4 ≡ false → 4 ≤ length g.write_bytes
      long t = ground arith

  round_ends :
      (size : ℕ) (committed : Bool) (k : Bool → Floppy → W → Option (Bool × Floppy × W))
      (r : Round W)
      → Shrinks size r
      → ((done : Bool) (g : Floppy) (w : W) → length g.write_bytes < size → Ended (k done g w))
      → Ended {A = Bool × Floppy × W}
          (elim r [ leave g w ↦ some (committed, g, w) | go_on done g w ↦ k done g w ])
  round_ends size committed k (leave g w) s h = (_, refl)
  round_ends size committed k (go_on done g w) s h = h done g w s

  process_gcr_from-ends :
      (rounds : ℕ) (committed : Bool) (f : Floppy) (w : W)
      → length f.write_bytes < rounds
      → Ended (process_gcr_from files rounds committed f w)
  unfolding process_gcr_from gcr_round
  process_gcr_from-ends zero committed f w h = absurd (omega arith)
  process_gcr_from-ends (suc rounds) committed f w h =
      round_ends size committed _ (gcr_round files f w)
        (option_both (Shrinks size) (index_of 0 0xd5 0xaa 0xad f.write_bytes) _ _ tt
          λ p. gcr-Shrinks size _ w (fewer size f p (omega arith)))
        (λ done g w' less. process_gcr_from-ends rounds (committed || done) g w' (omega arith))
    where
      size : ℕ
      size = length f.write_bytes

  -- With a round for every written byte and one more, the loop over the bytes written to a track
  -- in group code ends, whatever the bytes and the state of the disk are.
  pub process_gcr_writes-ends :
      (f : Floppy) (w : W) → (r : Bool × Floppy × W) × (process_gcr_writes files f w ≡ some r)
  unfolding process_gcr_writes
  process_gcr_writes-ends f w = process_gcr_from-ends _ false f w (omega arith)

  process_mfm_from-ends :
      (rounds : ℕ) (committed : Bool) (f : Floppy) (w : W)
      → length f.write_bytes < rounds
      → Ended (process_mfm_from files rounds committed f w)
  unfolding process_mfm_from mfm_round
  process_mfm_from-ends zero committed f w h = absurd (omega arith)
  process_mfm_from-ends (suc rounds) committed f w h =
      round_ends size committed _ (mfm_round files f w)
        (option_both (Shrinks size) (index_of 0 0xa1 0xa1 0xa1 f.write_bytes) _ _ tt
          λ p. mfm-Shrinks size _ w (fewer size f p (omega arith)))
        (λ done g w' less. process_mfm_from-ends rounds (committed || done) g w' (omega arith))
    where
      size : ℕ
      size = length f.write_bytes

  -- The same of the loop over the bytes of a high-density track.
  pub process_mfm_writes-ends :
      (f : Floppy) (w : W) → (r : Bool × Floppy × W) × (process_mfm_writes files f w ≡ some r)
  unfolding process_mfm_writes
  process_mfm_writes-ends f w = process_mfm_from-ends _ false f w (omega arith)
