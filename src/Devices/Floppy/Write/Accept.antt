-- ===== src/Devices/Floppy/Write/Accept.antt =====
-- The record that devices/floppy/FloppyDiskImage.cpp lays down for a sector, written to the track.
use cute_mac.Base.{
  ℕ, suc, ◌%◌, ◌≤◌, ◌<◌, Bool, true, false, not, ◌||◌, List, [], ◌∷◌, ◌++◌, some, ltb, length,
  length-append, AllBytes, drop, take, mid, same_bytes, drop-append_exact, take-append_exact,
  drop-all, ◌≡◌, refl, ap, ◌∙◌, if_holds, if_fails, option_none, option_some, get_elem?, arith,
}
use cute_mac.Devices.Floppy.Geometry.{sectors_for_track, bytes_per_sector, tag_bytes_per_sector}
use cute_mac.Devices.Floppy.Gcr.{
  gcr, decode_gcr, decode_gcr_payload, append_encoded_payload, encode_groups, no_checksums,
}
use cute_mac.Devices.Floppy.Gcr.Table.{decode_gcr-gcr}
use cute_mac.Devices.Floppy.Gcr.RoundTrip.{decode_gcr_payload-encode, length-encode_groups}
use cute_mac.Devices.Floppy.Store.{commit_sector}
use cute_mac.Devices.Floppy.Disk.{Files, Floppy, data_field}
use cute_mac.Devices.Floppy.Write.{
  index_of, keep_two, remove_written, record_bytes, Round, leave, go_on, gcr_record,
  gcr_at_prologue, gcr_round, process_gcr_from, process_gcr_writes,
}
use cute_mac.Devices.Floppy.Write.Ends.{commit-Untaken}

abbrev encoded : List ℕ → List ℕ
encoded payload = encode_groups 174 payload no_checksums

abbrev laid : ℕ → List ℕ → List ℕ
laid sector payload = 0xd5 ∷ 0xaa ∷ 0xad ∷ gcr sector ∷ (encoded payload ++ 0xde ∷ 0xaa ∷ 0xff ∷ [])

data_field-laid : (sector : ℕ) (payload : List ℕ) → data_field sector payload ≡ laid sector payload
unfolding append_encoded_payload
data_field-laid sector payload = refl

module _ (sector : ℕ) (payload : List ℕ) (size : length payload ≡ 524) where
  encoded_size : length (encoded payload) ≡ 703
  encoded_size = length-encode_groups 174 payload no_checksums size

  length-laid : length (laid sector payload) ≡ 710
  length-laid =
      omega (arith, encoded_size, length-append (encoded payload) (0xde ∷ 0xaa ∷ 0xff ∷ []))

  laid_end : mid (laid sector payload) 707 3 ≡ 0xde ∷ 0xaa ∷ 0xff ∷ []
  unfolding drop take
  laid_end =
      ap (take 3) (drop-append_exact 703 (encoded payload) (0xde ∷ 0xaa ∷ 0xff ∷ []) encoded_size)

  laid_payload : mid (laid sector payload) 4 703 ≡ encoded payload
  unfolding drop
  laid_payload = take-append_exact 703 (encoded payload) (0xde ∷ 0xaa ∷ 0xff ∷ []) encoded_size

few_sectors : (track : ℕ) → sectors_for_track track ≤ 12
unfolding sectors_for_track
few_sectors track = ground arith

-- The disk with the data field of a sector as its written bytes.
abbrev pub written : ℕ → List ℕ → Floppy → Floppy
written sector payload f = record f { write_bytes = data_field sector payload }

module _ {W : Type 0} (files : Files W) where
  abbrev pub committed : ℕ → List ℕ → Floppy → W → Bool × Floppy × W
  committed sector payload f w =
      commit_sector files sector (mid payload tag_bytes_per_sector bytes_per_sector)
        (take tag_bytes_per_sector payload) (written sector payload f) w

  -- The loop with no written bytes left returns.
  no_bytes :
      (rounds : ℕ) (done : Bool) (g : Floppy) (w : W)
      → g.write_bytes ≡ []
      → process_gcr_from files (suc rounds) done g w ≡ some (done, g, w)
  unfolding process_gcr_from gcr_round index_of
  no_bytes rounds done g w h =
      ap
        (λ (r : Round W). elim r [
          | leave g' w' ↦ some (done, g', w')
          | go_on d g' w' ↦ process_gcr_from files rounds (done || d) g' w'
        ])
        (option_none _ _ (ap (index_of 0 0xd5 0xaa 0xad) h) ∙ ap (λ g'. leave g' w) kept)
    where
      few : ltb 2 (length g.write_bytes) ≡ false
      few = ground (arith, ap length h)

      kept : keep_two g ≡ g
      kept = if_fails _ _ few

  module _ (sector : ℕ) (payload : List ℕ) (f : Floppy) (w : W) (size : length payload ≡ 524)
      (bytes : AllBytes payload) (on_track : sector < sectors_for_track f.current_track) where
    record_committed : gcr_record files (written sector payload f) w ≡ committed sector payload f w
    unfolding gcr_record get_elem? append_encoded_payload
    record_committed =
        option_some _ _ found
        ∙ if_holds _ _ inside
        ∙ option_some _ _ (
            ap decode_gcr_payload (laid_payload sector payload size)
            ∙ decode_gcr_payload-encode payload size bytes)
      where
        small : sector < 256
        small = omega (arith, few_sectors f.current_track)

        same : sector % 64 ≡ sector
        same = omega (arith, few_sectors f.current_track)

        found : decode_gcr (gcr sector) ≡ some sector
        found = decode_gcr-gcr sector small ∙ ap some same

        inside : ltb sector (sectors_for_track f.current_track) ≡ true
        inside = ground arith

    abbrev after_record : Round W
    after_record =
        let (done, g, w') = committed sector payload f w in
        go_on done (remove_written record_bytes g) w'

    first_round : gcr_round files (written sector payload f) w ≡ after_record
    unfolding gcr_round gcr_at_prologue index_of same_bytes append_encoded_payload
    first_round =
        if_fails _ _ long
        ∙ if_fails _ _ ended
        ∙ ap (λ (s : Bool × Floppy × W). go_on s.0 (remove_written record_bytes s.1) s.2)
            record_committed
      where
        long : ltb (length (laid sector payload)) record_bytes ≡ false
        long = ground (arith, length-laid sector payload size)

        ended : not (same_bytes (mid (laid sector payload) 707 3) (0xde ∷ 0xaa ∷ 0xff ∷ [])) ≡ false
        ended =
            ap (λ xs. not (same_bytes xs (0xde ∷ 0xaa ∷ 0xff ∷ []))) (laid_end sector payload size)

    -- Written to the track of its sector, the data field that is laid down for a payload of a tag and
    -- 512 bytes stores exactly these, and leaves no written bytes.
    pub process_gcr_writes-data_field :
        let (done, g, w') = committed sector payload f w in
        process_gcr_writes files (written sector payload f) w
        ≡ some (done, remove_written record_bytes g, w')
    unfolding process_gcr_writes process_gcr_from append_encoded_payload
    process_gcr_writes-data_field =
        ap
          (λ (r : Round W). elim r [
            | leave g' w' ↦ some (false, g', w')
            | go_on d g' w' ↦
                process_gcr_from files (length (laid sector payload)) (false || d) g' w'
          ])
          first_round
        ∙ no_bytes (suc (suc (suc (length (encoded payload ++ 0xde ∷ 0xaa ∷ 0xff ∷ []))))) _
            (remove_written record_bytes (committed sector payload f w).1) _ emptied
      where
        emptied : drop record_bytes (committed sector payload f w).1.write_bytes ≡ []
        emptied =
            ap (drop record_bytes) (commit-Untaken files sector _ _ (written sector payload f) w)
            ∙ drop-all record_bytes (laid sector payload)
                (omega (arith, length-laid sector payload size))
