-- ===== src/Devices/Floppy/Store/ReadBack.antt =====
-- A sector stored by devices/floppy/FloppyDiskImage.cpp is the sector that is read.
use cute_mac.Base.{
  ℕ, ◌+◌, ◌-◌, ◌*◌, ◌/◌, ◌≤◌, ◌<◌, true, false, not, ◌&&◌, List, [], ◌++◌, Option, none, some, ltb,
  ◌==◌, if◌then◌else◌, length, length-append, length-take, length-drop, take, drop, mid, set,
  replicate, drop-append_exact, take-append_exact, mid-append_left, mid-take, drop-append_past,
  drop-drop, get_elem?-set, length-set, ◌≡◌, ◌≢◌, refl, sym, ap, ap₂, ◌∙◌, if_holds, if_fails,
  arith,
}
use native.Mathlib.Decide.{dec_lt}
use cute_mac.Devices.Floppy.Geometry.{bytes_per_sector, tag_bytes_per_sector, first_block_for_track}
use cute_mac.Devices.Floppy.Disk.{
  Files, Floppy, block_in_image, tag_at, sector_payload, invalidate_track_cache,
}
use cute_mac.Devices.Floppy.Store.{
  store_block, block_under_head, with_sector, persist_image, commit_sector,
}

module _ (block : ℕ) (sector bytes : List ℕ) (size : length sector ≡ bytes_per_sector)
    (room : block * bytes_per_sector + bytes_per_sector ≤ length bytes) where
  before : length (take (block * bytes_per_sector) bytes) ≡ block * bytes_per_sector
  before = omega (arith, length-take (block * bytes_per_sector) bytes)

  abbrev rest : List ℕ
  rest = drop (block * bytes_per_sector + bytes_per_sector) bytes

  -- The stored block is the sector.
  pub mid-store_block :
      mid (store_block block sector bytes) (block * bytes_per_sector) bytes_per_sector ≡ sector
  mid-store_block =
      ap (take bytes_per_sector) (
        drop-append_exact (block * bytes_per_sector) (take (block * bytes_per_sector) bytes)
          (sector ++ rest) before)
      ∙ take-append_exact bytes_per_sector sector rest size

  -- Every other block is what it was.
  pub mid-store_block_other :
      (other : ℕ)
      → other ≢ block
      → mid (store_block block sector bytes) (other * bytes_per_sector) bytes_per_sector
        ≡ mid bytes (other * bytes_per_sector) bytes_per_sector
  mid-store_block_other other apart = elim (dec_lt other block) [
    | yes less ↦
        mid-append_left (other * bytes_per_sector) bytes_per_sector
          (take (block * bytes_per_sector) bytes) _ (omega (arith, before))
        ∙ mid-take (other * bytes_per_sector) bytes_per_sector (block * bytes_per_sector) bytes
            (omega arith)
    | no not_less ↦ ap (take bytes_per_sector) (later (omega (arith, not_less, apart)))
  ]
    where
      later :
          block < other
          → drop (other * bytes_per_sector) (store_block block sector bytes)
            ≡ drop (other * bytes_per_sector) bytes
      later more =
          drop-append_past (other * bytes_per_sector)
            (other * bytes_per_sector - block * bytes_per_sector)
            (take (block * bytes_per_sector) bytes) _ (omega (arith, before))
          ∙ drop-append_past _
              (other * bytes_per_sector - block * bytes_per_sector - bytes_per_sector) sector _
              (omega arith)
          ∙ drop-drop _ (block * bytes_per_sector + bytes_per_sector) (other * bytes_per_sector)
              bytes (omega arith)

  pub length-store_block : length (store_block block sector bytes) ≡ length bytes
  length-store_block = omega (
    arith,
    before,
    length-append (take (block * bytes_per_sector) bytes)
        (sector ++ drop (block * bytes_per_sector + bytes_per_sector) bytes),
    length-append sector (drop (block * bytes_per_sector + bytes_per_sector) bytes),
    length-drop (block * bytes_per_sector + bytes_per_sector) bytes,
  )

guard_holds :
    (block count size : ℕ)
    → block < count
    → size ≡ tag_bytes_per_sector
    → ltb block count && (size == tag_bytes_per_sector) ≡ true
guard_holds block count size h e = ground arith

-- What is read of a sector that has been put in place.
sector_payload-with_sector :
    (track side logical block : ℕ) (sector tag : List ℕ) (f : Floppy)
    → first_block_for_track track side f.double_sided + logical ≡ block
    → length sector ≡ bytes_per_sector
    → length tag ≡ tag_bytes_per_sector
    → block < length f.data_bytes / bytes_per_sector
    → block < length f.tags
    → sector_payload track side logical (with_sector block sector tag f) ≡ tag ++ sector
unfolding sector_payload with_sector
sector_payload-with_sector track side logical block sector tag f here size tag_size inside tagged =
    rw here (
      if_holds _ _ in_image
      ∙ ap₂ (λ (x y : List ℕ). x ++ y) tag_back
          (mid-store_block block sector f.data_bytes size (omega arith)))
  where
    kept :
        not (length tag == 0) && ltb block (length f.tags) && (length tag == tag_bytes_per_sector)
        ≡ true
    kept = ground arith

    new_tags : List (List ℕ)
    new_tags =
        if not (length tag == 0)
          && ltb block (length f.tags)
          && (length tag == tag_bytes_per_sector)
        then set f.tags block tag
        else f.tags

    found : tag_at new_tags block ≡ tag
    found =
        ap (λ tags. tag_at tags block) (if_holds _ _ kept)
        ∙ ap (λ (o : Option (List ℕ)). elim o [ some x ↦ x | none ↦ [] ])
            (get_elem?-set f.tags block tag tagged)

    as_many : length new_tags ≡ length f.tags
    as_many = ap length (if_holds _ _ kept) ∙ length-set f.tags block tag

    in_image : ltb block (length (store_block block sector f.data_bytes) / bytes_per_sector) ≡ true
    in_image =
        let same = length-store_block block sector f.data_bytes size (omega arith) in ground arith

    well_formed :
        ltb block (length new_tags) && (length (tag_at new_tags block) == tag_bytes_per_sector)
        ≡ true
    well_formed =
        guard_holds block (length new_tags) (length (tag_at new_tags block))
          (omega (arith, as_many)) (ap length found ∙ tag_size)

    tag_back :
        (if ltb block (length new_tags) && (length (tag_at new_tags block) == tag_bytes_per_sector)
          then tag_at new_tags block
          else replicate tag_bytes_per_sector 0)
        ≡ tag
    tag_back = if_holds _ _ well_formed ∙ found

block_of :
    (logical : ℕ) (f : Floppy)
    → f.high_density ≡ false
    → first_block_for_track f.current_track f.current_side f.double_sided + logical
      ≡ block_under_head logical f
unfolding block_under_head
block_of logical f low = sym (if_fails _ _ low)

module _ {W : Type 0} (files : Files W) where
  commit_sector-stored :
      (logical : ℕ) (sector tag : List ℕ) (f : Floppy) (w : W)
      → length sector ≡ bytes_per_sector
      → block_under_head logical f < length f.data_bytes / bytes_per_sector
      → (persist_image files (with_sector (block_under_head logical f) sector tag f) w).0 ≡ true
      → commit_sector files logical sector tag f w ≡ (
        true,
        invalidate_track_cache (with_sector (block_under_head logical f) sector tag f),
        (persist_image files (with_sector (block_under_head logical f) sector tag f) w).1,
      )
  unfolding commit_sector
  commit_sector-stored logical sector tag f w size block saved =
      if_fails _ _ right_size ∙ if_fails _ _ in_image ∙ if_holds _ _ saved
    where
      right_size : not (length sector == bytes_per_sector) ≡ false
      right_size = ground arith

      in_image : not (block_in_image (block_under_head logical f) f) ≡ false
      in_image = ground arith

  -- A sector of 512 bytes with a tag of 12, stored on a disk in group code that has tags, in a
  -- block of its image, while the image can be saved: the sector's payload is then the tag and
  -- the bytes.
  pub sector_payload-commit_sector :
      (logical : ℕ) (sector tag : List ℕ) (f : Floppy) (w : W)
      → f.high_density ≡ false
      → length sector ≡ bytes_per_sector
      → length tag ≡ tag_bytes_per_sector
      → block_under_head logical f < length f.data_bytes / bytes_per_sector
      → block_under_head logical f < length f.tags
      → (persist_image files (with_sector (block_under_head logical f) sector tag f) w).0 ≡ true
      → let (done, g, w') = commit_sector files logical sector tag f w in
        (done ≡ true) × (sector_payload g.current_track g.current_side logical g ≡ tag ++ sector)
  unfolding with_sector sector_payload
  sector_payload-commit_sector logical sector tag f w low size tag_size block tagged saved =
      rw (commit_sector-stored logical sector tag f w size block saved) (
        refl,
        sector_payload-with_sector f.current_track f.current_side logical
            (block_under_head logical f) sector tag f (block_of logical f low) size tag_size block
            tagged,
      )
