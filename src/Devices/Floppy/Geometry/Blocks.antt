-- ===== src/Devices/Floppy/Geometry/Blocks.antt =====
-- The blocks of devices/floppy/FloppyDiskImage.cpp: in range, and no two sectors share one.
use cute_mac.Base.{
  ℕ, zero, suc, ◌+◌, ◌*◌, ◌≤◌, ◌<◌, Bool, true, false, if◌then◌else◌, ◌≡◌, refl, ap, arith,
}
use native.Mathlib.Decide.{dec_lt}
use cute_mac.Devices.Floppy.Geometry.{
  tracks_per_side, sectors_for_track, blocks_before, first_block_for_track,
}

blocks_before-grows :
    (heads track later : ℕ)
    → track < later
    → blocks_before heads track + sectors_for_track track * heads ≤ blocks_before heads later
unfolding blocks_before
blocks_before-grows heads track zero h = absurd (omega arith)
blocks_before-grows heads track (suc later) h =
    ground (arith, blocks_before-grows heads track later)

whole_disk : (blocks_before 2 tracks_per_side ≡ 1600) × (blocks_before 1 tracks_per_side ≡ 800)
unfolding blocks_before sectors_for_track
whole_disk = (refl, refl)

within_track :
    (track side sector : ℕ)
    → side < 2
    → sector < sectors_for_track track
    → side * sectors_for_track track + sector < sectors_for_track track * 2
within_track track zero sector s k = omega arith
within_track track (suc zero) sector s k = omega arith
within_track track (suc (suc side)) sector s k = absurd (omega arith)

-- Every sector of every track and side of a disk lies in its image: 1600 blocks of a double-sided
-- disk, 800 of a single-sided one.
pub first_block_for_track-in_image :
    (track side sector : ℕ) (double_sided : Bool)
    → track < tracks_per_side
    → side < (if double_sided then 2 else 1)
    → sector < sectors_for_track track
    → first_block_for_track track side double_sided + sector < (if double_sided then 1600 else 800)
unfolding first_block_for_track
first_block_for_track-in_image track side sector true h s k = omega (
  arith,
  within_track track side sector s k,
  blocks_before-grows 2 track tracks_per_side h,
  whole_disk.0,
)
first_block_for_track-in_image track side sector false h s k =
    omega (arith, blocks_before-grows 1 track tracks_per_side h, whole_disk.1)

-- The sides of a disk.
abbrev pub heads_of : Bool → ℕ
heads_of double_sided = if double_sided then 2 else 1

earlier_track :
    (double_sided : Bool) (t t' side side' sector sector' : ℕ)
    → side < heads_of double_sided
    → sector < sectors_for_track t
    → t < t'
    → first_block_for_track t side double_sided + sector
      < first_block_for_track t' side' double_sided + sector'
unfolding first_block_for_track
earlier_track true t t' side side' sector sector' s k h =
    omega (arith, within_track t side sector s k, blocks_before-grows 2 t t' h)
earlier_track false t t' side side' sector sector' s k h =
    omega (arith, k, blocks_before-grows 1 t t' h)

same_track :
    (count side side' sector sector' : ℕ)
    → side < 2
    → side' < 2
    → sector < count
    → sector' < count
    → side * count + sector ≡ side' * count + sector'
    → (side ≡ side') × (sector ≡ sector')
same_track count zero zero sector sector' s s' k k' e = (omega arith, omega arith)
same_track count zero (suc zero) sector sector' s s' k k' e = absurd (omega arith)
same_track count (suc zero) zero sector sector' s s' k k' e = absurd (omega arith)
same_track count (suc zero) (suc zero) sector sector' s s' k k' e = (omega arith, omega arith)
same_track count (suc (suc side)) side' sector sector' s s' k k' e = absurd (omega arith)
same_track count side (suc (suc side')) sector sector' s s' k k' e = absurd (omega arith)

on_track :
    (double_sided : Bool) (t t' side side' sector sector' : ℕ)
    → side < heads_of double_sided
    → side' < heads_of double_sided
    → sector < sectors_for_track t
    → sector' < sectors_for_track t'
    → first_block_for_track t side double_sided + sector
      ≡ first_block_for_track t' side' double_sided + sector'
    → t ≡ t'
    → (side ≡ side') × (sector ≡ sector')
unfolding first_block_for_track
on_track true t t' side side' sector sector' s s' k k' e h =
    same_track (sectors_for_track t) side side' sector sector' s s' k
      (omega (arith, ap sectors_for_track h))
      (omega (arith, e, ap (blocks_before 2) h, ap (λ x. side' * sectors_for_track x) h))
on_track false t t' side side' sector sector' s s' k k' e h =
    (omega arith, omega (arith, e, ap (blocks_before 1) h))

-- On a single-sided and on a double-sided disk, two sectors that share a block are the same
-- sector.
pub first_block_for_track-apart :
    (double_sided : Bool) (t t' side side' sector sector' : ℕ)
    → side < heads_of double_sided
    → side' < heads_of double_sided
    → sector < sectors_for_track t
    → sector' < sectors_for_track t'
    → first_block_for_track t side double_sided + sector
      ≡ first_block_for_track t' side' double_sided + sector'
    → (t ≡ t') × (side ≡ side') × (sector ≡ sector')
first_block_for_track-apart b t t' side side' sector sector' s s' k k' e = elim (dec_lt t t') [
  | yes less ↦ absurd (omega (arith, earlier_track b t t' side side' sector sector' s k less))
  | no not_less ↦ elim (dec_lt t' t) [
    | yes more ↦ absurd (omega (arith, earlier_track b t' t side' side sector' sector s' k' more))
    | no not_more ↦
        let (same_side, same_sector) =
          on_track b t t' side side' sector sector' s s' k k' e (omega arith) in
        (omega arith, same_side, same_sector)
  ]
]
