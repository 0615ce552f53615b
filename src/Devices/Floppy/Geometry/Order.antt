-- ===== src/Devices/Floppy/Geometry/Order.antt =====
-- The order of the sectors on a track of devices/floppy/FloppyDiskImage.cpp.
use cute_mac.Base.{
  ℕ, ◌+◌, ◌*◌, ◌-◌, ◌%◌, ltb, byte_at, get_elem?, ◌<◌, Bool, true, List, [], ◌∷◌, ◌==◌, ◌&&◌,
  if◌then◌else◌, length, ◌≡◌, refl, set, replicate, holds_below, holds_below_lem, arith,
}
use cute_mac.Devices.Floppy.Geometry.{sectors_for_track, place_sectors, interleaved_sector_order}

unfoldable pub count : ℕ → List ℕ → ℕ
count k [] = 0
count k (x ∷ xs) = (if x == k then 1 else 0) + count k xs

-- Where a logical sector stands: the first half of them in the even slots, the others in the odd
-- ones.
abbrev pub slot_of : ℕ → ℕ → ℕ
slot_of sectors k =
    if ltb (2 * k) sectors
    then 2 * k
    else if sectors % 2 == 0
    then 2 * k + 1 - sectors
    else 2 * k - sectors

abbrev once_each : ℕ → Bool
once_each sectors =
    (length (interleaved_sector_order sectors) == sectors)
    && holds_below sectors (λ k. count k (interleaved_sector_order sectors) == 1)
    && holds_below sectors
        (λ k. byte_at (interleaved_sector_order sectors) (slot_of sectors k) == k)

all_orders : (track : ℕ) → track < 80 → once_each (sectors_for_track track) ≡ true
unfolding interleaved_sector_order count sectors_for_track place_sectors set replicate get_elem?
all_orders = holds_below_lem 80 (λ track. once_each (sectors_for_track track)) refl

-- On each of the 80 tracks, in the order with an interleave of 2, every sector of the track stands
-- exactly once, the first half of them in the even slots and the others in the odd ones.
pub interleaved_sector_order-each :
    (track k : ℕ)
    → track < 80
    → k < sectors_for_track track
    → (length (interleaved_sector_order (sectors_for_track track)) ≡ sectors_for_track track)
      × (count k (interleaved_sector_order (sectors_for_track track)) ≡ 1)
      × (byte_at
            (interleaved_sector_order (sectors_for_track track))
            (slot_of (sectors_for_track track) k)
          ≡ k)
interleaved_sector_order-each track k small less =
    let all = all_orders track small in
    let each =
      holds_below_lem (sectors_for_track track)
        (λ k. count k (interleaved_sector_order (sectors_for_track track)) == 1) (ground arith) k
        less in
    let placed =
      holds_below_lem (sectors_for_track track)
        (λ k.
          byte_at (interleaved_sector_order (sectors_for_track track))
            (slot_of (sectors_for_track track) k)
          == k)
        (ground arith) k less in
    ground arith
