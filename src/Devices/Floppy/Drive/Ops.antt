-- ===== src/Devices/Floppy/Drive/Ops.antt =====
-- The calls of a drive of devices/floppy/FloppyDiskImage.cpp, in any order.
use cute_mac.Base.{
  ℕ, ◌+◌, ◌*◌, ◌/◌, ◌<◌, u32, Bool, true, false, not, ◌&&◌, ◌||◌, List, [], ◌∷◌, Option, none, some,
  ltb, leb, ◌==◌, if◌then◌else◌, length, ◌≡◌, refl, ap, ◌∙◌, if_both, option_both, ℤ, pos, negsuc,
  arith,
}
use cute_mac.Devices.Floppy.Geometry.{bytes_per_sector, tag_bytes_per_sector}
use cute_mac.Devices.Floppy.Store.{read_be32, disk_copy_header_bytes}
use cute_mac.Devices.Floppy.Disk.{
  Kind, empty, raw_400k, raw_800k, raw_1440k, disk_copy_42, Files, DiskByte, Floppy, inserted,
  cache_stale, rebuild_track_cache, next_disk_byte, peek_disk_byte,
}
use cute_mac.Devices.Floppy.Write.{process_writes}
use cute_mac.Devices.Floppy.Write.Ends.{process_gcr_writes-ends, process_mfm_writes-ends}
use cute_mac.Devices.Floppy.Drive.{
  raw_400k_bytes, raw_800k_bytes, raw_1440k_bytes, take_byte, cut_window, maximum_write_window,
  load, load_bytes, load_raw, load_disk_copy_42, truncated_raw_hfs_kind, write_disk_byte,
  flush_writes, flushed, eject, set_current_track, clamp_track, clamp_side, step, set_current_side,
  set_motor_on,
}
use cute_mac.Devices.Floppy.Drive.Head.{HasSides, IsOnDisk, ResultOn, process_writes-On}

-- A call of the drive.
pub data Op : Type 0 where
  load_disk : List ℕ → Bool → Op
  eject_disk : Op
  seek : ℤ → Op
  step_head : Bool → Op
  choose_side : ℤ → Op
  motor : Bool → Op
  read_byte : Op
  write_byte : ℕ → Bool → Op
  flush : Op

module _ {W : Type 0} (files : Files W) where
  -- A call, of which the result is dropped; none where a loop had too few rounds.
  unfoldable pub operate : Op → Floppy → W → Option (Floppy × W)
  operate (load_disk path read_only) f w = some ((load files path read_only f w).1, w)
  operate eject_disk f w = eject files f w
  operate (seek track) f w = set_current_track files track f w
  operate (step_head toward_track_zero) f w = step files toward_track_zero f w
  operate (choose_side side) f w = set_current_side files side f w
  operate (motor on) f w = set_motor_on files on f w
  operate read_byte f w = some ((next_disk_byte f).1, w)
  operate (write_byte value mark) f w = elim (write_disk_byte files value mark f w) [
    | none ↦ none
    | some r ↦ some (r.1, r.2)
  ]
  operate flush f w = elim (flush_writes files f w) [ none ↦ none | some r ↦ some (r.1, r.2) ]

  unfoldable pub operate_all : List Op → Floppy → W → Option (Floppy × W)
  operate_all [] f w = some (f, w)
  operate_all (op ∷ ops) f w = elim (operate op f w) [
    | none ↦ none
    | some s ↦ operate_all ops s.0 s.1
  ]

-- A result that is there, with the head on the disk.
abbrev Done : {W : Type 0} → Option (Floppy × W) → Type 0
Done none = ⊥
Done (some s) = IsOnDisk s.0

abbrev Processed : {W : Type 0} → Bool → Option (Bool × Floppy × W) → Type 0
Processed b none = ⊥
Processed b (some r) = HasSides b r.1

ended :
    {W : Type 0} (b : Bool) (o : Option (Bool × Floppy × W))
    → (r : Bool × Floppy × W) × (o ≡ some r)
    → ResultOn b o
    → Processed b o
ended b none (r, e) h = cc
ended b (some s) e h = h

-- From the invariant of the disk as it is, and back.
sides : (f : Floppy) → IsOnDisk f → HasSides f.double_sided f
sides f h = (refl, h.0, h.1)

on_disk : (b : Bool) (f : Floppy) → HasSides b f → IsOnDisk f
on_disk b f h = (h.1, rw h.0 h.2)

done_lem :
    {W : Type 0} (o : Option (Floppy × W)) → Done o → (s : Floppy × W) × (o ≡ some s) × IsOnDisk s.0
done_lem none h = absurd h
done_lem (some s) h = (s, refl, h)

-- What follows a result that is there.
then_Done :
    {A W : Type 0} (b : Bool) (o : Option (Bool × Floppy × W)) (k : Bool × Floppy × W → Option A)
    (P : Option A → Type 0)
    → Processed b o
    → ((r : Bool × Floppy × W) → HasSides b r.1 → P (k r))
    → P (elim o [ none ↦ none | some r ↦ k r ])
then_Done b none k P h next = absurd h
then_Done b (some r) k P h next = next r h

peek-On : (f : Floppy) → IsOnDisk f → IsOnDisk (peek_disk_byte f).1
unfolding peek_disk_byte rebuild_track_cache
peek-On f h =
    if_both (λ (s : DiskByte × Floppy). IsOnDisk s.1) (not (inserted f) || not f.motor_on) _ _
      (λ _. h)
      λ _.
        if_both (λ (s : DiskByte × Floppy). IsOnDisk s.1) (length g.track_cache.bytes == 0) _ _
          (λ _. on) (λ _. on)
  where
    g : Floppy
    g = if cache_stale f then rebuild_track_cache f else f

    on : IsOnDisk g
    on = if_both IsOnDisk (cache_stale f) _ _ (λ _. h) (λ _. h)

next-On : (f : Floppy) → IsOnDisk f → IsOnDisk (next_disk_byte f).1
unfolding next_disk_byte
next-On f h =
    if_both (λ (s : DiskByte × Floppy). IsOnDisk s.1)
      (not (inserted f) || not f.motor_on || (length (peek_disk_byte f).1.track_cache.bytes == 0)) _
      _ (λ _. peek-On f h) (λ _. peek-On f h)

take_byte-On :
    (b : Bool) (value : ℕ) (mark : Bool) (f : Floppy)
    → HasSides b f
    → HasSides b (take_byte value mark f)
unfolding take_byte rebuild_track_cache
take_byte-On b value mark f h = if_both (HasSides b) (cache_stale f) _ _ (λ _. h) (λ _. h)

cut-On : (b : Bool) (f : Floppy) → HasSides b f → HasSides b (cut_window f)
cut-On b f h =
    if_both (HasSides b) (ltb maximum_write_window (length f.write_bytes)) _ _ (λ _. h) (λ _. h)

clamp_track-below : (track : ℤ) → clamp_track track < 80
clamp_track-below (pos n) = omega arith
clamp_track-below (negsuc n) = omega arith

side_below : (side : ℤ) (b : Bool) → (if b then clamp_side side else 0) < (if b then 2 else 1)
side_below (pos n) true = omega arith
side_below (negsuc n) true = omega arith
side_below side false = omega arith

first_side : (b : Bool) → 0 < (if b then 2 else 1)
first_side true = omega arith
first_side false = omega arith

-- A disk that is loaded is read from its first track on.
at_start : (f : Floppy) → f.current_track ≡ 0 → f.current_side ≡ 0 → IsOnDisk f
at_start f t s = rw (t, s) (omega arith, first_side f.double_sided)

module _ {W : Type 0} (files : Files W) where
  processed :
      (b : Bool) (f : Floppy) (w : W) → HasSides b f → Processed b (process_writes files f w)
  unfolding process_writes
  processed b f w h =
      if_both (λ (o : Option (Bool × Floppy × W)). ResultOn b o → Processed b o) f.high_density _ _
        (λ _. ended b _ (process_mfm_writes-ends files f w))
        (λ _. ended b _ (process_gcr_writes-ends files f w)) (process_writes-On files b f w h)

  flush-On : (b : Bool) (f : Floppy) (w : W) → HasSides b f → Processed b (flush_writes files f w)
  unfolding flush_writes
  flush-On b f w h =
      if_both (Processed b) (length f.write_bytes == 0) _ _ (λ _. h)
        λ _. then_Done b (process_writes files f w) _ (Processed b) (processed b f w h) λ r on. on

  flushed-Done :
      (next : Floppy → Floppy) (f : Floppy) (w : W)
      → IsOnDisk f
      → ((g : Floppy) → HasSides f.double_sided g → IsOnDisk (next g))
      → Done (flushed files next f w)
  flushed-Done next f w h keep =
      then_Done f.double_sided (flush_writes files f w) _ Done
        (flush-On f.double_sided f w (sides f h)) λ r on. keep r.1 on

  write-On :
      (b : Bool) (value : ℕ) (mark : Bool) (f : Floppy) (w : W)
      → HasSides b f
      → Processed b (write_disk_byte files value mark f w)
  unfolding write_disk_byte
  write-On b value mark f w h =
      if_both (Processed b) (not f.writable || not (inserted f) || not f.motor_on) _ _ (λ _. h)
        λ _.
          then_Done b (process_writes files (take_byte value mark f) w) _ (Processed b)
            (processed b _ w (take_byte-On b value mark f h)) λ r on. cut-On b r.1 on

  abbrev Loaded : Bool × Floppy → Type 0
  Loaded s = IsOnDisk s.1

  raw-On :
      (path bytes : List ℕ) (kind : Kind) (f : Floppy) (w : W)
      → IsOnDisk (load_raw files path bytes kind f w)
  unfolding load_raw
  raw-On path bytes kind f w = at_start (load_raw files path bytes kind f w) refl refl

  copy-On :
      (path bytes : List ℕ) (f : Floppy) (w : W)
      → IsOnDisk f
      → Loaded (load_disk_copy_42 files path bytes f w)
  unfolding load_disk_copy_42
  copy-On path bytes f w h =
      if_both Loaded
        (not (data_size == raw_400k_bytes)
            && not (data_size == raw_800k_bytes)
            && not (data_size == raw_1440k_bytes)
          || ltb (length bytes) (u32 (disk_copy_header_bytes + data_size + tag_size)))
        _ _ (λ _. h)
        λ _.
          if_both Loaded
            (not (tag_size == 0)
              && not (tag_size == u32 (data_size / bytes_per_sector * tag_bytes_per_sector)))
            _ _ (λ _. h) (λ _. (omega arith, first_side (not (data_size == raw_400k_bytes))))
    where
      data_size : ℕ
      data_size = read_be32 bytes 64

      tag_size : ℕ
      tag_size = read_be32 bytes 68

  kind_On :
      (kind : Kind) (f g k : Floppy) (other : Bool × Floppy)
      → IsOnDisk g
      → IsOnDisk k
      → Loaded other
      → Loaded (elim kind [ raw_800k ↦ (true, g) | raw_1440k ↦ (true, k) | _ ↦ other ])
  kind_On raw_800k f g k other a b c = a
  kind_On raw_1440k f g k other a b c = b
  kind_On raw_400k f g k other a b c = c
  kind_On empty f g k other a b c = c
  kind_On disk_copy_42 f g k other a b c = c

  bytes-On :
      (path bytes : List ℕ) (f : Floppy) (w : W)
      → IsOnDisk f
      → Loaded (load_bytes files path bytes f w)
  unfolding load_bytes
  bytes-On path bytes f w h =
      if_both Loaded (length bytes == raw_400k_bytes) _ _ (λ _. raw-On path bytes raw_400k f w)
        λ _.
          if_both Loaded (length bytes == raw_800k_bytes) _ _ (λ _. raw-On path bytes raw_800k f w)
            λ _.
              if_both Loaded (length bytes == raw_1440k_bytes) _ _
                (λ _. raw-On path bytes raw_1440k f w)
                λ _.
                  kind_On (truncated_raw_hfs_kind bytes) f _ _ _ (raw-On path _ raw_800k f w)
                    (raw-On path _ raw_1440k f w)
                    (if_both Loaded (leb 84 (length bytes)) _ _ (λ _. copy-On path bytes f w h)
                      (λ _. h))

  load-On :
      (path : List ℕ) (read_only : Bool) (f : Floppy) (w : W)
      → IsOnDisk f
      → Loaded (load files path read_only f w)
  unfolding load
  load-On path read_only f w h =
      option_both Loaded (files.contents path w) _ _ h
        λ bytes. bytes-On path bytes (record f { force_read_only = read_only }) w h

  seek-Done :
      (track : ℤ) (f : Floppy) (w : W) → IsOnDisk f → Done (set_current_track files track f w)
  unfolding set_current_track
  seek-Done track f w h =
      if_both Done (f.current_track == clamp_track track) _ _ (λ _. h)
        (λ _.
          flushed-Done _ f w h λ g on. (clamp_track-below track, (on_disk f.double_sided g on).1))

  side-Done : (side : ℤ) (f : Floppy) (w : W) → IsOnDisk f → Done (set_current_side files side f w)
  unfolding set_current_side
  side-Done side f w h =
      if_both Done (f.current_side == (if f.double_sided then clamp_side side else 0)) _ _ (λ _. h)
        (λ _. flushed-Done _ f w h λ g on. (on.1, rw on.0 (side_below side f.double_sided)))

  motor-Done : (on : Bool) (f : Floppy) (w : W) → IsOnDisk f → Done (set_motor_on files on f w)
  unfolding set_motor_on
  motor-Done on f w h =
      if_both Done (f.motor_on && not on) _ _
        (λ _. flushed-Done _ f w h λ g k. on_disk f.double_sided g k) (λ _. h)

  operate-Done : (op : Op) (f : Floppy) (w : W) → IsOnDisk f → Done (operate files op f w)
  unfolding operate eject step
  operate-Done (load_disk path read_only) f w h = load-On path read_only f w h
  operate-Done eject_disk f w h = flushed-Done _ f w h λ g on. (omega arith, omega arith)
  operate-Done (seek track) f w h = seek-Done track f w h
  operate-Done (step_head toward_track_zero) f w h = seek-Done _ f w h
  operate-Done (choose_side side) f w h = side-Done side f w h
  operate-Done (motor on) f w h = motor-Done on f w h
  operate-Done read_byte f w h = next-On f h
  operate-Done (write_byte value mark) f w h =
      then_Done f.double_sided (write_disk_byte files value mark f w) _ Done
        (write-On f.double_sided value mark f w (sides f h)) λ r on. on_disk f.double_sided r.1 on
  operate-Done flush f w h =
      then_Done f.double_sided (flush_writes files f w) _ Done
        (flush-On f.double_sided f w (sides f h)) λ r on. on_disk f.double_sided r.1 on

  -- From a disk with its head on it, every sequence of calls of the drive returns, and the head is
  -- then on a track and a side of the disk that is in the drive.
  pub operate_all-IsOnDisk :
      (ops : List Op) (f : Floppy) (w : W)
      → IsOnDisk f
      → (s : Floppy × W) × (operate_all files ops f w ≡ some s) × IsOnDisk s.0
  unfolding operate_all
  operate_all-IsOnDisk [] f w h = ((f, w), refl, h)
  operate_all-IsOnDisk (op ∷ ops) f w h =
      let (s, e, on) = done_lem (operate files op f w) (operate-Done op f w h) in
      let (s', e', on') = operate_all-IsOnDisk ops s.0 s.1 on in
      (
        s',
        ap
              (λ (o : Option (Floppy × W)). elim o [
                | none ↦ none
                | some s ↦ operate_all files ops s.0 s.1
              ])
              e
            ∙ e',
        on',
      )
