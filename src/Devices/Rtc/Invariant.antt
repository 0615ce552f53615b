-- ===== src/Devices/Rtc/Invariant.antt =====
-- What every state of devices/rtc/MacRtc.cpp keeps, and what the write protection protects.
use cute_mac.Base.{
  ℕ, ◌+◌, ◌*◌, ◌<◌, Bool, true, false, not, ◌&&◌, if◌then◌else◌, ◌==◌, ltb, u8, ◌>>>◌, ◌≡◌, refl,
  bit_or, bit_and, bool_to_ℕ, ◌^◌, if_both, arith,
}
use cute_mac.Devices.Rtc.{
  Files, MacRtc, mac_rtc, put, write_ram, select, receive_byte, access_register, clock_bit,
  set_pins,
}

-- The fields are in the range of their types, a byte is never finished and left, and the chip
-- sends only when it is in no command.
abbrev pub IsRtc : MacRtc → Type 0
IsRtc r =
    ((i : ℕ) → r.parameter_ram i < 256)
    × (r.shift < 256)
    × (r.command < 256)
    × (r.sector < 256)
    × (r.bits < 8)
    × (r.mode < 4)
    × (r.output_active ≡ true → r.mode ≡ 0)

put-bytes :
    (ram : ℕ → ℕ) (address value : ℕ)
    → ((i : ℕ) → ram i < 256)
    → value < 256
    → (i : ℕ) → put ram address value i < 256
put-bytes ram address value bytes small i = ground (arith, bytes i)

pub mac_rtc-IsRtc : IsRtc mac_rtc
mac_rtc-IsRtc =
    (λ i. omega arith, omega arith, omega arith, omega arith, omega arith, omega arith, λ h. refl)

abbrev Kept : MacRtc → MacRtc → Type 0
Kept r s = IsRtc s × (s.mode ≡ r.mode)

-- A command that the chip has been given leaves it in no command.
finished : (r : MacRtc) → IsRtc r → IsRtc (record r { mode = 0 })
finished r h = ground arith

module _ {W : Type 0} (files : Files W) where
  write_ram-Kept :
      (address value : ℕ) (r : MacRtc) (w : W)
      → value < 256
      → IsRtc r
      → Kept r (write_ram files address value r w).0
  write_ram-Kept address value r w small h =
      if_both (λ (s : MacRtc × W). Kept r s.0) r.write_protected _ _ (λ t. (h, refl))
        (λ t.
          ((put-bytes r.parameter_ram address value h.0 small, h.1, h.2, h.3, h.4, h.5, h.6), refl))

  abbrev Answered : MacRtc → ℕ × MacRtc × W → Type 0
  Answered r s = (s.0 < 256) × Kept r s.1

  access-Answered :
      (command value : ℕ) (write : Bool) (r : MacRtc) (w : W)
      → value < 256
      → IsRtc r
      → Answered r (access_register files command value write r w)
  unfolding access_register
  access-Answered command value write r w small h =
      if_both (Answered r) (ltb reg 8) _ _ (λ t. (ground arith, (h, refl)))
        λ t.
          if_both (Answered r) (ltb reg 12) _ _ (λ t. access _)
            λ t.
              if_both (Answered r) (ltb reg 16) _ _
                (λ t. (
                  omega arith,
                  if_both (Kept r) (write && (reg == 13)) _ _ (λ t. (h, refl)) (λ t. (h, refl)),
                ))
                (λ t. access _)
    where
      reg : ℕ
      reg = bit_and command 0x7c >>> 2

      access :
          (address : ℕ)
          → Answered r (
              let after = if write then write_ram files address value r w else (r, w) in
              (after.0.parameter_ram address, after.0, after.1))
      access address =
          if_both (λ (s : MacRtc × W). Answered r (s.0.parameter_ram address, s.0, s.1)) write _ _
            (λ t. let k = write_ram-Kept address value r w small h in (k.0.0 address, k))
            (λ t. (h.0 address, (h, refl)))

  -- A byte in any mode keeps the invariant; the bits before it are gone by then.
  receive-IsRtc :
      (value : ℕ) (r : MacRtc) (w : W)
      → value < 256
      → IsRtc r
      → r.bits ≡ 0
      → r.output_active ≡ false
      → IsRtc (receive_byte files value r w).0
  unfolding receive_byte
  receive-IsRtc value r w small h none quiet =
      if_both P (r.mode == 0) _ _
        (λ t0.
          if_both P (bit_and value 0x78 == 0x38) _ _ (λ t. ground arith)
            λ t.
              if_both P (not (bit_and value 0x80 == 0)) _ _
                (λ t. let k = access-Answered value 0 false r w (omega arith) h in ground arith)
                (λ t. ground arith))
        λ t0.
          if_both P (r.mode == 1) _ _
            (λ t. let k = access-Answered r.command value true r w small h in ground arith)
            λ t.
              if_both P (r.mode == 2) _ _
                (λ t.
                  if_both P (not (bit_and r.command 0x80 == 0)) _ _
                    (λ t.
                      let b =
                        h.0 (
                          u8
                            (bit_or (bit_and r.command 0x07 * 2 ^ 5) (bit_and value 0x7c >>> 2))) in
                      ground arith)
                    (λ t. ground arith))
                (λ t. let k = write_ram-Kept r.sector value r w small h in ground arith)
    where
      P : MacRtc × W → Type 0
      P s = IsRtc s.0

  clock-IsRtc : (level : Bool) (r : MacRtc) (w : W) → IsRtc r → IsRtc (clock_bit files level r w).0
  unfolding clock_bit
  clock-IsRtc level r w h =
      if_both P r.output_active _ _
        (λ t. if_both P (r.bits + 1 == 8) _ _ (λ e. ground arith) (λ e. ground arith))
        (λ t.
          if_both P (r.bits + 1 == 8) _ _
            (λ e.
              receive-IsRtc shifted (record r { shift = shifted; bits = 0 }) w (omega arith)
                (ground arith) refl t)
            (λ e. ground arith))
    where
      P : MacRtc × W → Type 0
      P s = IsRtc s.0

      shifted : ℕ
      shifted = u8 (bit_or (r.shift * 2) (bool_to_ℕ level))

  -- A change of the pins keeps every field in its range: whatever the levels, at most seven bits
  -- of a byte are held, and the chip sends only between commands.
  pub set_pins-IsRtc :
      (enable clock level : Bool) (r : MacRtc) (w : W)
      → IsRtc r
      → IsRtc (set_pins files enable clock level r w).0
  unfolding set_pins
  set_pins-IsRtc enable clock level r w h =
      if_both P enable _ _
        (λ e.
          if_both P (not (select clock r).clock_high && clock) _ _
            (λ t. clock-IsRtc level (select clock r) w selected) (λ t. selected))
        (λ e.
          if_both (λ s. IsRtc (record s { clock_high = clock })) r.enabled _ _ (λ t. ground arith)
            (λ t. ground arith))
    where
      P : MacRtc × W → Type 0
      P s = IsRtc s.0

      selected : IsRtc (select clock r)
      selected = if_both IsRtc r.enabled _ _ (λ t. h) (λ t. ground arith)
