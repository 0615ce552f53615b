-- ===== src/Devices/Rtc/Protect.antt =====
-- What the write protection and the chip select of devices/rtc/MacRtc.cpp promise.
use cute_mac.Base.{
  ℕ, ◌+◌, ◌*◌, Bool, true, false, not, ◌&&◌, if◌then◌else◌, ◌==◌, ltb, u8, ◌>>>◌, ◌≡◌, refl, ◌∙◌,
  bit_or, bit_and, bool_to_ℕ, if_both, arith,
}
use cute_mac.Devices.Rtc.{
  Files, MacRtc, write_ram, select, receive_byte, access_register, clock_bit, set_pins,
}
use cute_mac.Devices.Rtc.Protocol.{idle}

module _ {W : Type 0} (files : Files W) where
  -- The RAM and the files are as they were.
  abbrev Untouched : MacRtc → W → MacRtc × W → Type 0
  Untouched r w s = (s.0.parameter_ram ≡ r.parameter_ram) × (s.1 ≡ w)

  write_ram-Untouched :
      (address value : ℕ) (r : MacRtc) (w : W)
      → r.write_protected ≡ true
      → Untouched r w (write_ram files address value r w)
  write_ram-Untouched address value r w protected =
      if_both (Untouched r w) r.write_protected _ _ (λ t. (refl, refl)) (λ t. ground arith)

  access-Untouched :
      (command value : ℕ) (write : Bool) (r : MacRtc) (w : W)
      → r.write_protected ≡ true
      → let s = access_register files command value write r w in Untouched r w (s.1, s.2)
  unfolding access_register
  access-Untouched command value write r w protected =
      if_both P (ltb reg 8) _ _ (λ t. (refl, refl))
        λ t.
          if_both P (ltb reg 12) _ _ (λ t. access _)
            λ t.
              if_both P (ltb reg 16) _ _
                (λ t. (
                  if_both (λ (s : MacRtc). s.parameter_ram ≡ r.parameter_ram) (write && (reg == 13))
                      _ _ (λ t. refl) (λ t. refl),
                  refl,
                ))
                (λ t. access _)
    where
      P : ℕ × MacRtc × W → Type 0
      P s = Untouched r w (s.1, s.2)

      reg : ℕ
      reg = bit_and command 0x7c >>> 2

      access :
          (address : ℕ)
          → P (
              let after = if write then write_ram files address value r w else (r, w) in
              (after.0.parameter_ram address, after.0, after.1))
      access address =
          if_both (λ (s : MacRtc × W). P (s.0.parameter_ram address, s.0, s.1)) write _ _
            (λ t. write_ram-Untouched address value r w protected) (λ t. (refl, refl))

  receive-Untouched :
      (value : ℕ) (r : MacRtc) (w : W)
      → r.write_protected ≡ true
      → Untouched r w (receive_byte files value r w)
  unfolding receive_byte
  receive-Untouched value r w protected =
      if_both (Untouched r w) (r.mode == 0) _ _
        (λ t0.
          if_both (Untouched r w) (bit_and value 0x78 == 0x38) _ _ (λ t. (refl, refl))
            λ t.
              if_both (Untouched r w) (not (bit_and value 0x80 == 0)) _ _
                (λ t. access-Untouched value 0 false r w protected) (λ t. (refl, refl)))
        λ t0.
          if_both (Untouched r w) (r.mode == 1) _ _
            (λ t. access-Untouched r.command value true r w protected)
            λ t.
              if_both (Untouched r w) (r.mode == 2) _ _
                (λ t.
                  if_both (Untouched r w) (not (bit_and r.command 0x80 == 0)) _ _
                    (λ t. (refl, refl)) (λ t. (refl, refl)))
                (λ t. write_ram-Untouched r.sector value r w protected)

  clock-Untouched :
      (level : Bool) (r : MacRtc) (w : W)
      → r.write_protected ≡ true
      → Untouched r w (clock_bit files level r w)
  unfolding clock_bit
  clock-Untouched level r w protected =
      if_both (Untouched r w) r.output_active _ _
        (λ t. if_both (Untouched r w) (r.bits + 1 == 8) _ _ (λ e. (refl, refl)) (λ e. (refl, refl)))
        (λ t.
          if_both (Untouched r w) (r.bits + 1 == 8) _ _
            (λ e. receive-Untouched shifted (record r { shift = shifted; bits = 0 }) w protected)
            (λ e. (refl, refl)))
    where
      shifted : ℕ
      shifted = u8 (bit_or (r.shift * 2) (bool_to_ℕ level))

  -- While the chip is write protected, no change of the pins changes the parameter RAM or saves
  -- its image.
  pub set_pins-protected :
      (enable clock level : Bool) (r : MacRtc) (w : W)
      → r.write_protected ≡ true
      → ((set_pins files enable clock level r w).0.parameter_ram ≡ r.parameter_ram)
        × ((set_pins files enable clock level r w).1 ≡ w)
  unfolding set_pins
  set_pins-protected enable clock level r w protected =
      if_both P enable _ _
        (λ e.
          if_both P (not (select clock r).clock_high && clock) _ _
            (λ t.
              let k = clock-Untouched level (select clock r) w selected.0 in
              (k.0 ∙ selected.1, k.1))
            (λ t. (selected.1, refl)))
        (λ e. (
          if_both (λ (q : MacRtc). q.parameter_ram ≡ r.parameter_ram) r.enabled _ _ (λ t. refl)
              (λ t. refl),
          refl,
        ))
    where
      P : MacRtc × W → Type 0
      P = Untouched r w

      selected :
          ((select clock r).write_protected ≡ true)
          × ((select clock r).parameter_ram ≡ r.parameter_ram)
      selected =
          if_both (λ (q : MacRtc). (q.write_protected ≡ true) × (q.parameter_ram ≡ r.parameter_ram))
            r.enabled _ _ (λ t. (protected, refl)) (λ t. (protected, refl))

  reselect_at :
      (enabled clock level low level' : Bool) (q : MacRtc) (w : W)
      → let r = record q { enabled = enabled } in
        let after = set_pins files false clock level r w in
        let again = set_pins files true low level' after.0 after.1 in
        (again ≡ (idle again.0, w))
        × (again.0.parameter_ram ≡ r.parameter_ram)
        × (again.0.write_protected ≡ r.write_protected)
  unfolding set_pins
  reselect_at true clock level true level' q w = (refl, refl, refl)
  reselect_at true clock level false level' q w = (refl, refl, refl)
  reselect_at false clock level true level' q w = (refl, refl, refl)
  reselect_at false clock level false level' q w = (refl, refl, refl)

  -- Whatever was under way, taking the select away and giving it back leaves the chip between two
  -- commands, with the RAM and the write protection it had.
  pub set_pins-reselect :
      (clock level low level' : Bool) (r : MacRtc) (w : W)
      → let after = set_pins files false clock level r w in
        let again = set_pins files true low level' after.0 after.1 in
        (again ≡ (idle again.0, w))
        × (again.0.parameter_ram ≡ r.parameter_ram)
        × (again.0.write_protected ≡ r.write_protected)
  set_pins-reselect clock level low level' r w = reselect_at r.enabled clock level low level' r w
