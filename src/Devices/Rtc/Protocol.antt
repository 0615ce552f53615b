-- ===== src/Devices/Rtc/Protocol.antt =====
-- The commands of devices/rtc/MacRtc.cpp over the pins: what a host writes, it reads back.
use cute_mac.Base.{
  ℕ, ◌+◌, ◌*◌, ◌/◌, ◌%◌, ◌<◌, Bool, true, false, not, ◌&&◌, List, [], ◌∷◌, ◌==◌, u8, ◌≡◌, refl, ap,
  ◌∙◌, bit_or, ◌>>>◌, bit_and, if_holds, if_fails, holds_below_lem, arith, ◌^◌,
}
use cute_mac.Devices.Rtc.{Files, MacRtc, put, receive_byte, save_nvram}
use cute_mac.Devices.Rtc.Serial.{
  levels_of, send_bits, receive_bits, level, listening, sending, send-receive_byte,
  receive_bits-sending,
}

-- The two bytes of an extended command for a sector, to write (0x38) or to read (0xb8).
abbrev pub command_byte : ℕ → ℕ → ℕ
command_byte base sector = base + sector / 32

abbrev pub sector_byte : ℕ → ℕ
sector_byte sector = sector % 32 * 4

abbrev sector_of : ℕ → ℕ → ℕ
sector_of command value = u8 (bit_or (bit_and command 0x07 * 2 ^ 5) (bit_and value 0x7c >>> 2))

abbrev commands_fit : ℕ → Bool
commands_fit sector =
    (bit_and (command_byte 0x38 sector) 0x78 == 0x38)
    && (bit_and (command_byte 0xb8 sector) 0x78 == 0x38)
    && (sector_of (command_byte 0x38 sector) (sector_byte sector) == sector)
    && (sector_of (command_byte 0xb8 sector) (sector_byte sector) == sector)
    && (bit_and (command_byte 0x38 sector) 0x80 == 0)
    && not (bit_and (command_byte 0xb8 sector) 0x80 == 0)

every_command_fits : (sector : ℕ) → sector < 256 → commands_fit sector ≡ true
every_command_fits = holds_below_lem 256 commands_fit refl

-- Between two commands.
abbrev pub idle : MacRtc → MacRtc
idle r = record (listening r) { mode = 0 }

abbrev addressed : ℕ → ℕ → MacRtc → MacRtc
addressed command sector r = record (listening r) {
  shift = sector_byte sector;
  clock_high = true;
  command = command;
  sector = sector;
}

abbrev sent : ℕ → MacRtc → MacRtc
sent value r = record r { shift = value; clock_high = true }

-- The chip after a value has been stored in a sector.
abbrev pub written : ℕ → ℕ → MacRtc → MacRtc
written sector value r = record (addressed (command_byte 0x38 sector) sector r) {
  shift = value;
  mode = 0;
  parameter_ram = put r.parameter_ram sector value;
}

pub put_hit : (ram : ℕ → ℕ) (address value : ℕ) → put ram address value address ≡ value
put_hit ram address value = ground arith

facts :
    (sector : ℕ)
    → sector < 256
    → ((bit_and (command_byte 0x38 sector) 0x78 == 0x38) ≡ true)
      × (sector_of (command_byte 0x38 sector) (sector_byte sector) ≡ sector)
      × (not (bit_and (command_byte 0x38 sector) 0x80 == 0) ≡ false)
      × ((bit_and (command_byte 0xb8 sector) 0x78 == 0x38) ≡ true)
      × (sector_of (command_byte 0xb8 sector) (sector_byte sector) ≡ sector)
      × (not (bit_and (command_byte 0xb8 sector) 0x80 == 0) ≡ true)
facts sector small = let all = every_command_fits sector small in ground arith

module _ {W : Type 0} (files : Files W) where
  -- A host that sends and receives bytes on the pins.
  abbrev pub send : ℕ → MacRtc × W → MacRtc × W
  send b = send_bits files (levels_of b)

  abbrev pub receive : MacRtc × W → List Bool × MacRtc × W
  receive = receive_bits files (false ∷ false ∷ false ∷ false ∷ false ∷ false ∷ false ∷ false ∷ [])

  unfoldable pub write_sector : ℕ → ℕ → MacRtc × W → MacRtc × W
  write_sector sector value s =
      send value (send (sector_byte sector) (send (command_byte 0x38 sector) s))

  unfoldable pub read_sector : ℕ → MacRtc × W → List Bool × MacRtc × W
  read_sector sector s = receive (send (sector_byte sector) (send (command_byte 0xb8 sector) s))

  select_sector :
      (base sector : ℕ)
      → command_byte base sector < 256
      → (bit_and (command_byte base sector) 0x78 == 0x38) ≡ true
      → (r : MacRtc) (w : W)
      → send (command_byte base sector) (idle r, w) ≡ (
        record (listening r) {
          shift = command_byte base sector;
          clock_high = true;
          command = command_byte base sector;
          mode = 2;
        },
        w,
      )
  unfolding receive_byte
  select_sector base sector small extended r w =
      send-receive_byte files (command_byte base sector) small (record r { mode = 0 }) w
      ∙ ap (λ (s : MacRtc × W). (record (s.0) { clock_high = true }, s.1)) (if_holds _ _ extended)

  choose_to_write :
      (command sector : ℕ)
      → sector < 256
      → sector_of command (sector_byte sector) ≡ sector
      → not (bit_and command 0x80 == 0) ≡ false
      → (r : MacRtc) (w : W)
      → send (sector_byte sector) (record (listening r) { command = command; mode = 2 }, w)
        ≡ (record (addressed command sector r) { mode = 3 }, w)
  unfolding receive_byte
  choose_to_write command sector small fits to_write r w =
      send-receive_byte files (sector_byte sector) (omega arith)
        (record r { command = command; mode = 2 }) w
      ∙ ap (λ (s : MacRtc × W). (record (s.0) { clock_high = true }, s.1)) (if_fails _ _ to_write)
      ∙ ap (λ x. (record (addressed command x r) { shift = sector_byte sector; mode = 3 }, w)) fits

  choose_to_read :
      (command sector : ℕ)
      → sector < 256
      → sector_of command (sector_byte sector) ≡ sector
      → not (bit_and command 0x80 == 0) ≡ true
      → (r : MacRtc) (w : W)
      → send (sector_byte sector) (record (listening r) { command = command; mode = 2 }, w)
        ≡ (sending (r.parameter_ram sector) (record (addressed command sector r) { mode = 0 }), w)
  unfolding receive_byte
  choose_to_read command sector small fits to_read r w =
      send-receive_byte files (sector_byte sector) (omega arith)
        (record r { command = command; mode = 2 }) w
      ∙ ap (λ (s : MacRtc × W). (record (s.0) { clock_high = true }, s.1)) (if_holds _ _ to_read)
      ∙ ap (λ x. (sending (r.parameter_ram x) (record (addressed command x r) { mode = 0 }), w))
          fits

  -- A write command stores its value in its sector and saves the RAM.
  pub write_sector_lem :
      (sector value : ℕ)
      → sector < 256
      → value < 256
      → (r : MacRtc) (w : W)
      → write_sector sector value (idle (record r { write_protected = false }), w) ≡ (
        written sector value (record r { write_protected = false }),
        (save_nvram files (record r { parameter_ram = put r.parameter_ram sector value }) w).1,
      )
  unfolding write_sector receive_byte save_nvram
  write_sector_lem sector value small small_value r w =
      let open_r : MacRtc = record r { write_protected = false } in
      let (extended, fits, to_write, _, _, _) = facts sector small in
      let chosen = select_sector 0x38 sector (omega arith) extended open_r w in
      ap (λ s. send value (send (sector_byte sector) s)) chosen
      ∙ ap (send value) (
          choose_to_write (command_byte 0x38 sector) sector small fits to_write
            (sent (command_byte 0x38 sector) open_r) w)
      ∙ send-receive_byte files value small_value
          (record (addressed (command_byte 0x38 sector) sector open_r) { mode = 3 }) w

  -- A read command puts the byte of its sector on the data line and changes neither the RAM nor
  -- the write protection.
  pub read_sector_lem :
      (sector : ℕ)
      → sector < 256
      → (r : MacRtc) (w : W)
      → read_sector sector (idle r, w) ≡ (
        levels_of (r.parameter_ram sector),
        record (addressed (command_byte 0xb8 sector) sector (idle r)) {
          shift = r.parameter_ram sector;
          data_line = level 0 (r.parameter_ram sector);
        },
        w,
      )
  unfolding read_sector
  read_sector_lem sector small r w =
      let (_, _, _, extended, fits, to_read) = facts sector small in
      ap (λ s. receive (send (sector_byte sector) s))
        (select_sector 0xb8 sector (omega arith) extended r w)
      ∙ ap receive (
          choose_to_read (command_byte 0xb8 sector) sector small fits to_read
            (sent (command_byte 0xb8 sector) r) w)
      ∙ receive_bits-sending files (r.parameter_ram sector) false false false false false false
          false false (record (addressed (command_byte 0xb8 sector) sector r) { mode = 0 }) w

  -- What is written to a sector of the parameter RAM over the pins is read back over the pins,
  -- when the chip is selected, between two commands and not write protected.
  pub read_sector-write_sector :
      (sector value : ℕ)
      → sector < 256
      → value < 256
      → (r : MacRtc) (w : W)
      → (read_sector sector
          (write_sector sector value (idle (record r { write_protected = false }), w))).0
        ≡ levels_of value
  read_sector-write_sector sector value small small_value r w =
      ap (λ s. (read_sector sector s).0) (write_sector_lem sector value small small_value r w)
      ∙ ap (λ s. s.0)
          (read_sector_lem sector small
            (written sector value (record r { write_protected = false })) _)
      ∙ ap levels_of (put_hit r.parameter_ram sector value)
