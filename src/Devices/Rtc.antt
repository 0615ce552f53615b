-- ===== src/Devices/Rtc.antt =====
-- devices/rtc/MacRtc.cpp: the real-time clock with its parameter RAM, behind three serial pins.
-- The files and the host's clock are the parameter `Files`, and `W` is their state.
pub mod Serial
pub mod Protocol
pub mod Invariant
pub mod Protect
pub mod Image
use cute_mac.Base.{
  ℕ, zero, suc, ◌+◌, ◌*◌, ◌/◌, ◌%◌, ◌^◌, ◌-◌, bit_and, bit_or, Bool, true, false, not, ◌&&◌, ◌||◌,
  List, [], ◌∷◌, ◌++◌, Option, none, some, ltb, ◌==◌, if◌then◌else◌, bool_to_ℕ, length, u8, u32,
  ◌>>>◌,
}

-- A path is the text of a QString.
pub record Files (W : Type 0) : Type 0 where
  -- QFile::exists
  pub exists : List ℕ → W → Bool
  -- QFile::open for reading and readAll: none where the file cannot be opened
  pub contents : List ℕ → W → Option (List ℕ)
  -- QFileInfo::absoluteFilePath
  pub absolute : List ℕ → List ℕ
  -- QDir().mkpath of the folder of a file
  pub make_folder : List ℕ → W → Bool × W
  -- QSaveFile: open, write, commit
  pub save_file : List ℕ → List ℕ → W → Bool × W
  -- toSecsSinceEpoch() + offsetFromUtc() of the current time, which is after 1970
  pub local_seconds : W → ℕ

-- `m_parameterRam` is an array of 256 bytes, here a function of the index.
pub record MacRtc : Type 0 where
  pub parameter_ram : ℕ → ℕ
  pub shift : ℕ
  pub command : ℕ
  pub sector : ℕ
  pub bits : ℕ
  pub mode : ℕ
  pub write_protected : Bool
  pub enabled : Bool
  pub clock_high : Bool
  pub output_active : Bool
  pub data_line : Bool
  pub nvram_image_path : List ℕ

abbrev pub ram_size : ℕ
ram_size = 256

abbrev pub mac_to_unix_epoch_seconds : ℕ
mac_to_unix_epoch_seconds = 2_082_844_800

abbrev pub group1_base : ℕ
group1_base = 0x10

abbrev pub group2_base : ℕ
group2_base = 0x08

abbrev pub put : (ℕ → ℕ) → ℕ → ℕ → ℕ → ℕ
put ram address value i = if i == address then value else ram i

-- The `count` bytes from `start` on.
abbrev pub bytes_from : ℕ → ℕ → (ℕ → ℕ) → List ℕ
bytes_from zero start ram = []
bytes_from (suc count) start ram = ram start ∷ bytes_from count (suc start) ram

abbrev pub reset_serial : MacRtc → MacRtc
reset_serial r = record r {
  shift = 0;
  bits = 0;
  mode = 0;
  enabled = false;
  clock_high = false;
  output_active = false;
  data_line = true;
}

-- The constructor, with the initialisers of the class.
abbrev pub mac_rtc : MacRtc
mac_rtc = reset_serial record {
  parameter_ram = λ i. 0;
  shift = 0;
  command = 0;
  sector = 0;
  bits = 0;
  mode = 0;
  write_protected = false;
  enabled = false;
  clock_high = false;
  output_active = false;
  data_line = true;
  nvram_image_path = [];
}

-- `setPins` when the chip select comes.
abbrev pub select : Bool → MacRtc → MacRtc
select clock r = if r.enabled then r else record r {
  enabled = true;
  clock_high = clock;
  shift = 0;
  bits = 0;
  mode = 0;
  output_active = false;
}

unfoldable pub load_image : List ℕ → ℕ → (ℕ → ℕ) → ℕ → ℕ
load_image [] index ram = ram
load_image (b ∷ bs) index ram = load_image bs (suc index) (put ram index b)

module _ {W : Type 0} (files : Files W) where
  unfoldable pub current_seconds : W → ℕ
  current_seconds w = u32 (u32 (files.local_seconds w) + mac_to_unix_epoch_seconds)

  unfoldable pub save_nvram : MacRtc → W → Bool × W
  save_nvram r w = elim r.nvram_image_path [
    | [] ↦ (true, w)
    | _ ↦ files.save_file r.nvram_image_path (bytes_from ram_size 0 r.parameter_ram) w
  ]

  -- `m_parameterRam[address] = value; (void)saveNvram();` under the write protection.
  abbrev pub write_ram : ℕ → ℕ → MacRtc → W → MacRtc × W
  write_ram address value r w =
      let r' = record r { parameter_ram = put r.parameter_ram address value } in
      if r.write_protected then (r, w) else (r', (save_nvram r' w).1)

  unfoldable pub access_register : ℕ → ℕ → Bool → MacRtc → W → ℕ × MacRtc × W
  access_register command value write r w =
      let reg = bit_and command 0x7c >>> 2 in
      let address2 = group2_base + bit_and reg 3 in
      let address1 = group1_base + bit_and reg 0x0f in
      if ltb reg 8
      then (if write then value else u8 (current_seconds w >>> (bit_and reg 3 * 8)), r, w)
      else if ltb reg 12
      then access address2
      else if ltb reg 16
      then (
        0,
        (if write && (reg == 13)
            then record r { write_protected = not (bit_and value 0x80 == 0) }
            else r),
        w,
      )
      else access address1
    where
      access : ℕ → ℕ × MacRtc × W
      access address =
          let after = if write then write_ram address value r w else (r, w) in
          (after.0.parameter_ram address, after.0, after.1)

  unfoldable pub receive_byte : ℕ → MacRtc → W → MacRtc × W
  receive_byte value r w =
      if r.mode == 0
      then if bit_and value 0x78 == 0x38
        then (record r { command = value; mode = 2 }, w)
        else if not (bit_and value 0x80 == 0)
        then (let (out, r', w') = access_register value 0 false r w in
            (record r' { shift = out; output_active = true }, w'))
        else (record r { command = value; mode = 1 }, w)
      else if r.mode == 1
      then (let (_, r', w') = access_register r.command value true r w in
          (record r' { mode = 0 }, w'))
      else if r.mode == 2
      then (let sector = u8 (bit_or (bit_and r.command 0x07 * 2 ^ 5) (bit_and value 0x7c >>> 2)) in
          if not (bit_and r.command 0x80 == 0)
          then (
            record r {
              sector = sector;
              shift = r.parameter_ram sector;
              output_active = true;
              mode = 0;
            },
            w,
          )
          else (record r { sector = sector; mode = 3 }, w))
      else (let (r', w') = write_ram r.sector value r w in (record r' { mode = 0 }, w'))

  -- The rising edge of the clock.
  unfoldable pub clock_bit : Bool → MacRtc → W → MacRtc × W
  clock_bit data_high r w =
      let shifted = u8 (bit_or (r.shift * 2) (bool_to_ℕ data_high)) in
      let line = not (bit_and (r.shift >>> (7 - r.bits)) 1 == 0) in
      if r.output_active
      then (if r.bits + 1 == 8
          then (record r { data_line = line; bits = 0; output_active = false }, w)
          else (record r { data_line = line; bits = r.bits + 1 }, w))
      else (if r.bits + 1 == 8
          then receive_byte shifted (record r { shift = shifted; bits = 0 }) w
          else (record r { shift = shifted; bits = r.bits + 1 }, w))

  unfoldable pub set_pins : Bool → Bool → Bool → MacRtc → W → MacRtc × W
  set_pins enable clock level r w =
      let s = select clock r in
      let after = if not s.clock_high && clock then clock_bit level s w else (s, w) in
      if enable
      then (record (after.0) { clock_high = clock }, after.1)
      else (record (if r.enabled then reset_serial r else r) { clock_high = clock }, w)

  -- What `setNvramImagePath` does once an existing image has been read.
  unfoldable pub adopt_image : List ℕ → MacRtc → W → Bool × MacRtc × W
  adopt_image path r w =
      let r' = record r { nvram_image_path = files.absolute path } in
      let (made, w') = files.make_folder (files.absolute path) w in
      let (saved, w'') = save_nvram r' w' in
      if made
      then (if files.exists path w' then (true, r', w') else (saved, r', w''))
      else (false, r', w')

  unfoldable pub set_nvram_image_path : List ℕ → MacRtc → W → Bool × MacRtc × W
  set_nvram_image_path [] r w = (true, record r { nvram_image_path = [] }, w)
  set_nvram_image_path (p ∷ path) r w =
      if files.exists (p ∷ path) w
      then elim (files.contents (p ∷ path) w) [
        | none ↦ (false, r, w)
        | some bytes ↦
            if length bytes == ram_size
            then adopt_image (p ∷ path)
                (record r { parameter_ram = load_image bytes 0 r.parameter_ram }) w
            else (false, r, w)
      ]
      else adopt_image (p ∷ path) r w
