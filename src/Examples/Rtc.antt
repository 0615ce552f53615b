-- ===== src/Examples/Rtc.antt =====
-- The real-time clock with files in memory: one image is there, and every save succeeds.
use cute_mac.Base.{ℕ, true, false, List, [], ◌∷◌, some, ◌≡◌, refl, replicate, arith}
use cute_mac.Devices.Rtc.{
  Files, MacRtc, mac_rtc, set_pins, receive_byte, ram_size, bytes_from, set_nvram_image_path,
}
use cute_mac.Devices.Rtc.Serial.{levels_of, listening, send_bits, send-receive_byte}
use cute_mac.Devices.Rtc.Protocol.{idle, read_sector, write_sector, read_sector-write_sector}
use cute_mac.Devices.Rtc.Invariant.{IsRtc, mac_rtc-IsRtc, set_pins-IsRtc}
use cute_mac.Devices.Rtc.Protect.{set_pins-protected, set_pins-reselect}
use cute_mac.Devices.Rtc.Image.{set_nvram_image_path-loads}

-- The state of the files is the bytes of the one image.
abbrev one_image : Files (List ℕ)
one_image = record {
  exists = λ path image. true;
  contents = λ path image. some image;
  absolute = λ path. path;
  make_folder = λ path image. (true, image);
  save_file = λ path bytes image. (true, bytes);
  local_seconds = λ image. 1_700_000_000;
}

abbrev full_image : List ℕ
full_image = replicate 256 0xa8

abbrev protected_rtc : MacRtc
protected_rtc = record mac_rtc { write_protected = true }

send-receive_byte_example :
    let after =
      receive_byte one_image 0x8d
        (record (listening mac_rtc) { shift = 0x8d; clock_high = false })
        [] in
    send_bits one_image (levels_of 0x8d) (listening mac_rtc, [])
    ≡ (record (after.0) { clock_high = true }, after.1)
send-receive_byte_example = send-receive_byte one_image 0x8d (omega arith) mac_rtc []

read_sector-write_sector_example :
    (read_sector one_image 200
      (write_sector one_image 200 0x5a (idle (record mac_rtc { write_protected = false }), []))).0
    ≡ levels_of 0x5a
read_sector-write_sector_example =
    read_sector-write_sector one_image 200 0x5a (omega arith) (omega arith) mac_rtc []

set_pins-IsRtc_example : IsRtc (set_pins one_image true true false mac_rtc []).0
set_pins-IsRtc_example = set_pins-IsRtc one_image true true false mac_rtc [] mac_rtc-IsRtc

set_pins-protected_example :
    ((set_pins one_image true true true protected_rtc []).0.parameter_ram
      ≡ protected_rtc.parameter_ram)
    × ((set_pins one_image true true true protected_rtc []).1 ≡ [])
set_pins-protected_example = set_pins-protected one_image true true true protected_rtc [] refl

set_pins-reselect_example :
    let after =
      set_pins one_image false true true
        (record mac_rtc { enabled = true; mode = 3; bits = 5 })
        [] in
    let again = set_pins one_image true false true after.0 after.1 in
    (again ≡ (idle again.0, []))
    × (again.0.parameter_ram ≡ mac_rtc.parameter_ram)
    × (again.0.write_protected ≡ false)
set_pins-reselect_example =
    set_pins-reselect one_image true true false true
      (record mac_rtc { enabled = true; mode = 3; bits = 5 }) []

-- An image of two bytes is refused.
short_image :
    set_nvram_image_path one_image (112 ∷ []) mac_rtc (1 ∷ 2 ∷ []) ≡ (false, mac_rtc, 1 ∷ 2 ∷ [])
unfolding set_nvram_image_path
short_image = refl

set_nvram_image_path-loads_example :
    let (done, r', w') = set_nvram_image_path one_image (112 ∷ []) mac_rtc full_image in
    (done ≡ true)
    × (bytes_from ram_size 0 r'.parameter_ram ≡ full_image)
    × (r'.nvram_image_path ≡ 112 ∷ [])
unfolding replicate
set_nvram_image_path-loads_example =
    set_nvram_image_path-loads one_image 112 [] full_image mac_rtc full_image refl refl refl refl
      refl
