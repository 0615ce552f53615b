-- ===== src/Devices/Rtc/Image.antt =====
-- The image file of the parameter RAM in devices/rtc/MacRtc.cpp.
use cute_mac.Base.{
  Bool, ◌⊎◌, ℕ, suc, ◌<◌, true, false, ◌==◌, List, [], ◌∷◌, some, ◌≡◌, refl, ◌∙◌, ap₂, length,
  arith,
}
use cute_mac.Devices.Rtc.Protocol.{put_hit}
use cute_mac.Devices.Rtc.{
  Files, MacRtc, put, ram_size, bytes_from, load_image, adopt_image, set_nvram_image_path,
}

load_image-below :
    (bs : List ℕ) (index : ℕ) (ram : ℕ → ℕ) (i : ℕ) → i < index → load_image bs index ram i ≡ ram i
unfolding load_image
load_image-below [] index ram i less = refl
load_image-below (b ∷ bs) index ram i less =
    ground (arith, load_image-below bs (suc index) (put ram index b) i (omega arith))

-- An image that is loaded is what the RAM then holds, byte by byte.
bytes_from-load_image :
    (bs : List ℕ) (index : ℕ) (ram : ℕ → ℕ)
    → bytes_from (length bs) index (load_image bs index ram) ≡ bs
unfolding load_image
bytes_from-load_image [] index ram = refl
bytes_from-load_image (b ∷ bs) index ram =
    ap₂ (λ (x : ℕ) (xs : List ℕ). x ∷ xs)
      (load_image-below bs (suc index) (put ram index b) index (omega arith) ∙ put_hit ram index b)
      (bytes_from-load_image bs (suc index) (put ram index b))

module _ {W : Type 0} (files : Files W) where
  -- `ram` is the image of its size that the file at the path had.
  pub record IsImage (path : List ℕ) (w : W) (ram : ℕ → ℕ) : Type 0 where
    pub image : List ℕ
    pub present : files.exists path w ≡ true
    pub in_file : files.contents path w ≡ some image
    pub whole : length image ≡ ram_size
    pub held : bytes_from ram_size 0 ram ≡ image

  -- What a call with a path leaves: either it is refused, and the chip and the files are as before,
  -- or the path is remembered; the RAM is as before or a whole image, and it is the image where the
  -- call succeeds and the file was there; what the serial pins have done is untouched.
  pub record IsAdopted (path : List ℕ) (r : MacRtc) (w : W) (s : Bool × MacRtc × W) : Type 0 where
    pub outcome : (s ≡ (false, r, w)) ⊎ (s.1.nvram_image_path ≡ files.absolute path)
    pub ram : (s.1.parameter_ram ≡ r.parameter_ram) ⊎ IsImage path w s.1.parameter_ram
    pub loaded : (s.0 ≡ false) ⊎ ((files.exists path w ≡ false) ⊎ IsImage path w s.1.parameter_ram)
    pub untouched :
        s.1
        ≡ record r { parameter_ram = s.1.parameter_ram; nvram_image_path = s.1.nvram_image_path }

  -- A chip given the path of an image of its size, in a folder that is there, holds the bytes of
  -- the image, would save those bytes again, and remembers the path.
  pub set_nvram_image_path-loads :
      (p : ℕ) (path bytes : List ℕ) (r : MacRtc) (w : W)
      → files.exists (p ∷ path) w ≡ true
      → files.contents (p ∷ path) w ≡ some bytes
      → length bytes ≡ ram_size
      → (files.make_folder (files.absolute (p ∷ path)) w).0 ≡ true
      → files.exists (p ∷ path) (files.make_folder (files.absolute (p ∷ path)) w).1 ≡ true
      → let (done, r', w') = set_nvram_image_path files (p ∷ path) r w in
        (done ≡ true)
        × (bytes_from ram_size 0 r'.parameter_ram ≡ bytes)
        × (r'.nvram_image_path ≡ files.absolute (p ∷ path))
  unfolding set_nvram_image_path adopt_image
  set_nvram_image_path-loads p path bytes r w present read right made still =
      rw (present, read, right_size, made, still) (refl, image, refl)
    where
      right_size : (length bytes == ram_size) ≡ true
      right_size = ground arith

      image : bytes_from ram_size 0 (load_image bytes 0 r.parameter_ram) ≡ bytes
      image = rw right at (bytes_from-load_image bytes 0 r.parameter_ram)
