-- ===== src/Devices/Rtc/Serial.antt =====
-- The pins of devices/rtc/MacRtc.cpp against whole bytes.
use cute_mac.Base.{
  ℕ, ◌+◌, ◌*◌, ◌<◌, Bool, true, false, not, ◌&&◌, if◌then◌else◌, List, [], ◌∷◌, ◌==◌, bool_to_ℕ,
  bit, u8, ◌≡◌, refl, ap, bit_or, bit_or-fields, bit_and-mask, ◌>>>◌, bit_and, arith,
}
use cute_mac.Devices.Rtc.{Files, MacRtc, set_pins, receive_byte, clock_bit}

no_edge : {A : Type 0} (high : Bool) (x y : A) → (if not high && false then x else y) ≡ y
no_edge true x y = refl
no_edge false x y = refl

abbrev pub level : ℕ → ℕ → Bool
level k b = not (bit k b == 0)

-- Eight levels, the most significant first.
abbrev pub levels_of : ℕ → List Bool
levels_of b =
    level 7 b
    ∷ level 6 b
    ∷ level 5 b
    ∷ level 4 b
    ∷ level 3 b
    ∷ level 2 b
    ∷ level 1 b
    ∷ level 0 b
    ∷ []

abbrev pub assemble : List Bool → ℕ → ℕ
assemble [] s = s
assemble (b ∷ bs) s = assemble bs (u8 (bit_or (s * 2) (bool_to_ℕ b)))

bit_or-bool : (s : ℕ) (b : Bool) → bit_or (s * 2) (bool_to_ℕ b) ≡ s * 2 + bool_to_ℕ b
bit_or-bool s true = bit_or-fields 1 s 1 (omega arith)
bit_or-bool s false = bit_or-fields 1 s 0 (omega arith)

-- The level that the code puts on the data line.
abbrev shown : ℕ → ℕ → Bool
shown k v = not (bit_and (v >>> k) 1 == 0)

shown-level : (k v : ℕ) → shown k v ≡ level k v
shown-level k v = ap (λ d. not (d == 0)) (bit_and-mask 1 (v >>> k))

bool-bit : (k b : ℕ) → bool_to_ℕ (not (bit k b == 0)) ≡ bit k b
bool-bit k b = ground arith

shift_in : (s k b : ℕ) → u8 (bit_or (s * 2) (bool_to_ℕ (not (bit k b == 0)))) ≡ u8 (s * 2 + bit k b)
shift_in s k b = rw (bit_or-bool s (not (bit k b == 0)), bool-bit k b) refl

-- Eight levels shifted in replace all that was in the register.
pub assemble-levels_of : (b s : ℕ) → b < 256 → assemble (levels_of b) s ≡ b
assemble-levels_of b s small =
    rw
      (
        shift_in s 7 b,
        shift_in _ 6 b,
        shift_in _ 5 b,
        shift_in _ 4 b,
        shift_in _ 3 b,
        shift_in _ 2 b,
        shift_in _ 1 b,
        shift_in _ 0 b,
      )
      (omega arith)

-- A selected chip between two bytes, which waits for one or sends one.
abbrev pub listening : MacRtc → MacRtc
listening r = record r { enabled = true; output_active = false; bits = 0 }

abbrev pub sending : ℕ → MacRtc → MacRtc
sending value r = record r { enabled = true; output_active = true; bits = 0; shift = value }

-- The clock goes low and high again with the data pin at a level.
module _ {W : Type 0} (files : Files W) where
  unfoldable pub pulse : Bool → MacRtc × W → MacRtc × W
  pulse level s =
      let (r, w) = set_pins files true false level s.0 s.1 in set_pins files true true level r w

  unfoldable pub send_bits : List Bool → MacRtc × W → MacRtc × W
  send_bits [] s = s
  send_bits (b ∷ bs) s = send_bits bs (pulse b s)

  -- The levels of the data line after each of the pulses.
  unfoldable pub receive_bits : List Bool → MacRtc × W → List Bool × MacRtc × W
  receive_bits [] s = ([], s.0, s.1)
  receive_bits (b ∷ bs) s =
      let s' = pulse b s in let (line, r, w) = receive_bits bs s' in (s'.0.data_line ∷ line, r, w)

  -- With the chip selected, a low clock does nothing else.
  clock_low :
      (level : Bool) (r : MacRtc) (w : W)
      → set_pins files true false level (record r { enabled = true }) w
        ≡ (record r { enabled = true; clock_high = false }, w)
  unfolding set_pins
  clock_low level r w =
      ap (λ (s : MacRtc × W). (record (s.0) { clock_high = false }, s.1)) (no_edge r.clock_high _ _)

  abbrev edge : Bool → MacRtc × W → MacRtc × W
  edge level s = set_pins files true true level s.0 s.1

  pub send_bits-receive_byte :
      (b7 b6 b5 b4 b3 b2 b1 b0 : Bool) (r : MacRtc) (w : W)
      → let value = assemble (b7 ∷ b6 ∷ b5 ∷ b4 ∷ b3 ∷ b2 ∷ b1 ∷ b0 ∷ []) r.shift in
        let after =
          receive_byte files value (record (listening r) { shift = value; clock_high = false }) w in
        send_bits (b7 ∷ b6 ∷ b5 ∷ b4 ∷ b3 ∷ b2 ∷ b1 ∷ b0 ∷ []) (listening r, w)
        ≡ (record (after.0) { clock_high = true }, after.1)
  unfolding send_bits pulse set_pins clock_bit
  send_bits-receive_byte b7 b6 b5 b4 b3 b2 b1 b0 r w =
      ap (λ s. send_bits (b6 ∷ b5 ∷ b4 ∷ b3 ∷ b2 ∷ b1 ∷ b0 ∷ []) (edge b7 s))
        (clock_low b7 (listening r) w)

  -- A byte sent on the pins is received as that byte, whatever was in the shift register.
  pub send-receive_byte :
      (b : ℕ)
      → b < 256
      → (r : MacRtc) (w : W)
      → let after =
          receive_byte files b (record (listening r) { shift = b; clock_high = false }) w in
        send_bits (levels_of b) (listening r, w) ≡ (record (after.0) { clock_high = true }, after.1)
  send-receive_byte b small r w = rw (assemble-levels_of b r.shift small) at (
      send_bits-receive_byte (level 7 b) (level 6 b) (level 5 b) (level 4 b) (level 3 b) (level 2 b)
        (level 1 b) (level 0 b) r w)

  -- With each level as the code computes it.
  receive_bits-shown :
      (v : ℕ) (b7 b6 b5 b4 b3 b2 b1 b0 : Bool) (r : MacRtc) (w : W)
      → receive_bits (b7 ∷ b6 ∷ b5 ∷ b4 ∷ b3 ∷ b2 ∷ b1 ∷ b0 ∷ []) (sending v r, w) ≡ (
        shown 7 v
            ∷ shown 6 v
            ∷ shown 5 v
            ∷ shown 4 v
            ∷ shown 3 v
            ∷ shown 2 v
            ∷ shown 1 v
            ∷ shown 0 v
            ∷ [],
        record (listening r) { shift = v; clock_high = true; data_line = shown 0 v },
        w,
      )
  unfolding receive_bits pulse set_pins clock_bit
  receive_bits-shown v b7 b6 b5 b4 b3 b2 b1 b0 r w =
      ap
        (λ s.
          let s' = edge b7 s in
          let (line, q, w') = receive_bits (b6 ∷ b5 ∷ b4 ∷ b3 ∷ b2 ∷ b1 ∷ b0 ∷ []) s' in
          (s'.0.data_line ∷ line, q, w'))
        (clock_low b7 (sending v r) w)

  -- A byte that the chip sends comes out on the data line, the most significant bit first.
  pub receive_bits-sending :
      (v : ℕ) (b7 b6 b5 b4 b3 b2 b1 b0 : Bool) (r : MacRtc) (w : W)
      → receive_bits (b7 ∷ b6 ∷ b5 ∷ b4 ∷ b3 ∷ b2 ∷ b1 ∷ b0 ∷ []) (sending v r, w) ≡ (
        levels_of v,
        record (listening r) { shift = v; clock_high = true; data_line = level 0 v },
        w,
      )
  receive_bits-sending v b7 b6 b5 b4 b3 b2 b1 b0 r w =
      rw
        (
          shown-level 7 v,
          shown-level 6 v,
          shown-level 5 v,
          shown-level 4 v,
          shown-level 3 v,
          shown-level 2 v,
          shown-level 1 v,
          shown-level 0 v,
        )
        at (receive_bits-shown v b7 b6 b5 b4 b3 b2 b1 b0 r w)
