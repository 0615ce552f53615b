-- ===== src/Devices/Via6522/Timer.antt =====
-- About timer 1 of the VIA in its one-shot mode, over any sequence of ticks.
use cute_mac.Base.{
  ℕ, ◌+◌, ◌-◌, ◌^◌, ◌≤◌, ◌<◌, bit, bit_and, bit_or, bit_or-bit, bit_and-bit, bit_and-mask,
  bit_and-split, bit_and-zero, bit_or-fields, ◌*◌, ◌/◌, true, false, not, List, [], ◌∷◌, ltb, ◌==◌,
  if◌then◌else◌, if_both, on_true, on_false, ℤ, pos, negsuc, ◌≡◌, refl, ◌∙◌, ap, arith,
}
use cute_mac.Devices.Via6522.{Via6522, Callbacks, auxiliary, at_least_0}
use cute_mac.Devices.Via6522.Registers.{write_register, write_timer1_high, clear_timer1}
use cute_mac.Devices.Via6522.Untouched.{
  IsSame, tick_vbl-IsSame, tick_timer2-IsSame, tick_keyboard-IsSame,
}
use cute_mac.Devices.Via6522.Tick.{
  tick, tick_vbl, tick_timer1, tick_timer2, timer1_expired, drive_pb7, show_timer1, tick_rest,
}

-- Timer 1 with `n` cycles to go, in its one-shot mode and without PB7: it counts and its flag is
-- clear, or its time is over, it has stopped and its flag is set.
pub data IsTimer1 (n : ℕ) (v : Via6522) : Type 0 where
  counts :
      auxiliary 0x40 v ≡ false
      → auxiliary 0x80 v ≡ false
      → v.timer1_running ≡ true
      → v.timer1_counter ≡ n
      → 0 < n
      → bit 6 (v.registers 13) ≡ 0
      → IsTimer1 n v
  is_over :
      auxiliary 0x40 v ≡ false
      → auxiliary 0x80 v ≡ false
      → n ≡ 0
      → v.timer1_running ≡ false
      → bit 6 (v.registers 13) ≡ 1
      → IsTimer1 n v

same_mode :
    (mask : ℕ) (v v' : Via6522) → IsSame v v' → auxiliary mask v ≡ false → auxiliary mask v' ≡ false
same_mode mask v v' h mode = ap (λ r. not (bit_and r mask == 0)) h.control ∙ mode

along_same : (n : ℕ) (v v' : Via6522) → IsSame v v' → IsTimer1 n v → IsTimer1 n v'
along_same n v v' h (counts single apart runs left positive clear) =
    counts (same_mode 0x40 v v' h single) (same_mode 0x80 v v' h apart) (h.running ∙ runs)
      (h.counter ∙ left) positive (h.flag ∙ clear)
along_same n v v' h (is_over single apart none_left stopped set) =
    is_over (same_mode 0x40 v v' h single) (same_mode 0x80 v v' h apart) none_left
      (h.running ∙ stopped) (h.flag ∙ set)

flag_set : (a : ℕ) → bit 6 (bit_or a 0x40) ≡ 1
flag_set a =
    let below : bit 6 a ≤ 1 = omega arith in rw (bit_or-bit 6 a 0x40) (omega (arith, below))

flag_clear : (a : ℕ) → bit 6 (bit_and a 0xbf) ≡ 0
flag_clear a = rw (bit_and-bit 6 a 0xbf) (omega arith)

-- The latch after both of its bytes have been written.
latch_bytes :
    (a low high : ℕ)
    → low < 256
    → bit_or (high * 2 ^ 8) (bit_and (bit_or (bit_and a 0xff00) low) 0x00ff) ≡ high * 256 + low
latch_bytes a low high small =
    let kept : bit_and a 0xff00 ≡ bit_and (a / 256) 0xff * 2 ^ 8 =
      bit_and-split 8 a 0xff 0 (omega arith) ∙ omega (arith, bit_and-zero a) in
    let field = bit_or-fields 8 (bit_and (a / 256) 0xff) low small in
    let byte : bit_and (bit_or (bit_and a 0xff00) low) 0x00ff ≡ low =
      bit_and-mask 8 _ ∙ rw (kept, field) (omega arith) in
    rw byte (bit_or-fields 8 high low small)

-- The time that the two bytes stand for.
abbrev pub timer1_cycles : ℕ → ℕ → ℕ
timer1_cycles low high = if high * 256 + low == 0 then 0x10000 else high * 256 + low

positive_cycles : (low high : ℕ) → 0 < timer1_cycles low high
positive_cycles low high = ground arith

-- The cycles of a sequence of ticks.
unfoldable pub elapsed : List ℤ → ℕ
elapsed [] = 0
elapsed (cycles ∷ later) = at_least_0 cycles + elapsed later

module _ {W : Type 0} (callbacks : Callbacks W) where
  abbrev At : ℕ → Via6522 × W → Type 0
  At n (v, w) = IsTimer1 n v

  -- The end of the count: the timer stops, and its flag is set.
  timer1_expired-At :
      (n overdue : ℕ) (v : Via6522) (w : W)
      → auxiliary 0x40 v ≡ false
      → auxiliary 0x80 v ≡ false
      → n ≡ 0
      → At n (show_timer1 callbacks (timer1_expired callbacks overdue (v, w)))
  unfolding timer1_expired drive_pb7
  timer1_expired-At n overdue v w single apart none_left =
      on_false (λ s. At n (show_timer1 callbacks s)) _ _ single
        (on_false (λ s. At n (show_timer1 callbacks s)) _ _ apart
          (is_over single apart none_left refl (flag_set (v.registers 13))))

  tick_timer1-At :
      (n cycles : ℕ) (v : Via6522) (w : W)
      → IsTimer1 n v
      → At (n - cycles) (tick_timer1 callbacks cycles (v, w))
  unfolding tick_timer1
  tick_timer1-At n cycles v w (counts single apart runs left positive clear) =
      on_true (At (n - cycles)) _ _ runs (
        if_both (λ s. At (n - cycles) (show_timer1 callbacks s)) (ltb cycles v.timer1_counter) _ _
          (λ t. counts single apart runs (ap (λ k. k - cycles) left) (ground arith) clear)
          (λ t.
            timer1_expired-At (n - cycles) (cycles - v.timer1_counter) v w single apart
              (ground arith)))
  tick_timer1-At n cycles v w (is_over single apart none_left stopped set) =
      on_false (At (n - cycles)) _ _ stopped
        (is_over single apart (omega (arith, none_left)) stopped set)

  tick_rest-At : (n cycles : ℕ) (s : Via6522 × W) → At n s → At n (tick_rest callbacks cycles s)
  tick_rest-At n cycles (v, w) h =
      along_same n _ _ (tick_keyboard-IsSame cycles (tick_timer2 cycles v))
        (along_same n v _ (tick_timer2-IsSame cycles v) h)

  tick-At :
      (n : ℕ) (cycles : ℤ) (v : Via6522) (w : W)
      → IsTimer1 n v
      → At (n - at_least_0 cycles) (tick callbacks cycles (v, w))
  unfolding tick
  tick-At n (negsuc k) v w h = let none : n - 0 ≡ n = omega arith in rw none h
  tick-At n (pos cycles) v w h =
      if_both (At (n - cycles)) (cycles == 0) _ _
        (λ t. let none : n - cycles ≡ n = ground arith in rw none h)
        (λ t.
          tick_rest-At (n - cycles) cycles (tick_timer1 callbacks cycles (tick_vbl cycles v, w))
            (tick_timer1-At n cycles _ w (along_same n v _ (tick_vbl-IsSame cycles v) h)))

  unfoldable pub tick_all : List ℤ → Via6522 × W → Via6522 × W
  tick_all [] s = s
  tick_all (cycles ∷ later) s = tick_all later (tick callbacks cycles s)

  tick_all-At :
      (n : ℕ) (ticks : List ℤ) (s : Via6522 × W)
      → At n s
      → At (n - elapsed ticks) (tick_all ticks s)
  unfolding tick_all elapsed
  tick_all-At n [] s h = let none : n - 0 ≡ n = omega arith in rw none h
  tick_all-At n (cycles ∷ later) (v, w) h =
      let split : n - (at_least_0 cycles + elapsed later) ≡ n - at_least_0 cycles - elapsed later =
        omega arith in
      rw split (tick_all-At (n - at_least_0 cycles) later _ (tick-At n cycles v w h))

  write_timer1_high-At :
      (low high : ℕ) (v : Via6522) (w : W)
      → low < 256
      → auxiliary 0x40 v ≡ false
      → auxiliary 0x80 v ≡ false
      → At
          (timer1_cycles low high)
          (write_register callbacks 5 high (write_register callbacks 4 low (v, w)))
  unfolding write_register write_timer1_high
  write_timer1_high-At low high v w small single apart =
      on_false (λ s. At (timer1_cycles low high) (clear_timer1 callbacks s)) _ _ apart
        (counts single apart refl (rw (latch_bytes v.timer1_latch low high small) refl)
          (positive_cycles low high) (flag_clear (v.registers 13)))

  -- Timer 1 in its one-shot mode and without PB7, started by the writes of any two bytes to its
  -- counter: after any sequence of ticks it still counts, with the rest of the cycles to go and its
  -- interrupt flag clear, as long as fewer cycles have passed than the two bytes say (65536 where
  -- they are 0), and from then on it has stopped and its flag is set.
  pub tick_all-write_register :
      (low high : ℕ) (ticks : List ℤ) (v : Via6522) (w : W)
      → low < 256
      → auxiliary 0x40 v ≡ false
      → auxiliary 0x80 v ≡ false
      → IsTimer1
          (timer1_cycles low high - elapsed ticks)
          (tick_all ticks
            (write_register callbacks 5 high (write_register callbacks 4 low (v, w)))).0
  tick_all-write_register low high ticks v w small single apart =
      tick_all-At (timer1_cycles low high) ticks _
        (write_timer1_high-At low high v w small single apart)
