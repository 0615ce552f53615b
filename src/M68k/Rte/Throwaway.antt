-- ===== src/M68k/Rte/Throwaway.antt =====
-- RTE on throwaway frames, of which it takes the status register only, and the frame behind them.
use cute_mac.Base.{
  ℕ, zero, suc, ◌+◌, ◌*◌, ◌%◌, ◌^◌, ◌≤◌, ◌<◌, bit, bit_and, bit_or, true, false, ◌==◌, ◌≡◌, refl,
  ap, ◌∙◌, arith,
}
use cute_mac.M68k.Flags.{word, long}
use cute_mac.M68k.Cpu.{update, Cpu, Host, M, ◌>>=◌, modify, ok, is_000, is_010, then_lem}
use cute_mac.M68k.Memory.{fake_pull}
use cute_mac.M68k.Memory.Ram.{IsRam, IsFlat, pulled, pull_lem, read_lem, u32-small}
use cute_mac.M68k.Status.{get_sr, set_sr_noint, sp_index, set_sm_flag}
use cute_mac.M68k.Status.Laws.{mode, status_bits, get_sr-set_sr_noint}
use cute_mac.M68k.Rte.{rte, rte_loop, frame_format, throw_away}
use cute_mac.M68k.Rte.Passes.{fake_pull-Passes}
use cute_mac.M68k.Rte.Returns.{IsFrame, stacked_sr, stacked_format, returned}
use cute_mac.M68k.Rte.Formats.{
  FrameLayout, IsReturn, returned-IsReturn, rte-IsReturn, rte_loop-returned, rte-loop,
}

-- A throwaway frame of 8 bytes below `limit`, on a 68020 or later.
pub record IsThrowaway {S : Type 0} (store : S → ℕ → ℕ) (limit : ℕ) (d : Cpu S) : Type 0 where
  pub not_000 : is_000 d.cpu_type ≡ false
  pub not_010 : is_010 d.cpu_type ≡ false
  pub format : stacked_format store d ≡ 1
  pub flat : IsFlat limit d
  pub top : limit ≤ 2 ^ 32
  pub room : d.dar 15 + 8 < limit
  pub even : d.dar 15 % 2 ≡ 0

-- The frame is off the stack that it was on, the stacked status register is in its implemented
-- bits, the stack of the new mode is selected, and nothing else has changed.
pub record IsThrown {S : Type 0} (store : S → ℕ → ℕ) (d e : Cpu S) : Type 0 where
  pub pc_kept : e.pc ≡ d.pc
  pub sr_restored : get_sr e ≡ bit_and (bit_and (stacked_sr store d) d.sr_mask) status_bits
  pub frame_used : e.sp ≡ update d.sp (sp_index d.s_flag d.m_flag) (d.dar 15 + 8)
  pub mode_restored :
      (e.s_flag ≡ bit 13 (bit_and (stacked_sr store d) d.sr_mask) * 4)
      × (e.m_flag ≡ bit 12 (bit_and (stacked_sr store d) d.sr_mask) * 2)
  pub stack_selected : e.dar 15 ≡ e.sp (sp_index e.s_flag e.m_flag)
  pub registers_kept : (i : ℕ) → i < 15 → e.dar i ≡ d.dar i
  pub mask_kept : e.sr_mask ≡ d.sr_mask
  pub memory_kept : e.bus ≡ d.bus

-- The state behind a throwaway frame, before and after its status register is set.
abbrev passed : {S : Type 0} → Cpu S → Cpu S
passed d = record d {
  dar =
      update (update (update d.dar 15 (d.dar 15 + 2)) 15 (d.dar 15 + 2 + 4)) 15
        (d.dar 15 + 2 + 4 + 2);
  function_code = bit_or d.s_flag d.address_space;
}

abbrev pub thrown : {S : Type 0} → (S → ℕ → ℕ) → Cpu S → Cpu S
thrown store d = set_sr_noint (stacked_sr store d) (passed d)

-- Some throwaway frames, each on the stack that the one before it selects, and a frame behind them
-- that ends the return and has `n` bytes after its program counter.
pub data Frames {S : Type 0} (store : S → ℕ → ℕ) (n limit : ℕ) : ℕ → Cpu S → Type 0 where
  ends :
      {f : ℕ} {d : Cpu S}
      → FrameLayout d.cpu_type f n
      → stacked_format store d ≡ f
      → IsFrame store n limit d
      → Frames store n limit 0 d
  behind :
      {k : ℕ} {d : Cpu S}
      → IsThrowaway store limit d
      → Frames store n limit k (thrown store d)
      → Frames store n limit (suc k) d

-- `c` is `d` after the throwaway frames, one after another, and the return by the last frame.
pub data IsReturnedBy {S : Type 0} (store : S → ℕ → ℕ) (n : ℕ) (c : Cpu S)
    : ℕ → Cpu S → Type 0 where
  at_once : {d : Cpu S} → IsReturn store n d c → IsReturnedBy store n c 0 d
  past :
      {k : ℕ} {d e : Cpu S}
      → IsThrown store d e
      → IsReturnedBy store n c k e
      → IsReturnedBy store n c (suc k) d

same_type :
    {S : Type 0} (store : S → ℕ → ℕ) (d : Cpu S)
    → is_000 d.cpu_type ≡ false
    → is_000 (thrown store d).cpu_type ≡ false
unfolding set_sr_noint set_sm_flag
same_type store d t = t

same_type_010 :
    {S : Type 0} (store : S → ℕ → ℕ) (d : Cpu S)
    → is_010 d.cpu_type ≡ false
    → is_010 (thrown store d).cpu_type ≡ false
unfolding set_sr_noint set_sm_flag
same_type_010 store d t = t

thrown_below :
    {S : Type 0} (store : S → ℕ → ℕ) (i : ℕ) (d : Cpu S) → i < 15 → (thrown store d).dar i ≡ d.dar i
unfolding set_sr_noint set_sm_flag
thrown_below store i d below = ground arith

thrown-IsThrown : {S : Type 0} (store : S → ℕ → ℕ) (d : Cpu S) → IsThrown store d (thrown store d)
unfolding set_sr_noint set_sm_flag
thrown-IsThrown store d = record {
  pc_kept = refl;
  sr_restored = get_sr-set_sr_noint (stacked_sr store d) (passed d);
  frame_used =
      ap (λ v. update d.sp (sp_index d.s_flag d.m_flag) v) {x = d.dar 15 + 2 + 4 + 2}
        {y = d.dar 15 + 8} (omega arith);
  mode_restored = mode (bit_and (stacked_sr store d) d.sr_mask);
  stack_selected = refl;
  registers_kept = λ i below. thrown_below store i d below;
  mask_kept = refl;
  memory_kept = refl;
}

module _ {S : Type 0} ⦃host : Host S⦄ (store : S → ℕ → ℕ) (ram : IsRam host store) where
  -- The state after the format has been looked at.
  abbrev looked : Cpu S → Cpu S
  looked d = record d { function_code = bit_or d.s_flag d.address_space }

  throwaway_format :
      (limit : ℕ) (d : Cpu S)
      → IsThrowaway store limit d
      → frame_format d ≡ ok (stacked_format store d) (looked d)
  unfolding frame_format
  throwaway_format limit d frame =
      rw (u32-small (d.dar 15 + 6) (omega (arith, frame.room, frame.top))) (
        then_lem _ (
          read_lem store ram word limit (d.dar 15 + 6) d frame.flat (omega (arith, frame.room))
            (omega (arith, frame.even))))

  throw_away-thrown :
      (limit : ℕ) (d : Cpu S)
      → IsThrowaway store limit d
      → throw_away (looked d) ≡ ok tt (thrown store d)
  unfolding throw_away
  throw_away-thrown limit d frame =
      let d1 = pulled store ram word d in
      let d2 = record d1 { dar = update d1.dar 15 (d1.dar 15 + 4) } in
      let set_status : Unit {0} → M S (Unit {0}) =
        λ _. modify λ c. set_sr_noint (stacked_sr store d) c in
      let word_then : Unit {0} → M S (Unit {0}) = λ _. fake_pull word >>= set_status in
      then_lem _ (
        pull_lem store ram word limit (looked d) frame.flat frame.top (omega (arith, frame.room))
          frame.even)
      ∙ then_lem word_then (fake_pull-Passes long d1 (omega (arith, frame.room, frame.top)))
      ∙ then_lem set_status (fake_pull-Passes word d2 (omega (arith, frame.room, frame.top)))

  loop-past :
      (limit fuel : ℕ) (d : Cpu S)
      → IsThrowaway store limit d
      → rte_loop (suc fuel) d ≡ rte_loop fuel (thrown store d)
  unfolding rte_loop
  loop-past limit fuel d frame =
      then_lem _ (throwaway_format limit d frame)
      ∙ rw frame.format (then_lem _ (throw_away-thrown limit d frame))

  loop-Returned :
      (k n limit fuel : ℕ) (d : Cpu S)
      → is_000 d.cpu_type ≡ false
      → is_010 d.cpu_type ≡ false
      → Frames store n limit k d
      → k < fuel
      → (c : Cpu S) × (rte_loop fuel d ≡ ok true c) × IsReturnedBy store n c k d
  loop-Returned k n limit zero d t u frames less = absurd (omega (arith, less))
  loop-Returned zero n limit (suc fuel) d t u (ends {f} layout e frame) less = (
    returned store ram n d,
    rte_loop-returned store ram f n limit fuel d t u layout e frame,
    at_once (returned-IsReturn store ram n d),
  )
  loop-Returned (suc k) n limit (suc fuel) d t u (behind frame frames) less =
      let (c, runs, h) =
        loop-Returned k n limit fuel (thrown store d) (same_type store d t)
          (same_type_010 store d u) frames (omega (arith, less)) in
      (c, loop-past limit fuel d frame ∙ runs, past (thrown-IsThrown store d) h)

  -- On a plain memory with the MMU off, RTE in supervisor mode on any number of throwaway frames of
  -- a 68020 or later, each on the stack that the one before it selects, and then a frame of any
  -- other format that the processor knows, on even stack pointers, with the frames below `limit`
  -- and no interrupt that the last status register lets through, ends with any fuel above the
  -- number of throwaway frames. Each of these takes its frame off its stack and sets the status
  -- register, which selects the next stack; then execution goes on at the program counter of the
  -- last frame with its status register, and that frame is off the stack that it was on.
  pub rte-IsReturnedBy :
      (k n limit fuel : ℕ) (d : Cpu S)
      → Frames store n limit k d
      → (d.s_flag == 0) ≡ false
      → k < fuel
      → (c : Cpu S) × (rte fuel d ≡ ok true c) × IsReturnedBy store n c k d
  rte-IsReturnedBy k n limit zero d frames super less = absurd (omega (arith, less))
  rte-IsReturnedBy zero n limit (suc fuel) d (ends {f} layout e frame) super less =
      let (c, runs, h) = rte-IsReturn store ram f n limit fuel d layout e super frame in
      (c, runs, at_once h)
  rte-IsReturnedBy (suc k) n limit (suc fuel) d (behind frame frames) super less =
      let (c, runs, h) =
        loop-Returned (suc k) n limit (suc fuel) d frame.not_000 frame.not_010 (behind frame frames)
          less in
      (c, rte-loop store ram (suc fuel) d super frame.not_000 frame.not_010 ∙ runs, h)
