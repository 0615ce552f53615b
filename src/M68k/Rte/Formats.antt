-- ===== src/M68k/Rte/Formats.antt =====
-- RTE on a frame that ends the return: what it restores and how much of the stack it uses. The
-- throwaway frames that may lie before it are in Throwaway.
use cute_mac.Base.{
  ◌*◌, bit, Bool, ◌≤◌, ap, ℕ, suc, true, false, ◌+◌, ◌<◌, ◌==◌, bit_and, bit_or, ◌≡◌, refl, ◌∙◌,
  arith,
}
use cute_mac.M68k.Flags.{word, long}
use cute_mac.M68k.Cpu.{update, Cpu, Host, M, ok, ◌>>=◌, is_000, is_010, then_lem}
use cute_mac.M68k.Memory.Ram.{IsRam}
use cute_mac.M68k.Status.{get_sr, set_sr_noint, sp_index, set_sm_flag}
use cute_mac.M68k.Status.Laws.{mode, status_bits, get_sr-set_sr_noint}
use cute_mac.M68k.Rte.{rte, frame_format, return_by, rte_010, rte_loop, rte_format}
use cute_mac.M68k.Rte.Passes.{Passes, fake_pull-Passes, skip-Passes, then-Passes, skip_1000-Passes}
use cute_mac.M68k.Rte.Returns.{
  popped, IsFrame, stacked_sr, stacked_pc, stacked_format, returned, return_by_lem, rte_000_lem,
  frame_format_lem,
}

-- The frames of each processor that end a return, by format: how many bytes follow the status
-- register and the program counter. Format 1, the throwaway frame, does not end it. The 68000 has one frame, without a format word.
pub data FrameLayout (t : ℕ) : ℕ → ℕ → Type 0 where
  short : {f : ℕ} → is_000 t ≡ true → FrameLayout t f 0
  normal_010 : is_000 t ≡ false → is_010 t ≡ true → FrameLayout t 0 2
  fault_010 : is_000 t ≡ false → is_010 t ≡ true → FrameLayout t 8 52
  normal : is_000 t ≡ false → is_010 t ≡ false → FrameLayout t 0 2
  six_word : is_000 t ≡ false → is_010 t ≡ false → FrameLayout t 2 6
  access_error : is_000 t ≡ false → is_010 t ≡ false → FrameLayout t 7 54
  short_fault : is_000 t ≡ false → is_010 t ≡ false → FrameLayout t 10 26
  long_fault : is_000 t ≡ false → is_010 t ≡ false → FrameLayout t 11 86

-- After a return: execution goes on at the stacked program counter, with the stacked status
-- register in its implemented bits; the frame is off the stack that it was on, the stack of the
-- new mode is selected, and nothing else of the registers and the memory has changed.
pub record IsReturn {S : Type 0} (store : S → ℕ → ℕ) (n : ℕ) (d c : Cpu S) : Type 0 where
  pub pc_restored : c.pc ≡ stacked_pc store d
  pub sr_restored : get_sr c ≡ bit_and (bit_and (stacked_sr store d) c.sr_mask) status_bits
  pub frame_used : c.sp ≡ update d.sp (sp_index d.s_flag d.m_flag) (d.dar 15 + 6 + n)
  pub mode_restored :
      (c.s_flag ≡ bit 13 (bit_and (stacked_sr store d) c.sr_mask) * 4)
      × (c.m_flag ≡ bit 12 (bit_and (stacked_sr store d) c.sr_mask) * 2)
  pub stack_selected : c.dar 15 ≡ c.sp (sp_index c.s_flag c.m_flag)
  pub registers_kept : (i : ℕ) → i < 15 → c.dar i ≡ d.dar i
  pub mask_kept : c.sr_mask ≡ d.sr_mask
  pub memory_kept : c.bus ≡ d.bus

module _ {S : Type 0} ⦃host : Host S⦄ (store : S → ℕ → ℕ) (ram : IsRam host store) where
  -- The format is read first, and chooses what is passed over.
  after_format :
      (f n limit : ℕ) (d : Cpu S) (k : ℕ → M S Bool) (pass : M S (Unit {0}))
      → stacked_format store d ≡ f
      → IsFrame store n limit d
      → 2 ≤ n
      → Passes n pass
      → ((c : Cpu S) → k f c ≡ return_by pass c)
      → (frame_format >>= k) d ≡ ok true (returned store ram n d)
  after_format f n limit d k pass e frame more passes chosen =
      then_lem _ (frame_format_lem store ram n limit d frame more)
      ∙ ap (λ g. k g (record d { function_code = bit_or d.s_flag d.address_space })) e
      ∙ chosen _
      ∙ return_by_lem store ram pass n limit
          (record d { function_code = bit_or d.s_flag d.address_space }) passes
          (record {
            flat = frame.flat;
            top = frame.top;
            room = frame.room;
            even = frame.even;
            quiet = record { no_nmi = frame.quiet.no_nmi; masked = frame.quiet.masked };
          })

  -- The loop of the 68020 and later.
  pub rte_loop-returned :
      (f n limit fuel : ℕ) (d : Cpu S)
      → is_000 d.cpu_type ≡ false
      → is_010 d.cpu_type ≡ false
      → FrameLayout d.cpu_type f n
      → stacked_format store d ≡ f
      → IsFrame store n limit d
      → rte_loop (suc fuel) d ≡ ok true (returned store ram n d)
  unfolding rte_loop rte_format
  rte_loop-returned f n limit fuel d t u (short t') e frame = cc
  rte_loop-returned f n limit fuel d t u (normal_010 t' u') e frame = cc
  rte_loop-returned f n limit fuel d t u (fault_010 t' u') e frame = cc
  rte_loop-returned f n limit fuel d t u (normal t' u') e frame =
      after_format 0 2 limit d _ _ e frame (omega arith) (fake_pull-Passes word) (λ c. refl)
  rte_loop-returned f n limit fuel d t u (six_word t' u') e frame =
      after_format 2 6 limit d _ _ e frame (omega arith)
        (then-Passes 2 4 _ _ (fake_pull-Passes word) (fake_pull-Passes long)) (λ c. refl)
  rte_loop-returned f n limit fuel d t u (access_error t' u') e frame =
      after_format 7 54 limit d _ _ e frame (omega arith)
        (then-Passes 2 52 _ _ (fake_pull-Passes word) (skip-Passes 52)) (λ c. refl)
  rte_loop-returned f n limit fuel d t u (short_fault t' u') e frame =
      after_format 10 26 limit d _ _ e frame (omega arith)
        (then-Passes 2 24 _ _ (fake_pull-Passes word) (skip-Passes 24)) (λ c. refl)
  rte_loop-returned f n limit fuel d t u (long_fault t' u') e frame =
      after_format 11 86 limit d _ _ e frame (omega arith)
        (then-Passes 2 84 _ _ (fake_pull-Passes word) (skip-Passes 84)) (λ c. refl)

  -- In supervisor mode RTE of the 68020 and later is its loop.
  pub rte-loop :
      (fuel : ℕ) (d : Cpu S)
      → (d.s_flag == 0) ≡ false
      → is_000 d.cpu_type ≡ false
      → is_010 d.cpu_type ≡ false
      → rte fuel d ≡ rte_loop fuel d
  unfolding rte
  rte-loop fuel d super t u = rw (super, t, u) refl

  rte-returned :
      (f n limit fuel : ℕ) (d : Cpu S)
      → FrameLayout d.cpu_type f n
      → stacked_format store d ≡ f
      → (d.s_flag == 0) ≡ false
      → IsFrame store n limit d
      → rte (suc fuel) d ≡ ok true (returned store ram n d)
  unfolding rte rte_010
  rte-returned f n limit fuel d (short t) e super frame =
      rw (super, t) (rte_000_lem store ram limit d frame)
  rte-returned f n limit fuel d (normal_010 t u) e super frame =
      rw (super, t, u)
        (after_format 0 2 limit d _ _ e frame (omega arith) (fake_pull-Passes word) (λ c. refl))
  rte-returned f n limit fuel d (fault_010 t u) e super frame =
      rw (super, t, u)
        (after_format 8 52 limit d _ _ e frame (omega arith)
          (then-Passes 2 50 _ _ (fake_pull-Passes word) skip_1000-Passes) (λ c. refl))
  rte-returned f n limit fuel d (normal t u) e super frame =
      rte-loop (suc fuel) d super t u ∙ rte_loop-returned f n limit fuel d t u (normal t u) e frame
  rte-returned f n limit fuel d (six_word t u) e super frame =
      rte-loop (suc fuel) d super t u
      ∙ rte_loop-returned f n limit fuel d t u (six_word t u) e frame
  rte-returned f n limit fuel d (access_error t u) e super frame =
      rte-loop (suc fuel) d super t u
      ∙ rte_loop-returned f n limit fuel d t u (access_error t u) e frame
  rte-returned f n limit fuel d (short_fault t u) e super frame =
      rte-loop (suc fuel) d super t u
      ∙ rte_loop-returned f n limit fuel d t u (short_fault t u) e frame
  rte-returned f n limit fuel d (long_fault t u) e super frame =
      rte-loop (suc fuel) d super t u
      ∙ rte_loop-returned f n limit fuel d t u (long_fault t u) e frame

  returned_below : (n i : ℕ) (d : Cpu S) → i < 15 → (returned store ram n d).dar i ≡ d.dar i
  unfolding set_sr_noint set_sm_flag
  returned_below n i d below = ground arith

  pub returned-IsReturn : (n : ℕ) (d : Cpu S) → IsReturn store n d (returned store ram n d)
  unfolding set_sr_noint set_sm_flag get_sr
  returned-IsReturn n d = record {
    pc_restored = refl;
    sr_restored = get_sr-set_sr_noint (stacked_sr store d) (popped store ram n d);
    frame_used =
        ap (λ v. update d.sp (sp_index d.s_flag d.m_flag) v) {x = d.dar 15 + 2 + 4 + n}
          {y = d.dar 15 + 6 + n} (omega arith);
    mode_restored = mode (bit_and (stacked_sr store d) d.sr_mask);
    stack_selected = refl;
    registers_kept = λ i below. returned_below n i d below;
    mask_kept = refl;
    memory_kept = refl;
  }

  -- On a plain memory with the MMU off, RTE in supervisor mode on a frame of any format but the
  -- throwaway one that the processor knows, with an even stack pointer, the frame below `limit`
  -- and no interrupt that the stacked status register lets through, ends with any fuel above 0:
  -- execution goes on at the stacked program counter with the stacked status register, and the
  -- frame of that format is off the stack that it was on.
  pub rte-IsReturn :
      (f n limit fuel : ℕ) (d : Cpu S)
      → FrameLayout d.cpu_type f n
      → stacked_format store d ≡ f
      → (d.s_flag == 0) ≡ false
      → IsFrame store n limit d
      → ((c : Cpu S) × (rte (suc fuel) d ≡ ok true c) × IsReturn store n d c)
  rte-IsReturn f n limit fuel d layout e super frame = (
    returned store ram n d,
    rte-returned f n limit fuel d layout e super frame,
    returned-IsReturn n d,
  )
