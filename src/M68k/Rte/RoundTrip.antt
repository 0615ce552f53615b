-- ===== src/M68k/Rte/RoundTrip.antt =====
-- About RTE after an exception.
use cute_mac.Base.{
  ℕ, suc, true, false, ◌+◌, ◌/◌, ◌%◌, ◌^◌, ◌≤◌, ◌<◌, inl, inr, Bool-cases, ◌≡◌, refl, ap, ◌∙◌,
  arith, bit_and, if◌then◌else◌, ◌==◌,
}
use cute_mac.M68k.Cpu.{Cpu, Host, ok, ◌>>◌, is_000, is_010, update, then_lem}
use cute_mac.M68k.Memory.Ram.{IsRam}
use cute_mac.M68k.Status.{get_sr, sp_index, set_s_flag, sflag_set}
use cute_mac.M68k.Status.Laws.{interrupt_bits}
use cute_mac.M68k.Status.Fields.{IsStatus, get_sr-fields, get_sr-status_bits}
use cute_mac.M68k.Exception.{exception_0000}
use cute_mac.M68k.Exception.Entry.{IsStackable, opened}
use cute_mac.M68k.Exception.Stacked.{IsStacked}
use cute_mac.M68k.Exception.Enter.{exception_0000-IsEntry}
use cute_mac.M68k.Rte.{rte}
use cute_mac.M68k.Rte.Returns.{IsFrame, stacked_sr, stacked_format}
use cute_mac.M68k.Rte.Formats.{FrameLayout, short, normal, normal_010, IsReturn, rte-IsReturn}

-- The status register is well formed and admitted by the processor.
pub record IsRestorable {S : Type 0} (c : Cpu S) : Type 0 where
  pub status : IsStatus c
  pub admitted : bit_and (get_sr c) c.sr_mask ≡ get_sr c

-- A program that a return after an exception brings back: no interrupt is pending that its mask
-- lets through.
pub record IsResumable {S : Type 0} (c : Cpu S) : Type 0 where
  pub restorable : IsRestorable c
  pub no_nmi : c.nmi_pending ≡ false
  pub masked : c.int_level ≤ c.int_mask

-- `e` goes on where `c` was, at `pc`, with its status register and all its registers.
pub record IsResumed {S : Type 0} (pc : ℕ) (c e : Cpu S) : Type 0 where
  pub pc_back : e.pc ≡ pc % 2 ^ 32
  pub sr_back : get_sr e ≡ get_sr c
  pub registers_back : (i : ℕ) → i < 16 → e.dar i ≡ c.dar i

abbrev pub frame_size : ℕ → ℕ
frame_size t = if is_000 t then 6 else 8

abbrev frame_rest : ℕ → ℕ
frame_rest t = if is_000 t then 0 else 2

size_rest : (t : ℕ) → frame_size t ≡ frame_rest t + 6
size_rest t = ground arith

every_register :
    (e d c : ℕ → ℕ)
    → ((i : ℕ) → i < 15 → e i ≡ d i)
    → ((i : ℕ) → i < 15 → d i ≡ c i)
    → e 15 ≡ c 15
    → (i : ℕ) → i < 16
    → e i ≡ c i
every_register e d c later earlier stack i below = elim (Bool-cases (i == 15)) [
  | inl t ↦ let top : i ≡ 15 = ground arith in rw top stack
  | inr t ↦ later i (ground arith) ∙ earlier i (ground arith)
]

module _ {S : Type 0} (store : S → ℕ → ℕ) where
  -- The frame that an exception leaves is one that RTE can use.
  entry-IsFrame :
      (pc vector limit : ℕ) (c d : Cpu S)
      → IsStackable limit vector c
      → IsRestorable c
      → (opened c).dar 15 < limit
      → d.nmi_pending ≡ false
      → d.int_level ≤ c.int_mask
      → IsStacked store limit pc vector (frame_size c.cpu_type) c d
      → IsFrame store (frame_rest c.cpu_type) limit d
  entry-IsFrame pc vector limit c d ready fit below nmi level entry =
      let (cpu, m, mask, flat) = entry.control_kept in
      let (small, s_bits, m_bits, i_bits) = get_sr-fields c fit.status in
      let sr : stacked_sr store d ≡ get_sr c = entry.sr_stacked ∙ omega arith in
      let size = size_rest c.cpu_type in
      record {
        flat = flat;
        top = ready.top;
        room = omega (arith, entry.stack_used);
        even = ground (arith, entry.stack_used, ready.even);
        quiet = record {
          no_nmi = nmi;
          masked =
              rw (sr, mask, fit.admitted, interrupt_bits (get_sr c)) (omega (arith, level, i_bits));
        };
      }

  entry_layout :
      (pc vector limit : ℕ) (c d : Cpu S)
      → vector < 256
      → IsStacked store limit pc vector (frame_size c.cpu_type) c d
      → (f : ℕ) × FrameLayout d.cpu_type f (frame_rest c.cpu_type) × (stacked_format store d ≡ f)
  entry_layout pc vector limit c d small entry =
      let (cpu, m, mask, flat) = entry.control_kept in
      elim (Bool-cases (is_000 c.cpu_type)) [
        | inl t ↦ rw (cpu, t) (stacked_format store d, short t, refl)
        | inr t ↦
            let zero : stacked_format store d ≡ 0 =
              ap (λ w. w / 2 ^ 12) (entry.format_stacked (rw t refl)) ∙ omega arith in
            elim (Bool-cases (is_010 c.cpu_type)) [
              | inl u ↦ rw (cpu, t) (0, normal_010 t u, zero)
              | inr u ↦ rw (cpu, t) (0, normal t u, zero)
            ]
      ]

  -- The stack pointer that the mode of the interrupted program selects.
  stack_back :
      (c : Cpu S)
      → IsStatus c
      → update
          (update c.sp (sp_index c.s_flag c.m_flag) (c.dar 15))
          (sp_index sflag_set c.m_flag)
          ((opened c).dar 15)
          (sp_index c.s_flag c.m_flag)
        ≡ c.dar 15
  unfolding set_s_flag
  stack_back c st = elim st.s [
    | inl s ↦ elim st.m [ inl m ↦ rw (s, m) refl | inr m ↦ rw (s, m) refl ]
    | inr s ↦ elim st.m [ inl m ↦ rw (s, m) refl | inr m ↦ rw (s, m) refl ]
  ]

  resumed :
      (pc vector limit : ℕ) (c d e : Cpu S)
      → IsStackable limit vector c
      → IsRestorable c
      → IsStacked store limit pc vector (frame_size c.cpu_type) c d
      → IsReturn store (frame_rest c.cpu_type) d e
      → IsResumed pc c e
  resumed pc vector limit c d e ready fit entry return =
      let (cpu, m, mask, flat) = entry.control_kept in
      let (small, s_bits, m_bits, i_bits) = get_sr-fields c fit.status in
      let sr : stacked_sr store d ≡ get_sr c = entry.sr_stacked ∙ omega arith in
      let masked_sr : bit_and (stacked_sr store d) e.sr_mask ≡ get_sr c =
        rw (return.mask_kept, sr, mask) fit.admitted in
      let s_back : e.s_flag ≡ c.s_flag = return.mode_restored.0 ∙ rw masked_sr s_bits in
      let m_back : e.m_flag ≡ c.m_flag = return.mode_restored.1 ∙ rw masked_sr m_bits in
      let total : d.dar 15 + 6 + frame_rest c.cpu_type ≡ (opened c).dar 15 =
        omega (arith, entry.stack_used, size_rest c.cpu_type) in
      let stack : e.dar 15 ≡ c.dar 15 =
        return.stack_selected
        ∙ rw (s_back, m_back, return.frame_used, entry.bank_kept, entry.supervisor, m)
            (rw total (stack_back c fit.status)) in
      record {
        pc_back = return.pc_restored ∙ entry.pc_stacked;
        sr_back = return.sr_restored ∙ rw masked_sr (get_sr-status_bits c fit.status);
        registers_back = λ i below.
            every_register e.dar d.dar c.dar return.registers_kept entry.registers_kept stack i
              below;
      }

module _ {S : Type 0} ⦃host : Host S⦄ (store : S → ℕ → ℕ) (ram : IsRam host store) where
  -- RTE with a frame of format 0 on the stack.
  pub return_from :
      (pc vector limit fuel : ℕ) (c d : Cpu S)
      → vector < 256
      → IsStackable limit vector c
      → (opened c).dar 15 < limit
      → IsRestorable c
      → d.nmi_pending ≡ false
      → d.int_level ≤ c.int_mask
      → IsStacked store limit pc vector (frame_size c.cpu_type) c d
      → (e : Cpu S) × (rte (suc fuel) d ≡ ok true e) × IsResumed pc c e
  return_from pc vector limit fuel c d small ready below fit nmi level entry =
      let (f, layout, format) = entry_layout store pc vector limit c d small entry in
      let frame = entry-IsFrame store pc vector limit c d ready fit below nmi level entry in
      let (e, returned, return) =
        rte-IsReturn store ram f (frame_rest c.cpu_type) limit fuel d layout format
          (rw (entry.supervisor) refl) frame in
      (e, returned, resumed store pc vector limit c d e ready fit entry return)

  -- On a plain memory with the MMU off, an even supervisor stack below `limit` with room for eight
  -- bytes and an even vector address: after an exception with the frame of format 0 and RTE, the
  -- interrupted program goes on, with its status register and its sixteen registers, where its
  -- status register is well formed and no interrupt is pending that it lets through.
  pub rte-exception_0000 :
      (at_pc : Cpu S → ℕ) (vector limit fuel : ℕ) (c : Cpu S)
      → vector < 256
      → IsStackable limit vector c
      → (opened c).dar 15 < limit
      → IsResumable c
      → (e : Cpu S) × ((exception_0000 at_pc vector >> rte (suc fuel)) c ≡ ok true e)
        × IsResumed (at_pc (opened c)) c e
  rte-exception_0000 at_pc vector limit fuel c small ready below fit =
      let (d, entered, entry) = exception_0000-IsEntry store ram at_pc vector limit c ready in
      let stacked = entry.stacked in
      let (e, returned, back) =
        return_from (at_pc (opened c)) vector limit fuel c d small ready below fit.restorable
          (entry.nmi_kept ∙ fit.no_nmi) (omega (arith, entry.level_kept, fit.masked)) stacked in
      (e, then_lem _ entered ∙ returned, back)
