-- ===== src/M68k/Exception/Stacked.antt =====
-- What the frame of an exception holds, on a memory of bytes.
use cute_mac.Base.{ℕ, Bool, inr, ap, ◌⊎◌, ◌+◌, ◌-◌, ◌%◌, ◌^◌, ◌≤◌, ◌<◌, shl32, ◌≡◌, ◌∙◌, arith}
use cute_mac.M68k.Flags.{Size, word, long, mask_out_above}
use cute_mac.M68k.Cpu.{Cpu, Host, update}
use cute_mac.M68k.Memory.{bytes}
use cute_mac.M68k.Memory.Layout.{peek, poke, peek-poke, peek-poke_apart, poke_outside}
use cute_mac.M68k.Memory.Ram.{IsFlat, IsFlatAt, IsRam, pushed}
use cute_mac.M68k.Status.{sp_index, get_sr, sflag_set}
use cute_mac.M68k.Exception.Entry.{opened, vector_entry, framed, framed_000}

-- `d` is `c` with an exception's frame on the supervisor stack: it is in supervisor mode and not
-- tracing, with `size` bytes more on that stack, which start with the status register and the
-- program counter, and on the processors whose frame has eight bytes, the format word 0 with the
-- vector's offset; no other memory and no other register has changed.
pub record IsStackedAt {S : Type 0} (store : S → ℕ → ℕ) (limit pc vector size : ℕ) (c : Cpu S)
    (s_flag trace : ℕ) (dar sp : ℕ → ℕ) (bus : S) (cpu_type m_flag sr_mask address_mask : ℕ)
    (has_pmmu : Bool) : Type 0 where
  pub supervisor : s_flag ≡ sflag_set
  pub trace_off : trace ≡ 0
  pub stack_used : dar 15 + size ≡ (opened c).dar 15
  pub sr_stacked : peek word (store bus) (dar 15) ≡ get_sr c % 2 ^ 16
  pub pc_stacked : peek long (store bus) (dar 15 + 2) ≡ pc % 2 ^ 32
  pub format_stacked : size ≡ 8 → peek word (store bus) (dar 15 + 6) ≡ shl32 vector 2 % 2 ^ 16
  pub bank_kept : sp ≡ update c.sp (sp_index c.s_flag c.m_flag) (c.dar 15)
  pub control_kept :
      (cpu_type ≡ c.cpu_type)
      × (m_flag ≡ c.m_flag)
      × (sr_mask ≡ c.sr_mask)
      × IsFlatAt limit has_pmmu address_mask
  pub registers_kept : (i : ℕ) → i < 15 → dar i ≡ c.dar i
  pub memory_kept : (a : ℕ) → (a < dar 15) ⊎ (dar 15 + size ≤ a) → store bus a ≡ store c.bus a

abbrev pub IsStacked : {S : Type 0} → (S → ℕ → ℕ) → ℕ → ℕ → ℕ → ℕ → Cpu S → Cpu S → Type 0
IsStacked store limit pc vector size c d =
    IsStackedAt store limit pc vector size c d.s_flag (d.t1_flag + d.t0_flag) d.dar d.sp d.bus
      d.cpu_type d.m_flag d.sr_mask d.address_mask d.has_pmmu

-- After an exception execution goes on at the address that the vector holds, and the interrupt
-- inputs are as before.
pub record IsEntry {S : Type 0} (store : S → ℕ → ℕ) (limit pc vector size : ℕ) (c d : Cpu S)
    : Type 0 where
  pub stacked : IsStacked store limit pc vector size c d
  pub vector_taken : d.pc ≡ peek long (store d.bus) (vector_entry vector c)
  pub level_kept : d.int_level ≡ c.int_level
  pub nmi_kept : d.nmi_pending ≡ c.nmi_pending

-- `o` is `c` ready for a frame.
pub record IsOpened {S : Type 0} (store : S → ℕ → ℕ) (limit : ℕ) (c o : Cpu S) : Type 0 where
  pub supervisor : o.s_flag ≡ sflag_set
  pub trace_off : o.t1_flag + o.t0_flag ≡ 0
  pub stack_at : o.dar 15 ≡ (opened c).dar 15
  pub room : 8 ≤ o.dar 15
  pub bank_kept : o.sp ≡ update c.sp (sp_index c.s_flag c.m_flag) (c.dar 15)
  pub control_kept :
      (o.cpu_type ≡ c.cpu_type) × (o.m_flag ≡ c.m_flag) × (o.sr_mask ≡ c.sr_mask) × IsFlat limit o
  pub registers_kept : (i : ℕ) → i < 15 → o.dar i ≡ c.dar i
  pub memory_kept : o.bus ≡ c.bus

module _ {S : Type 0} ⦃host : Host S⦄ (store : S → ℕ → ℕ) (ram : IsRam host store) where
  pushed_store :
      (size : Size) (v : ℕ) (c : Cpu S)
      → store (pushed store ram size v c).bus
        ≡ poke size (store c.bus) (c.dar 15 - bytes size) (mask_out_above size v)
  pushed_store size v c = ram.stores size (c.dar 15 - bytes size) (mask_out_above size v) c.bus

  sr_at :
      (pc sr : ℕ) (c : Cpu S)
      → peek word (store (framed_000 store ram pc sr c).bus) (c.dar 15 - 4 - 2) ≡ sr % 2 ^ 16
  sr_at pc sr c = rw (pushed_store word sr (pushed store ram long pc c)) (
      peek-poke word (store (pushed store ram long pc c).bus) (c.dar 15 - 4 - 2) (sr % 2 ^ 16)
      ∙ omega arith)

  pc_at :
      (pc sr : ℕ) (c : Cpu S)
      → 6 ≤ c.dar 15
      → peek long (store (framed_000 store ram pc sr c).bus) (c.dar 15 - 4 - 2 + 2) ≡ pc % 2 ^ 32
  pc_at pc sr c room =
      let e : c.dar 15 - 4 - 2 + 2 ≡ c.dar 15 - 4 = omega arith in
      rw (e, pushed_store word sr (pushed store ram long pc c))
        (peek-poke_apart long word (store (pushed store ram long pc c).bus) (c.dar 15 - 4 - 2)
            (c.dar 15 - 4) (sr % 2 ^ 16) (inr (omega arith))
          ∙ rw (pushed_store long pc c)
              (peek-poke long (store c.bus) (c.dar 15 - 4) (pc % 2 ^ 32) ∙ omega arith))

  elsewhere :
      (pc sr a : ℕ) (c : Cpu S)
      → 6 ≤ c.dar 15
      → (a < c.dar 15 - 6) ⊎ (c.dar 15 ≤ a)
      → store (framed_000 store ram pc sr c).bus a ≡ store c.bus a
  elsewhere pc sr a c room apart = rw (pushed_store word sr (pushed store ram long pc c)) (
      poke_outside word (store (pushed store ram long pc c).bus) (c.dar 15 - 4 - 2) (sr % 2 ^ 16) a
        (ground arith)
      ∙ rw (pushed_store long pc c)
          (poke_outside long (store c.bus) (c.dar 15 - 4) (pc % 2 ^ 32) a (ground arith)))

  pub framed_000-IsStacked :
      (pc vector limit : ℕ) (c o : Cpu S)
      → IsOpened store limit c o
      → IsStacked store limit pc vector 6 c (framed_000 store ram pc (get_sr c) o)
  framed_000-IsStacked pc vector limit c o opening = record {
    supervisor = opening.supervisor;
    trace_off = opening.trace_off;
    stack_used = omega (arith, opening.room, opening.stack_at);
    sr_stacked = sr_at pc (get_sr c) o;
    pc_stacked = pc_at pc (get_sr c) o (omega (arith, opening.room));
    format_stacked = λ eight. absurd (omega arith);
    bank_kept = opening.bank_kept;
    control_kept = opening.control_kept;
    registers_kept = λ i below. ground (arith, opening.registers_kept i below);
    memory_kept = λ a apart.
        elsewhere pc (get_sr c) a o (omega (arith, opening.room)) (ground (arith, opening.room))
        ∙ ap (λ m. store m a) opening.memory_kept;
  }

  format_at :
      (pc sr vector : ℕ) (c : Cpu S)
      → 8 ≤ c.dar 15
      → peek word (store (framed store ram pc sr vector c).bus) (c.dar 15 - 2 - 4 - 2 + 6)
        ≡ shl32 vector 2 % 2 ^ 16
  format_at pc sr vector c room =
      let e : c.dar 15 - 2 - 4 - 2 + 6 ≡ c.dar 15 - 2 = omega arith in
      let d = pushed store ram word (shl32 vector 2) c in
      rw (e, pushed_store word sr (pushed store ram long pc d))
        (peek-poke_apart word word (store (pushed store ram long pc d).bus) (c.dar 15 - 2 - 4 - 2)
            (c.dar 15 - 2) (sr % 2 ^ 16) (inr (omega arith))
          ∙ rw (pushed_store long pc d) (
              peek-poke_apart word long (store d.bus) (c.dar 15 - 2 - 4) (c.dar 15 - 2)
                (pc % 2 ^ 32) (inr (omega arith))
              ∙ rw (pushed_store word (shl32 vector 2) c) (
                  peek-poke word (store c.bus) (c.dar 15 - 2) (shl32 vector 2 % 2 ^ 16)
                  ∙ omega arith)))

  format_elsewhere :
      (vector a : ℕ) (c : Cpu S)
      → 2 ≤ c.dar 15
      → (a < c.dar 15 - 2) ⊎ (c.dar 15 ≤ a)
      → store (pushed store ram word (shl32 vector 2) c).bus a ≡ store c.bus a
  format_elsewhere vector a c room apart =
      rw (pushed_store word (shl32 vector 2) c)
        (poke_outside word (store c.bus) (c.dar 15 - 2) (shl32 vector 2 % 2 ^ 16) a (ground arith))

  pub framed-IsStacked :
      (pc vector limit : ℕ) (c o : Cpu S)
      → IsOpened store limit c o
      → IsStacked store limit pc vector 8 c (framed store ram pc (get_sr c) vector o)
  framed-IsStacked pc vector limit c o opening =
      let d = pushed store ram word (shl32 vector 2) o in
      record {
        supervisor = opening.supervisor;
        trace_off = opening.trace_off;
        stack_used = omega (arith, opening.room, opening.stack_at);
        sr_stacked = sr_at pc (get_sr c) d;
        pc_stacked = pc_at pc (get_sr c) d (omega (arith, opening.room));
        format_stacked = λ eight. format_at pc (get_sr c) vector o opening.room;
        bank_kept = opening.bank_kept;
        control_kept = opening.control_kept;
        registers_kept = λ i below. ground (arith, opening.registers_kept i below);
        memory_kept = λ a apart.
            elsewhere pc (get_sr c) a d (omega (arith, opening.room)) (ground (arith, opening.room))
            ∙ format_elsewhere vector a o (omega (arith, opening.room))
                (ground (arith, opening.room))
            ∙ ap (λ m. store m a) opening.memory_kept;
      }
