-- ===== src/M68k/Ops/Calls.antt =====
-- About JSR and RTS on plain memory, with a subroutine between them.
use cute_mac.Base.{ℕ, ◌+◌, ◌-◌, ◌%◌, ◌^◌, ◌≤◌, ◌<◌, ◌≡◌, refl, sym, ap, ◌∙◌, arith}
use cute_mac.M68k.Flags.{long}
use cute_mac.M68k.Cpu.{Cpu, Host, M, ok, then_lem}
use cute_mac.M68k.Ea.{Mode, ay, ea_of}
use cute_mac.M68k.Memory.Layout.{peek, peek-poke}
use cute_mac.M68k.Memory.Ram.{IsRam, IsFlat, push_lem, pull_lem, pushed, pulled}
use cute_mac.M68k.Ops.Flow.{jsr_32, rts_32, push_pc, jump}

-- There is room on the stack for the return address.
pub record IsCallable {S : Type 0} (limit : ℕ) (c : Cpu S) : Type 0 where
  pub flat : IsFlat limit c
  pub top : limit ≤ 2 ^ 32
  pub room : 4 ≤ c.dar 15
  pub below : c.dar 15 < limit
  pub even : c.dar 15 % 2 ≡ 0
  pub pc_small : c.pc < 2 ^ 32

-- What runs from `m` to `t` and leaves the stack pointer and the long word on the stack alone.
pub record IsBalanced {S : Type 0} (store : S → ℕ → ℕ) (limit : ℕ) (m t : Cpu S) : Type 0 where
  pub flat : IsFlat limit t
  pub stack : t.dar 15 ≡ m.dar 15
  pub frame : (i : ℕ) → i < 4 → store t.bus (m.dar 15 + i) ≡ store m.bus (m.dar 15 + i)

abbrev pub IsSubroutine : {S : Type 0} → (S → ℕ → ℕ) → ℕ → M S (Unit {0}) → Type 0
IsSubroutine {S = S} store limit body =
    (m : Cpu S) → IsFlat limit m → (t : Cpu S) × (body m ≡ ok tt t) × IsBalanced store limit m t

-- The return has come back behind the call of `d`, with the other registers as in `t`.
pub record IsBack {S : Type 0} (d t e : Cpu S) : Type 0 where
  pub pc_back : e.pc ≡ d.pc
  pub stack_back : e.dar 15 ≡ d.dar 15
  pub others : (i : ℕ) → i < 15 → e.dar i ≡ t.dar i

peek_frame :
    (m n : ℕ → ℕ) (a : ℕ)
    → ((i : ℕ) → i < 4 → m (a + i) ≡ n (a + i))
    → peek long m a ≡ peek long n a
peek_frame m n a same =
    let right : a ≡ a + 0 = omega arith in
    let at_0 : m a ≡ n a = ap m right ∙ same 0 (omega arith) ∙ ap n (sym right) in
    rw (at_0, same 1 (omega arith), same 2 (omega arith), same 3 (omega arith)) refl

module _ {S : Type 0} ⦃host : Host S⦄ (store : S → ℕ → ℕ) (ram : IsRam host store) where
  -- The state at the first instruction of the subroutine.
  abbrev called : ℕ → Cpu S → Cpu S
  called ea d = record (pushed store ram long d.pc d) { pc = ea }

  jsr_32-called :
      (mode : Mode) (ea limit : ℕ) (c d : Cpu S)
      → ea_of long ay mode c ≡ ok ea d
      → IsCallable limit d
      → jsr_32 mode c ≡ ok tt (called ea d)
  unfolding jsr_32 push_pc jump
  jsr_32-called mode ea limit c d at ready =
      then_lem _ at
      ∙ then_lem _ (
          push_lem store ram long limit d.pc d ready.flat ready.top ready.room
            (omega (arith, ready.below)) (omega (arith, ready.even, ready.room)))

  rts_32-pulled :
      (limit : ℕ) (t : Cpu S)
      → IsFlat limit t
      → limit ≤ 2 ^ 32
      → t.dar 15 + 4 < limit
      → t.dar 15 % 2 ≡ 0
      → rts_32 t
        ≡ ok tt (record (pulled store ram long t) { pc = peek long (store t.bus) (t.dar 15) })
  unfolding rts_32 jump
  rts_32-pulled limit t flat top below even =
      then_lem _ (pull_lem store ram long limit t flat top below even)

  -- What the stack holds at the end of the subroutine is the return address.
  returned_pc :
      (ea limit : ℕ) (d t : Cpu S)
      → IsCallable limit d
      → IsBalanced store limit (called ea d) t
      → peek long (store t.bus) (t.dar 15) ≡ d.pc
  returned_pc ea limit d t ready balanced =
      let a = d.dar 15 - 4 in
      ap (peek long (store t.bus)) balanced.stack
      ∙ peek_frame (store t.bus) (store (called ea d).bus) a balanced.frame
      ∙ ap (λ m. peek long m a) (ram.stores long a (d.pc % 2 ^ 32) _)
      ∙ peek-poke long (store d.bus) a (d.pc % 2 ^ 32)
      ∙ omega (arith, ready.pc_small)

  -- JSR through every addressing mode on memory without an MMU, with room for four bytes on an even
  -- stack: it goes to the effective address, and after any code that leaves the stack pointer and
  -- the long word on the stack as they were, RTS goes back behind the call, with the stack pointer
  -- as before the call and the other registers as that code left them.
  pub rts_32-jsr_32 :
      (mode : Mode) (ea limit : ℕ) (body : M S (Unit {0})) (c d : Cpu S)
      → ea_of long ay mode c ≡ ok ea d
      → IsCallable limit d
      → IsSubroutine store limit body
      → (m : Cpu S) × (jsr_32 mode c ≡ ok tt m)
        × (m.pc ≡ ea)
        × (t : Cpu S) × (body m ≡ ok tt t)
        × (e : Cpu S) × (rts_32 t ≡ ok tt e)
        × IsBack d t e
  rts_32-jsr_32 mode ea limit body c d at ready subroutine =
      let (t, runs, balanced) = subroutine (called ea d) ready.flat in
      let stack : t.dar 15 ≡ d.dar 15 - 4 = balanced.stack in
      (
        called ea d,
        jsr_32-called mode ea limit c d at ready,
        refl,
        t,
        runs,
        _,
        rts_32-pulled limit t balanced.flat ready.top
            (omega (arith, stack, ready.below, ready.room))
            (omega (arith, stack, ready.even, ready.room)),
        record {
          pc_back = returned_pc ea limit d t ready balanced;
          stack_back = omega (arith, stack, ready.room);
          others = λ i below. ground arith;
        },
      )
