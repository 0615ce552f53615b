-- ===== src/M68k/Lines.antt =====
-- The interrupt inputs: m68k_set_irq, m68k_set_virq and m68k_get_virq of m68kcpu.c.
use cute_mac.Base.{
  ℕ, zero, suc, ◌^◌, bit_and, bit_or, Bool, true, false, ◌&&◌, ◌==◌, not, if◌then◌else◌, not32,
  shl32,
}
use cute_mac.M68k.Cpu.{Cpu}
pub mod Laws

-- The highest line from `n` down to 1 that is active in `state`; 0 if there is none.
unfoldable pub highest : ℕ → ℕ → ℕ
highest zero state = 0
highest (suc n) state =
    let lower = highest n state in if bit_and state (2 ^ suc n) == 0 then lower else suc n

unfoldable pub line_state : ℕ → Bool → ℕ → ℕ
line_state level true state = bit_or state (shl32 1 level)
line_state level false state = bit_and state (not32 (shl32 1 level))

module _ {S : Type 0} where
  unfoldable pub set_irq : ℕ → Cpu S → Cpu S
  set_irq level c =
      let new_level = shl32 level 8 in
      record c {
        int_level = new_level;
        nmi_pending =
            if not (c.int_level == 0x700) && new_level == 0x700 then true else c.nmi_pending;
      }

  unfoldable pub set_virq : ℕ → Bool → Cpu S → Cpu S
  unfolding set_irq highest line_state
  set_virq level active c =
      let state = line_state level active c.virq_state in
      set_irq (highest 7 state) (record c { virq_state = state })

  unfoldable pub get_virq : ℕ → Cpu S → Bool
  get_virq level c = not (bit_and c.virq_state (shl32 1 level) == 0)
