-- ===== src/M68k/Memory/Layout.antt =====
-- Big-endian words in a memory of bytes: what a read finds after a write.
use cute_mac.Base.{ℕ, ◌+◌, ◌*◌, ◌/◌, ◌%◌, ◌≤◌, ◌<◌, ◌⊎◌, ◌≡◌, refl, arith}
use cute_mac.M68k.Flags.{Size, byte, word, long, mask_out_above}
use cute_mac.M68k.Cpu.{update}
use cute_mac.M68k.Memory.{bytes}

abbrev pub peek : Size → (ℕ → ℕ) → ℕ → ℕ
peek byte m a = m a % 256
peek word m a = m a % 256 * 256 + m (a + 1) % 256
peek long m a =
    (m a % 256 * 256 + m (a + 1) % 256) * 65536 + (m (a + 2) % 256 * 256 + m (a + 3) % 256)

abbrev pub poke : Size → (ℕ → ℕ) → ℕ → ℕ → ℕ → ℕ
poke byte m a v = update m a (v % 256)
poke word m a v = update (update m a (v / 256 % 256)) (a + 1) (v % 256)
poke long m a v =
    update
      (update (update (update m a (v / 16777216 % 256)) (a + 1) (v / 65536 % 256)) (a + 2)
        (v / 256 % 256))
      (a + 3) (v % 256)

pub mask_out_above-peek :
    (size : Size) (m : ℕ → ℕ) (a : ℕ) → mask_out_above size (peek size m a) ≡ peek size m a
mask_out_above-peek byte m a = omega arith
mask_out_above-peek word m a = omega arith
mask_out_above-peek long m a = omega arith

pub peek-poke :
    (size : Size) (m : ℕ → ℕ) (a v : ℕ) → peek size (poke size m a v) a ≡ mask_out_above size v
peek-poke byte m a v = ground arith
peek-poke word m a v = ground arith
peek-poke long m a v = ground arith

-- A byte that a write does not touch.
pub poke_outside :
    (size : Size) (m : ℕ → ℕ) (a v b : ℕ) → (b < a) ⊎ (a + bytes size ≤ b) → poke size m a v b ≡ m b
poke_outside byte m a v b apart = ground arith
poke_outside word m a v b apart = ground arith
poke_outside long m a v b apart = ground arith

pub peek-poke_apart :
    (read written : Size) (m : ℕ → ℕ) (a b v : ℕ)
    → (b + bytes read ≤ a) ⊎ (a + bytes written ≤ b)
    → peek read (poke written m a v) b ≡ peek read m b
peek-poke_apart byte w m a b v apart = rw (poke_outside w m a v b (ground arith)) refl
peek-poke_apart word w m a b v apart =
    rw (poke_outside w m a v b (ground arith))
      (rw (poke_outside w m a v (b + 1) (ground arith)) refl)
peek-poke_apart long w m a b v apart = rw (poke_outside w m a v b (ground arith)) (
    rw (poke_outside w m a v (b + 1) (ground arith)) (
      rw (poke_outside w m a v (b + 2) (ground arith))
        (rw (poke_outside w m a v (b + 3) (ground arith)) refl)))
