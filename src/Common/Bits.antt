-- ===== src/Common/Bits.antt =====
-- The masks and shifts that the program applies to one byte, as arithmetic. Each is a table over
-- all bytes, checked by evaluation.
use Prim.Native.Nat.{ℕ, zero, suc, ◌+◌, ◌*◌, ◌/◌, ◌%◌, ◌<◌, bit_and, bit_or, compare, Ordering}
use mathlib.Core.Path.{◌≡◌, refl}
use mathlib.Core.Bool.{Bool, true, false, ◌&&◌}
use native.Mathlib.Omega.{arith}

same : ℕ → ℕ → Bool
same a b = elim (compare a b) [ Ordering.eq ↦ true | _ ↦ false ]

same→eq : (a b : ℕ) → same a b ≡ true → a ≡ b
unfolding same
same→eq a b h = ground arith

-- Both functions give the same value at every number below `n`.
table : (ℕ → ℕ) → (ℕ → ℕ) → ℕ → Bool
unfolding same
table f g zero = true
table f g (suc n) = same (f n) (g n) && table f g n

table_sound : (f g : ℕ → ℕ) (n : ℕ) → table f g n ≡ true → (i : ℕ) → i < n → f i ≡ g i
unfolding table
table_sound f g zero t i h = absurd (omega arith)
table_sound f g (suc n) t i h = ground (arith, table_sound f g n (ground arith) i)

pub low_nibble : (b : ℕ) → b < 256 → bit_and b 0x0f ≡ b % 16
unfolding table
low_nibble = table_sound _ _ 256 refl

pub high_nibble : (b : ℕ) → b < 256 → bit_and b 0xf0 ≡ b / 16 * 16
unfolding table
high_nibble = table_sound _ _ 256 refl

-- A byte joined from its two halves: a table over the byte `hi * 16 + lo`.
or_halves : (b : ℕ) → b < 256 → bit_or (b / 16 * 16) (b % 16) ≡ b
unfolding table
or_halves = table_sound _ _ 256 refl

pub or_nibbles : (hi lo : ℕ) → hi < 16 → lo < 16 → bit_or (hi * 16) lo ≡ hi * 16 + lo
or_nibbles hi lo h l =
    let p : (hi * 16 + lo) / 16 ≡ hi = omega arith in
    let q : (hi * 16 + lo) % 16 ≡ lo = omega arith in
    rw (p, q) at (or_halves (hi * 16 + lo) (omega arith))
