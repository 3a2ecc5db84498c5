-- ===== src/Serializer/Number.antt =====
-- Numbers in the stream of include/serializer/binarySerializer.cpp: the bytes of the machine, which a
-- big-endian one reverses.
use muse_rpc.Common.{
  ℕ, zero, suc, ◌+◌, ◌*◌, ◌/◌, ◌%◌, ◌^◌, ◌<◌, ◌≡◌, refl, ap, List, [], ◌∷◌, length, arith,
}
use mathlib.Core.List.{reverse}
use mathlib.Mathlib.Data.List.Basic.{reverse-Involutive}
use muse_rpc.Memory.{ByteSequence, big_endian, little_endian}

-- The `w` low bytes of a number, the lowest first.
abbrev pub low_bytes : ℕ → ℕ → List ℕ
low_bytes zero v = []
low_bytes (suc w) v = v % 256 ∷ low_bytes w (v / 256)

abbrev pub number_of : List ℕ → ℕ
number_of [] = 0
number_of (b ∷ bs) = b + 256 * number_of bs

-- The bytes of a number in the machine's memory, and back.
abbrev pub stored_bytes : ByteSequence → ℕ → ℕ → List ℕ
stored_bytes little_endian w v = low_bytes w v
stored_bytes big_endian w v = reverse (low_bytes w v)

abbrev pub loaded_number : ByteSequence → List ℕ → ℕ
loaded_number little_endian bs = number_of bs
loaded_number big_endian bs = number_of (reverse bs)

-- `std::reverse` on a big-endian machine.
abbrev pub turned : ByteSequence → List ℕ → List ℕ
turned little_endian bs = bs
turned big_endian bs = reverse bs

-- Every machine writes the lowest byte first.
pub turned-stored_bytes :
    (host : ByteSequence) (w v : ℕ) → turned host (stored_bytes host w v) ≡ low_bytes w v
turned-stored_bytes little_endian w v = refl
turned-stored_bytes big_endian w v = reverse-Involutive (low_bytes w v)

-- And reads it so.
pub loaded_number-turned :
    (host : ByteSequence) (bs : List ℕ) → loaded_number host (turned host bs) ≡ number_of bs
loaded_number-turned little_endian bs = refl
loaded_number-turned big_endian bs = ap number_of (reverse-Involutive bs)

pub number_of-low_bytes : (w v : ℕ) → v < 256 ^ w → number_of (low_bytes w v) ≡ v
number_of-low_bytes zero v h = omega arith
number_of-low_bytes (suc w) v h =
    let small : v < 256 * 256 ^ w = omega arith in
    omega (arith, number_of-low_bytes w (v / 256) (omega arith))

pub length-low_bytes : (w v : ℕ) → length (low_bytes w v) ≡ w
length-low_bytes zero v = refl
length-low_bytes (suc w) v = ap suc (length-low_bytes w (v / 256))
