-- ===== src/Memory.antt =====
-- Raw memory behind a `char *`: a byte at every offset from the pointer. Multi-byte stores and
-- loads go through the byte order of the machine, as `reinterpret_cast` does; `htons` and `htonl`
-- are those of the C library. include/serializer/util.h and util.cpp ask for the byte order.
use muse_rpc.Common.{
  arith, ◌⊎◌, ◌≤◌, ℕ, zero, suc, List, [], ◌∷◌, ◌+◌, ◌-◌, ◌*◌, ◌/◌, ◌%◌, ◌^◌, ◌<◌, ◌≡◌, refl, ◌&&◌,
  ltb, leb, ◌==◌, if◌then◌else◌,
}

abbrev pub Memory : Type 0
Memory = ℕ → ℕ

abbrev pub IsByte : ℕ → Type 0
IsByte b = b < 256

pub data ByteSequence : Type 0 where
  big_endian : ByteSequence
  little_endian : ByteSequence

-- Memory whose bytes are all 0.
abbrev pub zeroed : Memory
zeroed _ = 0

abbrev pub store8 : Memory → ℕ → ℕ → Memory
store8 m a v = λ i. if i == a then v % 256 else m i

unfoldable pub store16 : ByteSequence → Memory → ℕ → ℕ → Memory
store16 big_endian m a v = store8 (store8 m a (v / 256)) (a + 1) v
store16 little_endian m a v = store8 (store8 m a v) (a + 1) (v / 256)

unfoldable pub store32 : ByteSequence → Memory → ℕ → ℕ → Memory
unfolding store16
store32 big_endian m a v = store16 big_endian (store16 big_endian m a (v / 2 ^ 16)) (a + 2) v
store32 little_endian m a v =
    store16 little_endian (store16 little_endian m a v) (a + 2) (v / 2 ^ 16)

unfoldable pub store64 : ByteSequence → Memory → ℕ → ℕ → Memory
unfolding store32
store64 big_endian m a v = store32 big_endian (store32 big_endian m a (v / 2 ^ 32)) (a + 4) v
store64 little_endian m a v =
    store32 little_endian (store32 little_endian m a v) (a + 4) (v / 2 ^ 32)

unfoldable pub load16 : ByteSequence → Memory → ℕ → ℕ
load16 big_endian m a = m a * 256 + m (a + 1)
load16 little_endian m a = m (a + 1) * 256 + m a

unfoldable pub load32 : ByteSequence → Memory → ℕ → ℕ
unfolding load16
load32 big_endian m a = load16 big_endian m a * 2 ^ 16 + load16 big_endian m (a + 2)
load32 little_endian m a = load16 little_endian m (a + 2) * 2 ^ 16 + load16 little_endian m a

unfoldable pub load64 : ByteSequence → Memory → ℕ → ℕ
unfolding load32
load64 big_endian m a = load32 big_endian m a * 2 ^ 32 + load32 big_endian m (a + 4)
load64 little_endian m a = load32 little_endian m (a + 4) * 2 ^ 32 + load32 little_endian m a

-- `std::reverse(p + a, p + a + n)` on bytes.
unfoldable pub reverse_bytes : Memory → ℕ → ℕ → Memory
reverse_bytes m a n = λ i. if leb a i && ltb i (a + n) then m (a + a + n - 1 - i) else m i

-- `std::memcpy(to + a, from + b, n)`.
unfoldable pub memcpy : Memory → ℕ → Memory → ℕ → ℕ → Memory
memcpy to a from b n = λ i. if leb a i && ltb i (a + n) then from (b + (i - a)) else to i

-- The C library's `htons` and `htonl`: from the machine's byte order to the network's.
unfoldable pub htons : ByteSequence → ℕ → ℕ
htons big_endian v = v
htons little_endian v = v % 256 * 256 + v / 256

unfoldable pub htonl : ByteSequence → ℕ → ℕ
htonl big_endian v = v
htonl little_endian v =
    v % 256 * 2 ^ 24 + v / 256 % 256 * 2 ^ 16 + v / 2 ^ 16 % 256 * 256 + v / 2 ^ 24

unfoldable pub get_byte_sequence : ByteSequence → ByteSequence
unfolding store32
get_byte_sequence host =
    if store32 host zeroed 0 0x01234567 0 == 0x01 then big_endian else little_endian

-- The test value tells the two byte orders apart.
pub get_byte_sequence_lem : (host : ByteSequence) → get_byte_sequence host ≡ host
unfolding get_byte_sequence
get_byte_sequence_lem big_endian = refl
get_byte_sequence_lem little_endian = refl

-- The `n` bytes from offset `a`, as a call of `sendto` transmits them.
unfoldable pub bytes_of : Memory → ℕ → ℕ → List ℕ
bytes_of m a zero = []
bytes_of m a (suc n) = m a ∷ bytes_of m (a + 1) n

pub memcpy_inside :
    (to from : Memory) (a b n j : ℕ) → j < n → memcpy to a from b n (a + j) ≡ from (b + j)
unfolding memcpy
memcpy_inside to from a b n j h = let back : a + j - a ≡ j = omega arith in rw back (ground arith)

pub memcpy_outside :
    (to from : Memory) (a b n i : ℕ) → (i < a) ⊎ (a + n ≤ i) → memcpy to a from b n i ≡ to i
unfolding memcpy
memcpy_outside to from a b n i h = ground arith
