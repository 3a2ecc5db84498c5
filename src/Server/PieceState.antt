-- ===== src/Server/PieceState.antt =====
-- The `std::vector<bool> piece_state` of include/rpc/server/request.cpp, response.cpp and
-- include/rpc/client/response_data.cpp: the guarded reads and writes, and the loop that finds the
-- first missing piece.
use muse_rpc.Common.{
  get_elem?-lt, get_elem?-ge, Outcome, ok, thrown, undefined, ◌>>=◌, ℕ, zero, suc, ◌+◌, ◌<◌, ◌≤◌,
  ◌≡◌, refl, ap, Bool, true, false, List, [], ◌∷◌, some, none, length, get_elem?, set, ltb,
  if◌then◌else◌, arith, ◌⊎◌, inl, inr, ◌↔◌, ◌≢◌,
}

-- `piece_state[i]` on a vector of bits.
abbrev pub subscript : List Bool → ℕ → Outcome Bool
subscript bits i = elim (get_elem? bits i) [ none ↦ undefined | some b ↦ ok b ]

-- `piece_state[i] = value`.
abbrev pub assign : List Bool → ℕ → Bool → Outcome (List Bool)
assign bits i value = if ltb i (length bits) then ok (set bits i value) else undefined

unfoldable pub ack_loop : ℕ → ℕ → List Bool → ℕ
ack_loop result i [] = result
ack_loop result i (false ∷ bits) = i
ack_loop result i (true ∷ bits) = ack_loop result (i + 1) bits

unfoldable pub get_ack_number : List Bool → ℕ
unfolding ack_loop
get_ack_number bits = ack_loop (length bits) 0 bits

-- The guards of `getPieceState` and `setPieceState`. They let the index `piece_count` through.
unfoldable pub get_piece_state : List Bool → ℕ → ℕ → Outcome Bool
get_piece_state bits piece_count index =
    if ltb piece_count index then thrown else subscript bits index

unfoldable pub set_piece_state : List Bool → ℕ → ℕ → Bool → Outcome (List Bool × ℕ)
set_piece_state bits piece_count index value =
    if ltb piece_count index
    then thrown
    else (assign bits index value >>= λ bits'. ok (bits', get_ack_number bits'))

-- `ack` is the first piece that is missing, or the number of pieces if none is.
pub record IsAck (bits : List Bool) (ack : ℕ) : Type 0 where
  pub in_range : ack ≤ length bits
  pub received_below : (i : ℕ) → i < ack → get_elem? bits i ≡ some true
  pub missing_at : (ack ≡ length bits) ⊎ (get_elem? bits ack ≡ some false)

-- The acknowledgement number without its accumulator.
abbrev leading : List Bool → ℕ
leading [] = 0
leading (false ∷ bits) = 0
leading (true ∷ bits) = suc (leading bits)

ack_loop-leading :
    (result i : ℕ) (bits : List Bool)
    → result ≡ i + length bits
    → ack_loop result i bits ≡ i + leading bits
unfolding ack_loop
ack_loop-leading result i [] h = omega arith
ack_loop-leading result i (false ∷ bits) h = omega arith
ack_loop-leading result i (true ∷ bits) h =
    omega (arith, ack_loop-leading result (i + 1) bits (omega arith))

get_ack_number-leading : (bits : List Bool) → get_ack_number bits ≡ leading bits
unfolding get_ack_number
get_ack_number-leading bits = omega (arith, ack_loop-leading (length bits) 0 bits (omega arith))

leading-received : (bits : List Bool) (i : ℕ) → i < leading bits → get_elem? bits i ≡ some true
leading-received [] i h = elim h [ ]
leading-received (false ∷ bits) i h = elim h [ ]
leading-received (true ∷ bits) zero h = refl
leading-received (true ∷ bits) (suc i) h = leading-received bits i (omega arith)

leading-le : (bits : List Bool) → leading bits ≤ length bits
leading-le [] = omega arith
leading-le (false ∷ bits) = omega arith
leading-le (true ∷ bits) = omega (arith, leading-le bits)

leading-missing :
    (bits : List Bool) → (leading bits ≡ length bits) ⊎ (get_elem? bits (leading bits) ≡ some false)
leading-missing [] = inl refl
leading-missing (false ∷ bits) = inr refl
leading-missing (true ∷ bits) = elim (leading-missing bits) [
  | inl e ↦ inl (ap suc e)
  | inr e ↦ inr e
]

-- The loop finds the first missing piece.
pub get_ack_number-IsAck : (bits : List Bool) → IsAck bits (get_ack_number bits)
get_ack_number-IsAck bits = rw (get_ack_number-leading bits) (record {
  in_range = leading-le bits;
  received_below = leading-received bits;
  missing_at = leading-missing bits;
})

leading-set : (bits : List Bool) (i : ℕ) → leading bits ≤ leading (set bits i true)
leading-set [] i = omega arith
leading-set (false ∷ bits) i = omega arith
leading-set (true ∷ bits) zero = omega arith
leading-set (true ∷ bits) (suc i) = omega (arith, leading-set bits i)

-- Receiving a piece never lowers the acknowledgement number.
pub get_ack_number_mono :
    (bits : List Bool) (i : ℕ) → get_ack_number bits ≤ get_ack_number (set bits i true)
get_ack_number_mono bits i = omega (
  arith,
  leading-set bits i,
  get_ack_number-leading bits,
  get_ack_number-leading (set bits i true),
)

-- The acknowledgement number is the number of pieces exactly when every piece has been received.
pub ack_complete :
    (bits : List Bool)
    → (get_ack_number bits ≡ length bits)
      ↔ ((i : ℕ) → i < length bits → get_elem? bits i ≡ some true)
ack_complete bits = ((λ e i h. all.received_below i (omega arith)), back)
  where
    all : IsAck bits (get_ack_number bits)
    all = get_ack_number-IsAck bits

    back :
        ((i : ℕ) → i < length bits → get_elem? bits i ≡ some true)
        → get_ack_number bits ≡ length bits
    back h = ground (arith, h (get_ack_number bits), all.in_range, all.missing_at)

pub get_piece_state-ok :
    (bits : List Bool) (count i : ℕ) (b : Bool)
    → length bits ≡ count
    → i < count
    → get_elem? bits i ≡ some b
    → get_piece_state bits count i ≡ ok b
unfolding get_piece_state
get_piece_state-ok bits count i b e h g = ground arith

pub set_piece_state-ok :
    (bits : List Bool) (count i : ℕ) (b : Bool)
    → length bits ≡ count
    → i < count
    → set_piece_state bits count i b ≡ ok (set bits i b, get_ack_number (set bits i b))
unfolding set_piece_state
set_piece_state-ok bits count i b e h = ground arith

-- The guard is off by one: the index `piece_count` passes it and lies behind the vector.
pub piece_state_bounds :
    (bits : List Bool) (i : ℕ) (value : Bool)
    → (i < length bits
        → (get_piece_state bits (length bits) i ≢ undefined)
          × (set_piece_state bits (length bits) i value
              ≡ ok (set bits i value, get_ack_number (set bits i value))))
      × (i ≡ length bits
          → (get_piece_state bits (length bits) i ≡ undefined)
            × (set_piece_state bits (length bits) i value ≡ undefined))
      × (length bits < i
          → (get_piece_state bits (length bits) i ≡ thrown)
            × (set_piece_state bits (length bits) i value ≡ thrown))
unfolding get_piece_state set_piece_state
piece_state_bounds bits i value = (
  (λ h. let (b, g) = get_elem?-lt bits i h in (ground arith, ground arith)),
  (λ h. let g = get_elem?-ge bits i (omega arith) in (ground arith, ground arith)),
  (λ h. (ground arith, ground arith)),
)
