-- ===== src/Server/Tests.antt =====
-- Runs of the request code at concrete inputs, and the theorems at inputs that meet their hypotheses.
use muse_rpc.Common.{
  ℕ, ◌+◌, ◌-◌, ◌*◌, ◌%◌, ◌≡◌, ◌≢◌, ◌<◌, get_elem?, some, refl, List, [], ◌∷◌, Bool, true, false, ok,
  undefined, thrown, arith, set, length, ◌↔◌,
}
use muse_rpc.Memory.{Memory, zeroed}
use muse_rpc.Server.PieceState.{
  get_ack_number, IsAck, get_ack_number-IsAck, get_piece_state, set_piece_state, piece_state_bounds,
  ack_complete,
}
use muse_rpc.Server.Servlet.{Servlet}
use muse_rpc.Server.Request.Reassembly.{Delivery, Reassembled, deliver, reassembly}

abbrev gap : List Bool
gap = true ∷ true ∷ false ∷ true ∷ []

gap_ack : get_ack_number gap ≡ 2
unfolding get_ack_number
gap_ack = refl

get_ack_number-IsAck_example : IsAck gap (get_ack_number gap)
get_ack_number-IsAck_example = get_ack_number-IsAck gap

abbrev whole : Memory
whole x = x % 251

-- The buffer of a piece of `whole`.
abbrev piece : ℕ → Delivery
piece order = record { order = order; buf = λ i. whole (522 * order + (i - 26)) }

-- 600 bytes in two pieces, the second first and twice.
reassembly_example :
    Reassembled whole 600
      (piece 1)
      (piece 1 ∷ piece 0 ∷ [])
      (deliver 40000 1 7 1000 77 600 zeroed (piece 1) (piece 1 ∷ piece 0 ∷ []))
reassembly_example =
    reassembly whole zeroed 40000 1 7 1000 77 600 (piece 1) (piece 1 ∷ piece 0 ∷ []) (omega arith)
      (omega arith)

abbrev client_a : Servlet
client_a = record { request_id = 1; client_port = 2; client_ip_address = 3 }

abbrev client_b : Servlet
client_b = record { request_id = 1; client_port = 2; client_ip_address = 4 }

ack_complete_example : (get_ack_number gap ≡ 4) ↔ ((i : ℕ) → i < 4 → get_elem? gap i ≡ some true)
ack_complete_example = ack_complete gap

piece_state_bounds_example :
    (2 < length gap
      → (get_piece_state gap (length gap) 2 ≢ undefined)
        × (set_piece_state gap (length gap) 2 true
            ≡ ok (set gap 2 true, get_ack_number (set gap 2 true))))
    × (2 ≡ length gap
        → (get_piece_state gap (length gap) 2 ≡ undefined)
          × (set_piece_state gap (length gap) 2 true ≡ undefined))
    × (length gap < 2
        → (get_piece_state gap (length gap) 2 ≡ thrown)
          × (set_piece_state gap (length gap) 2 true ≡ thrown))
piece_state_bounds_example = piece_state_bounds gap 2 true
