-- ===== src/Protocol/Pieces.antt =====
-- Cutting a message into pieces: the piece count, the size of the last piece and the number of
-- pieces sent at a time, as protocol.cpp, invoker.cpp, response.cpp and sub_reactor.cpp compute them.
use muse_rpc.Common.{ℕ, ◌+◌, ◌-◌, ◌*◌, ◌/◌, ◌%◌, ◌<◌, ◌≤◌, ◌≡◌, arith, ◌==◌, if◌then◌else◌}
use muse_rpc.Protocol.{default_piece_limit_size, piece_count_of, get_send_count}

-- The size of the last piece's data.
abbrev pub last_piece_size_of : ℕ → ℕ
last_piece_size_of total_size =
    if total_size % default_piece_limit_size == 0
    then default_piece_limit_size
    else total_size % default_piece_limit_size

-- Up to 65535 full pieces the pieces cover the message exactly: all but the last are full, and the
-- last holds between 1 and 522 bytes.
pub pieces_cover :
    (total_size : ℕ)
    → 0 < total_size
    → total_size ≤ 65535 * default_piece_limit_size
    → (0 < piece_count_of total_size)
      × ((piece_count_of total_size - 1) * default_piece_limit_size + last_piece_size_of total_size
          ≡ total_size)
      × (0 < last_piece_size_of total_size)
      × (last_piece_size_of total_size ≤ default_piece_limit_size)
pieces_cover n h u = ground arith

-- Each turn sends at least one piece, at most seven, and never fewer for a longer message.
pub get_send_count_bounds :
    (a b : ℕ)
    → a ≤ b
    → (1 ≤ get_send_count a) × (get_send_count a ≤ get_send_count b) × (get_send_count b ≤ 7)
unfolding get_send_count
get_send_count_bounds a b h = ground arith

-- The size of piece `order`: the last one takes what is left.
abbrev pub piece_size_of : ℕ → ℕ → ℕ
piece_size_of total_size order =
    if order == piece_count_of total_size - 1
    then last_piece_size_of total_size
    else default_piece_limit_size

-- A message that the 16-bit piece count can hold.
pub record IsMessageSize (total_size : ℕ) : Type 0 where
  pub some_bytes : 0 < total_size
  pub countable : total_size ≤ 65535 * default_piece_limit_size

pub piece_fits :
    (n i : ℕ)
    → IsMessageSize n
    → i < piece_count_of n
    → (default_piece_limit_size * i + piece_size_of n i ≤ n)
      × (piece_size_of n i ≤ default_piece_limit_size)
      × (i < 65535)
piece_fits n i s h = ground arith

pub byte_in_piece :
    (n x : ℕ)
    → IsMessageSize n
    → x < n
    → (x / default_piece_limit_size < piece_count_of n)
      × (x % default_piece_limit_size < piece_size_of n (x / default_piece_limit_size))
byte_in_piece n x s h = ground arith
