-- ===== src/Serializer/Tests.antt =====
-- The serializer at concrete values, and its theorems there.
use muse_rpc.Common.{◌+◌, ◌≡◌, refl, leb, if◌then◌else◌, true, [], ◌∷◌, ◌++◌, arith}
use muse_rpc.Memory.{big_endian, little_endian}
use muse_rpc.Serializer.Number.{low_bytes}
use muse_rpc.Serializer.Shape.{
  Shape, Value, scalar, uint16, int32, boolean, text, vector, tuple, user_class, end, field,
  string_tag, insufficient_remaining_memory,
}
use muse_rpc.Serializer.Writer.{wrote, input}
use muse_rpc.Serializer.Reader.{failed, overrun, output_string}
use muse_rpc.Serializer.Portable.{RoundTrips, round_trip, IsLost, vector-IsLost}
use muse_rpc.Serializer.Short.{short_string}

-- A class with a vector of numbers, and a pair of a flag and a string.
abbrev shape : Shape
shape =
    user_class (field (vector (scalar uint16)) (field (tuple (field boolean (field text end))) end))

abbrev value : Value shape
value = (258 ∷ 3 ∷ [], ((true, (104 ∷ 105 ∷ [], tt)), tt))

class_written :
    input little_endian shape value []
    ≡ wrote (
        19 ∷ 13 ∷ 2 ∷ 0 ∷ 0 ∷ 0 ∷ 4 ∷ 2 ∷ 1 ∷ 4 ∷ 3 ∷ 0 ∷ 16 ∷ 2 ∷ 0 ∷ 0 ∷ 1 ∷ 10 ∷ 2 ∷ 0 ∷ 0 ∷ 0
        ∷ 104 ∷ 105 ∷ [])
unfolding input
class_written = refl

round_trip_example : RoundTrips little_endian big_endian shape value (7 ∷ []) (9 ∷ [])
round_trip_example =
    round_trip little_endian big_endian shape value (7 ∷ []) (9 ∷ []) (omega arith)
      ((refl, tt), ((tt, (tt, tt)), tt))

vector-IsLost_example : IsLost little_endian (scalar int32) (5 ∷ 6 ∷ []) [] []
vector-IsLost_example =
    vector-IsLost little_endian (scalar int32) (5 ∷ 6 ∷ []) [] [] (omega arith) tt

short_string_example :
    output_string little_endian ((1 ∷ []) ++ (string_tag ∷ (low_bytes 4 3 ++ (104 ∷ [])))) 1
    ≡ (if leb 3 (1 + 5) then overrun else failed insufficient_remaining_memory 1)
short_string_example = short_string little_endian (1 ∷ []) (104 ∷ []) 3 (omega arith) (omega arith)
