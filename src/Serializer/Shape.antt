-- ===== src/Serializer/Shape.antt =====
-- What include/serializer/binarySerializer.h can write: the types, with their tags of
-- include/serializer/util.h, and the values of each.
use muse_rpc.Common.{ℕ, ◌+◌, ◌^◌, ◌<◌, ◌≤◌, ◌≡◌, Bool, List, length, All}

-- Numbers and characters, as bits. A `float` and a `double` are their bits too.
pub data Scalar : Type 0 where
  int16 : Scalar
  int32 : Scalar
  int64 : Scalar
  uint16 : Scalar
  uint32 : Scalar
  uint64 : Scalar
  float : Scalar
  double : Scalar
  character : Scalar
  uint8 : Scalar

abbrev pub width : Scalar → ℕ
width int16 = 2
width int32 = 4
width int64 = 8
width uint16 = 2
width uint32 = 4
width uint64 = 8
width float = 4
width double = 8
width character = 1
width uint8 = 1

abbrev pub scalar_tag : Scalar → ℕ
scalar_tag int16 = 1
scalar_tag int32 = 2
scalar_tag int64 = 3
scalar_tag uint16 = 4
scalar_tag uint32 = 5
scalar_tag uint64 = 6
scalar_tag float = 7
scalar_tag double = 8
scalar_tag character = 9
scalar_tag uint8 = 21

abbrev pub bool_tag : ℕ
bool_tag = 0

abbrev pub string_tag : ℕ
string_tag = 10

abbrev pub bytes_tag : ℕ
bytes_tag = 11

abbrev pub ubytes_tag : ℕ
ubytes_tag = 12

abbrev pub vector_tag : ℕ
vector_tag = 13

abbrev pub list_tag : ℕ
list_tag = 14

abbrev pub map_tag : ℕ
map_tag = 15

abbrev pub hash_map_tag : ℕ
hash_map_tag = 17

abbrev pub set_tag : ℕ
set_tag = 18

abbrev pub array_tag : ℕ
array_tag = 20

abbrev pub tuple_tag : ℕ
tuple_tag = 16

abbrev pub class_tag : ℕ
class_tag = 19

abbrev pub max_string_length : ℕ
max_string_length = 1048576

abbrev pub max_byte_count : ℕ
max_byte_count = 65536

abbrev pub max_vector_count : ℕ
max_vector_count = 16777216

abbrev pub max_list_count : ℕ
max_list_count = 16777216

abbrev pub max_set_count : ℕ
max_set_count = 16777216

abbrev pub max_map_count : ℕ
max_map_count = 16777216

abbrev pub max_array_count : ℕ
max_array_count = 16777216

abbrev pub max_tuple_count : ℕ
max_tuple_count = 64

pub data ErrorNumber : Type 0 where
  data_type_error : ErrorNumber
  insufficient_remaining_memory : ErrorNumber
  the_string_length_exceeds_the_limit : ErrorNumber
  illegal_string_length : ErrorNumber
  the_bytes_count_exceeds_the_limit : ErrorNumber
  illegal_bytes_count : ErrorNumber
  read_illegal_bytes_count : ErrorNumber
  the_vector_count_exceeds_the_limit : ErrorNumber
  illegal_vector_count : ErrorNumber
  the_list_count_exceeds_the_limit : ErrorNumber
  illegal_list_count : ErrorNumber
  the_map_count_exceeds_the_limit : ErrorNumber
  illegal_map_count : ErrorNumber
  the_hash_map_count_exceeds_the_limit : ErrorNumber
  illegal_hash_map_count : ErrorNumber
  the_set_size_exceeds_the_limit : ErrorNumber
  illegal_set_count : ErrorNumber
  the_tuple_count_exceeds_the_limit : ErrorNumber
  illegal_tuple_count : ErrorNumber
  illegal_parameter_tuple_count : ErrorNumber

-- A set or a map is its elements or entries in the order of its iterator, or in the order in which they
-- are inserted. A user's class is the fields that it names.
mutual
  pub data Shape : Type 0 where
    boolean : Shape
    scalar : Scalar → Shape
    text : Shape
    bytes : ℕ → Shape
    ubytes : ℕ → Shape
    vector : Shape → Shape
    linked_list : Shape → Shape
    ordered_set : Shape → Shape
    array : ℕ → Shape → Shape
    ordered_map : Shape → Shape → Shape
    hash_map : Shape → Shape → Shape
    tuple : Shapes → Shape
    user_class : Shapes → Shape

  pub data Shapes : Type 0 where
    end : Shapes
    field : Shape → Shapes → Shapes

abbrev pub shape_count : Shapes → ℕ
shape_count end = 0
shape_count (field s rest) = shape_count rest + 1

abbrev mutual
  pub Value : Shape → Type 0
  Value boolean = Bool
  Value (scalar t) = ℕ
  Value text = List ℕ
  Value (bytes n) = List ℕ
  Value (ubytes n) = List ℕ
  Value (vector s) = List (Value s)
  Value (linked_list s) = List (Value s)
  Value (ordered_set s) = List (Value s)
  Value (array n s) = List (Value s)
  Value (ordered_map k s) = List (Value k × Value s)
  Value (hash_map k s) = List (Value k × Value s)
  Value (tuple ss) = Values ss
  Value (user_class ss) = Values ss

  pub Values : Shapes → Type 0
  Values end = Unit {0}
  Values (field s rest) = Value s × Values rest

-- A value that the limits of the serializer allow.
abbrev mutual
  pub Fits : (s : Shape) → Value s → Type 0
  Fits boolean v = Unit {0}
  Fits (scalar t) v = v < 256 ^ width t
  Fits text v = length v ≤ max_string_length
  Fits (bytes n) v = (length v ≡ n) × (n ≤ max_byte_count)
  Fits (ubytes n) v = (length v ≡ n) × (n ≤ max_byte_count)
  Fits (vector s) v = (length v ≤ max_vector_count) × All (Fits s) v
  Fits (linked_list s) v = (length v ≤ max_list_count) × All (Fits s) v
  Fits (ordered_set s) v = (length v ≤ max_set_count) × All (Fits s) v
  Fits (array n s) v = (length v ≡ n) × (n < max_array_count) × All (Fits s) v
  Fits (ordered_map k s) v = (length v ≤ max_map_count) × All (λ e. Fits k e.0 × Fits s e.1) v
  Fits (hash_map k s) v = (length v ≤ max_map_count) × All (λ e. Fits k e.0 × Fits s e.1) v
  Fits (tuple ss) v = (shape_count ss ≤ max_tuple_count) × Fit ss v
  Fits (user_class ss) v = Fit ss v

  pub Fit : (ss : Shapes) → Values ss → Type 0
  Fit end v = Unit {0}
  Fit (field s rest) (v, vs) = Fits s v × Fit rest vs
