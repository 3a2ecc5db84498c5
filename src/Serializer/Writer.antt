-- ===== src/Serializer/Writer.antt =====
-- The functions `input` of include/serializer/binarySerializer.cpp and binarySerializer.h. The stream is
-- the vector of bytes.
use muse_rpc.Common.{ℕ, zero, suc, ltb, if◌then◌else◌, Bool, List, [], ◌∷◌, ◌++◌, length}
use muse_rpc.Memory.{ByteSequence}
use muse_rpc.Serializer.Number.{stored_bytes, turned}
use muse_rpc.Serializer.Shape.{
  Scalar, width, scalar_tag, Shape, Shapes, boolean, scalar, text, bytes, ubytes, vector,
  linked_list, ordered_set, array, ordered_map, hash_map, tuple, user_class, end, field,
  shape_count, Value, Values, ErrorNumber, the_string_length_exceeds_the_limit,
  the_bytes_count_exceeds_the_limit, the_vector_count_exceeds_the_limit,
  the_list_count_exceeds_the_limit, the_set_size_exceeds_the_limit, the_map_count_exceeds_the_limit,
  the_hash_map_count_exceeds_the_limit, the_tuple_count_exceeds_the_limit, bool_tag, string_tag,
  bytes_tag, ubytes_tag, vector_tag, list_tag, set_tag, array_tag, map_tag, hash_map_tag, tuple_tag,
  class_tag, max_string_length, max_byte_count, max_vector_count, max_list_count, max_map_count,
  max_tuple_count,
}

-- The stream that a call leaves, and the exception with which it ended, if any.
pub data Written : Type 0 where
  wrote : List ℕ → Written
  refused : ErrorNumber → List ℕ → Written

abbrev pub after : Written → (List ℕ → Written) → Written
after (wrote stream) f = f stream
after (refused why stream) f = refused why stream

abbrev pub input_each {ℓ} : {A : Type ℓ} → (A → List ℕ → Written) → List A → List ℕ → Written
input_each f [] stream = wrote stream
input_each f (v ∷ vs) stream = after (f v stream) (λ stream'. input_each f vs stream')

-- The first `n` bytes of an object in memory.
abbrev pub first_bytes : ℕ → List ℕ → List ℕ
first_bytes zero bs = []
first_bytes (suc n) [] = []
first_bytes (suc n) (b ∷ bs) = b ∷ first_bytes n bs

-- An entry of a map: the key, then the value.
abbrev pub input_entry :
    {A B : Type 0} → (A → List ℕ → Written) → (B → List ℕ → Written) → A × B → List ℕ → Written
input_entry f g (k, v) stream = after (f k stream) (λ stream'. g v stream')

module _ (host : ByteSequence) where
  -- A `uint32_t` with a length.
  unfoldable pub length_bytes : ℕ → List ℕ
  length_bytes n = turned host (stored_bytes host 4 n)

  -- The count of a container is a `size_t`, of which four bytes are written.
  unfoldable pub count_bytes : ℕ → List ℕ
  count_bytes n = turned host (first_bytes 4 (stored_bytes host 8 n))

  unfoldable pub input_bool : Bool → List ℕ → Written
  input_bool v stream = wrote (stream ++ (bool_tag ∷ (if v then 1 else 0) ∷ []))

  unfoldable pub input_scalar : Scalar → ℕ → List ℕ → Written
  input_scalar t v stream =
      wrote (stream ++ (scalar_tag t ∷ turned host (stored_bytes host (width t) v)))

  unfoldable pub input_string : List ℕ → List ℕ → Written
  unfolding length_bytes
  input_string v stream =
      if ltb max_string_length (length v)
      then refused the_string_length_exceeds_the_limit stream
      else wrote (stream ++ (string_tag ∷ length_bytes (length v) ++ v))

  -- `char *` and `unsigned char *`, which differ in their tag.
  unfoldable pub input_bytes : ℕ → List ℕ → List ℕ → Written
  unfolding length_bytes
  input_bytes tag v stream =
      if ltb max_byte_count (length v)
      then refused the_bytes_count_exceeds_the_limit stream
      else wrote (stream ++ (tag ∷ length_bytes (length v) ++ v))

  -- A container: the tag is in the stream before the count is looked at.
  unfoldable pub input_container :
      {A : Type 0} → ℕ → ℕ → ErrorNumber → (A → List ℕ → Written) → List A → List ℕ → Written
  unfolding count_bytes
  input_container tag limit error f vs stream =
      if ltb limit (length vs)
      then refused error (stream ++ (tag ∷ []))
      else input_each f vs (stream ++ (tag ∷ count_bytes (length vs)))

  -- An array's count is copied to a `uint32_t` first; that it is below the limit is checked at compile time.
  unfoldable pub input_array : {A : Type 0} → ℕ → (A → List ℕ → Written) → List A → List ℕ → Written
  unfolding length_bytes
  input_array n f vs stream = input_each f vs (stream ++ (array_tag ∷ length_bytes n))

  -- `input` of a shape's value; for the empty tuple, the overload that writes nothing.
  unfoldable mutual
    unfolding input_bool input_scalar input_string input_bytes input_container input_array

    pub input : (s : Shape) → Value s → List ℕ → Written
    input boolean v stream = input_bool v stream
    input (scalar t) v stream = input_scalar t v stream
    input text v stream = input_string v stream
    input (bytes n) v stream = input_bytes bytes_tag v stream
    input (ubytes n) v stream = input_bytes ubytes_tag v stream
    input (vector s) v stream =
        input_container vector_tag max_vector_count the_vector_count_exceeds_the_limit (input s) v
          stream
    input (linked_list s) v stream =
        input_container list_tag max_list_count the_list_count_exceeds_the_limit (input s) v stream
    input (ordered_set s) v stream =
        input_container set_tag max_list_count the_set_size_exceeds_the_limit (input s) v stream
    input (array n s) v stream = input_array n (input s) v stream
    input (ordered_map k s) v stream =
        input_container map_tag max_map_count the_map_count_exceeds_the_limit
          (input_entry (input k) (input s)) v stream
    input (hash_map k s) v stream =
        input_container hash_map_tag max_map_count the_hash_map_count_exceeds_the_limit
          (input_entry (input k) (input s)) v stream
    input (tuple end) v stream = wrote stream
    input (tuple (field s rest)) v stream =
        let more = input_args (field s rest) v (
          stream ++ (tuple_tag ∷ turned host (stored_bytes host 2 (shape_count (field s rest))))) in
        if ltb max_tuple_count (shape_count (field s rest))
        then refused the_tuple_count_exceeds_the_limit (stream ++ (tuple_tag ∷ []))
        else more
    input (user_class ss) v stream = input_args ss v (stream ++ (class_tag ∷ []))

    pub input_args : (ss : Shapes) → Values ss → List ℕ → Written
    input_args end v stream = wrote stream
    input_args (field s rest) (v, vs) stream =
        after (input s v stream) (λ stream'. input_args rest vs stream')
