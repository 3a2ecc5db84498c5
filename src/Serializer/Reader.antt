-- ===== src/Serializer/Reader.antt =====
-- The functions `output` of include/serializer/binarySerializer.cpp and binarySerializer.h. A reader takes
-- the read position; the stream does not change.
use muse_rpc.Common.{
  ℕ, zero, suc, ◌+◌, ◌-◌, ◌==◌, ltb, if◌then◌else◌, Bool, not, List, [], ◌∷◌, Option, some, none,
  length, get_elem?,
}
use muse_rpc.Memory.{ByteSequence}
use muse_rpc.Serializer.Number.{loaded_number, turned}
use muse_rpc.Serializer.Shape.{
  Scalar, width, scalar_tag, Shape, Shapes, boolean, scalar, text, bytes, ubytes, vector,
  linked_list, ordered_set, array, ordered_map, hash_map, tuple, user_class, end, field,
  shape_count, Value, Values, ErrorNumber, data_type_error, insufficient_remaining_memory,
  illegal_string_length, illegal_bytes_count, read_illegal_bytes_count, illegal_vector_count,
  illegal_list_count, illegal_set_count, illegal_map_count, illegal_hash_map_count,
  illegal_tuple_count, illegal_parameter_tuple_count, bool_tag, string_tag, bytes_tag, ubytes_tag,
  vector_tag, list_tag, set_tag, array_tag, map_tag, hash_map_tag, tuple_tag, class_tag,
  max_string_length, max_byte_count, max_vector_count, max_list_count, max_set_count,
  max_array_count, max_map_count, max_tuple_count,
}

-- A value and the read position behind it; or the exception and the position it leaves; or an access
-- behind the stream.
pub data Read {ℓ} (A : Type ℓ) : Type ℓ where
  got : A → ℕ → Read A
  failed : ErrorNumber → ℕ → Read A
  overrun : Read A

abbrev pub next {ℓ κ} : {A : Type ℓ} {B : Type κ} → Read A → (A → ℕ → Read B) → Read B
next (got a pos) f = f a pos
next (failed why pos) f = failed why pos
next overrun f = overrun

-- `catch`: the position goes back to where the reader began.
abbrev pub restored {ℓ} : {A : Type ℓ} → ℕ → Read A → Read A
restored start (got a pos) = got a pos
restored start (failed why pos) = failed why start
restored start overrun = overrun

abbrev pub output_times {ℓ} : {A : Type ℓ} → ℕ → (ℕ → Read A) → ℕ → Read (List A)
output_times zero f pos = got [] pos
output_times (suc n) f pos =
    next (f pos) (λ v pos'. next (output_times n f pos') (λ vs pos''. got (v ∷ vs) pos''))

-- `n` bytes at a position.
abbrev pub prefix : ℕ → List ℕ → Option (List ℕ)
prefix zero bs = some []
prefix (suc n) [] = none
prefix (suc n) (b ∷ bs) = elim (prefix n bs) [ none ↦ none | some rest ↦ some (b ∷ rest) ]

abbrev pub slice : List ℕ → ℕ → ℕ → Option (List ℕ)
slice bs zero n = prefix n bs
slice [] (suc pos) n = none
slice (b ∷ bs) (suc pos) n = slice bs pos n

-- An entry of a map: the key, then the value.
abbrev pub output_entry : {A B : Type 0} → (ℕ → Read A) → (ℕ → Read B) → ℕ → Read (A × B)
output_entry f g pos = next (f pos) (λ k pos1. next (g pos1) (λ v pos2. got (k, v) pos2))

module _ (host : ByteSequence) (stream : List ℕ) where
  unfoldable pub take_bytes : ℕ → ℕ → Read (List ℕ)
  take_bytes n pos = elim (slice stream pos n) [ none ↦ overrun | some bs ↦ got bs (pos + n) ]

  -- A number of `n` bytes, of which a big-endian machine turns the bytes around.
  unfoldable pub take_number : ℕ → ℕ → Read ℕ
  unfolding take_bytes
  take_number n pos =
      next (take_bytes n pos) (λ bs pos'. got (loaded_number host (turned host bs)) pos')

  -- The tag at the position, which is passed over.
  unfoldable pub check_tag : ℕ → ℕ → Read (Unit {0})
  check_tag tag pos = elim (get_elem? stream pos) [
    | none ↦ overrun
    | some b ↦ if b == tag then got tt (pos + 1) else failed data_type_error pos
  ]

  -- MUSE_CHECK_LEGITIMACY.
  unfoldable pub check_legitimacy : ℕ → ℕ → ℕ → Read (Unit {0})
  unfolding check_tag
  check_legitimacy tag size pos =
      if ltb (length stream - pos) (1 + size)
      then failed insufficient_remaining_memory pos
      else check_tag tag pos

  unfoldable pub output_bool : ℕ → Read Bool
  unfolding check_legitimacy take_bytes
  output_bool pos =
      next (check_legitimacy bool_tag 1 pos)
        (λ _ pos1. next (take_number 1 pos1) (λ b pos2. got (not (b == 0)) pos2))

  unfoldable pub output_scalar : Scalar → ℕ → Read ℕ
  unfolding check_legitimacy take_number
  output_scalar t pos =
      next (check_legitimacy (scalar_tag t) (width t) pos) (λ _ pos1. take_number (width t) pos1)

  -- The tag and the count of `size` bytes that open all but the scalars.
  unfoldable pub output_count : ℕ → ℕ → ℕ → ErrorNumber → ℕ → Read ℕ
  unfolding check_tag take_number
  output_count tag size limit error pos =
      if pos == length stream
      then failed insufficient_remaining_memory pos
      else next (check_tag tag pos) (λ _ pos1.
        if ltb (length stream - pos1) size
        then failed insufficient_remaining_memory pos
        else next (take_number size pos1)
            (λ n pos2. if ltb limit n then failed error pos else got n pos2))

  -- The bytes behind a count: the space that is left is counted from the tag on.
  unfoldable pub output_content : ℕ → ℕ → ℕ → Read (List ℕ)
  unfolding take_bytes
  output_content start n pos =
      if ltb (length stream - start) n
      then failed insufficient_remaining_memory start
      else take_bytes n pos

  unfoldable pub output_string : ℕ → Read (List ℕ)
  unfolding output_count output_content
  output_string pos =
      next (output_count string_tag 4 max_string_length illegal_string_length pos)
        (λ n pos1. output_content pos n pos1)

  -- The position of a wrong length is not restored.
  unfoldable pub output_bytes : ℕ → ℕ → ℕ → Read (List ℕ)
  unfolding output_count output_content
  output_bytes tag len pos =
      next (output_count tag 4 max_byte_count illegal_bytes_count pos) (λ n pos1.
        if n == len then output_content pos n pos1 else failed read_illegal_bytes_count (pos + 1))

  unfoldable pub output_container :
      {A : Type 0} → ℕ → ℕ → ErrorNumber → (ℕ → Read A) → ℕ → Read (List A)
  unfolding output_count
  output_container tag limit error f pos =
      next (output_count tag 4 limit error pos) (λ n pos1. restored pos (output_times n f pos1))

  -- Into an array of `size` elements, which a larger count runs over.
  unfoldable pub output_array : {A : Type 0} → ℕ → (ℕ → Read A) → ℕ → Read (List A)
  unfolding output_count
  output_array size f pos =
      next (output_count array_tag 4 max_array_count illegal_vector_count pos) (λ n pos1.
        restored pos (
          if ltb size n
          then next (output_times size f pos1) (λ _ _. overrun)
          else output_times n f pos1))

  unfoldable mutual
    unfolding output_bool output_scalar output_string output_bytes output_container output_array
        output_count check_tag

    pub output : (s : Shape) → ℕ → Read (Value s)
    output boolean pos = output_bool pos
    output (scalar t) pos = output_scalar t pos
    output text pos = output_string pos
    output (bytes n) pos = output_bytes bytes_tag n pos
    output (ubytes n) pos = output_bytes ubytes_tag n pos
    output (vector s) pos =
        output_container vector_tag max_vector_count illegal_vector_count (output s) pos
    output (linked_list s) pos =
        output_container list_tag max_list_count illegal_list_count (output s) pos
    output (ordered_set s) pos =
        output_container set_tag max_set_count illegal_set_count (output s) pos
    output (array n s) pos = output_array n (output s) pos
    output (ordered_map k s) pos =
        output_container map_tag max_map_count illegal_map_count
          (output_entry (output k) (output s)) pos
    output (hash_map k s) pos =
        output_container hash_map_tag max_map_count illegal_hash_map_count
          (output_entry (output k) (output s)) pos
    output (tuple end) pos = got tt pos
    output (tuple (field s rest)) pos =
        next (output_count tuple_tag 2 max_tuple_count illegal_tuple_count pos) (λ n pos1.
          let more = output_args (field s rest) pos1 in
          if n == shape_count (field s rest)
          then restored pos more
          else failed illegal_parameter_tuple_count pos)
    output (user_class ss) pos =
        let more = next (check_tag class_tag pos) (λ _ pos1. output_args ss pos1) in
        if pos == length stream then failed insufficient_remaining_memory pos else more

    pub output_args : (ss : Shapes) → ℕ → Read (Values ss)
    output_args end pos = got tt pos
    output_args (field s rest) pos =
        next (output s pos) (λ v pos1. next (output_args rest pos1) (λ vs pos2. got (v, vs) pos2))
