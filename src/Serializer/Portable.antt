-- ===== src/Serializer/Portable.antt =====
-- Streams between machines: what one machine writes with include/serializer/binarySerializer.h, another reads.
use muse_rpc.Common.{
  ℕ, ◌+◌, ◌≤◌, ◌≡◌, refl, ap, sym, ◌∙◌, ltb, if◌then◌else◌, Bool, false, List, [], ◌∷◌, ◌++◌,
  length, All, arith,
}
use mathlib.Core.List.{append-nil, append_assoc}
use muse_rpc.Memory.{ByteSequence, big_endian, little_endian}
use muse_rpc.Serializer.Number.{low_bytes, turned-stored_bytes}
use muse_rpc.Serializer.Shape.{
  width, Shape, Shapes, boolean, scalar, text, bytes, ubytes, vector, linked_list, ordered_set,
  array, ordered_map, hash_map, set_tag, array_tag, map_tag, hash_map_tag, max_map_count,
  the_set_size_exceeds_the_limit, the_map_count_exceeds_the_limit,
  the_hash_map_count_exceeds_the_limit, tuple, user_class, end, field, shape_count, Value, Values,
  Fits, Fit, ErrorNumber, bytes_tag, ubytes_tag, vector_tag, list_tag, tuple_tag, class_tag,
  scalar_tag, max_tuple_count, max_string_length, max_byte_count, max_vector_count, max_list_count,
  the_vector_count_exceeds_the_limit, the_list_count_exceeds_the_limit, illegal_vector_count,
}
use muse_rpc.Serializer.Writer.{
  Written, wrote, input_each, length_bytes, count_bytes, input_bool, input_scalar, input_string,
  input_bytes, input_container, input_array, input_entry, input, input_args,
}
use muse_rpc.Serializer.Reader.{got, output, output_container}
use muse_rpc.Serializer.Wire.{encoding, encodings, encoding_each, encoding_entry, output_count_at}
use muse_rpc.Serializer.RoundTrip.{output-Takes}

-- A writer appends these bytes.
abbrev pub Puts : (List ℕ → Written) → List ℕ → Type 0
Puts f bs = (stream : List ℕ) → f stream ≡ wrote (stream ++ bs)

-- A big-endian machine writes no vectors, lists, sets and maps.
abbrev mutual
  pub KeepsCounts : ByteSequence → Shape → Type 0
  KeepsCounts host (vector s) = (host ≡ little_endian) × KeepsCounts host s
  KeepsCounts host (linked_list s) = (host ≡ little_endian) × KeepsCounts host s
  KeepsCounts host (ordered_set s) = (host ≡ little_endian) × KeepsCounts host s
  KeepsCounts host (array n s) = KeepsCounts host s
  KeepsCounts host (ordered_map k s) =
      (host ≡ little_endian) × KeepsCounts host k × KeepsCounts host s
  KeepsCounts host (hash_map k s) = (host ≡ little_endian) × KeepsCounts host k × KeepsCounts host s
  KeepsCounts host (tuple ss) = KeepCounts host ss
  KeepsCounts host (user_class ss) = KeepCounts host ss
  KeepsCounts host s = Unit {0}

  pub KeepCounts : ByteSequence → Shapes → Type 0
  KeepCounts host end = Unit {0}
  KeepCounts host (field s rest) = KeepsCounts host s × KeepCounts host rest

elim_limit : (b : Bool) (x y : Written) → b ≡ false → (if b then x else y) ≡ y
elim_limit b x y h = rw h refl

input_each-Puts :
    {A : Type 0} (f : A → List ℕ → Written) (encode : A → List ℕ) (P : A → Type 0)
    → ((v : A) → P v → Puts (f v) (encode v))
    → (vs : List A) → All P vs
    → Puts (input_each f vs) (encoding_each encode vs)
input_each-Puts f encode P h [] k stream = ap wrote (sym (append-nil stream))
input_each-Puts f encode P h (v ∷ vs) (k, ks) stream = rw (h v k stream) (
    input_each-Puts f encode P h vs ks (stream ++ encode v)
    ∙ ap wrote (append_assoc stream (encode v) (encoding_each encode vs)))

input_entry-Puts :
    {A B : Type 0} (f : A → List ℕ → Written) (g : B → List ℕ → Written) (encode : A → List ℕ)
    (encode' : B → List ℕ) (P : A → Type 0) (Q : B → Type 0)
    → ((v : A) → P v → Puts (f v) (encode v))
    → ((v : B) → Q v → Puts (g v) (encode' v))
    → (e : A × B) → P e.0 × Q e.1
    → Puts (input_entry f g e) (encoding_entry encode encode' e)
input_entry-Puts f g encode encode' P Q h k (x, y) (p, q) stream =
    rw (h x p stream)
      (k y q (stream ++ encode x) ∙ ap wrote (append_assoc stream (encode x) (encode' y)))

module _ (host : ByteSequence) where
  length_bytes_lem : (n : ℕ) → length_bytes host n ≡ low_bytes 4 n
  unfolding length_bytes
  length_bytes_lem n = turned-stored_bytes host 4 n

  input_string-Puts :
      (v : List ℕ) → length v ≤ max_string_length → Puts (input_string host v) (encoding text v)
  unfolding input_string
  input_string-Puts v h stream = rw (length_bytes_lem (length v), input_string) (ground arith)

  input_bytes-Puts :
      (tag n : ℕ) (v : List ℕ)
      → length v ≡ n
      → n ≤ max_byte_count
      → Puts (input_bytes host tag v) (tag ∷ (low_bytes 4 n ++ v))
  unfolding input_bytes
  input_bytes-Puts tag n v e h stream =
      rw (sym e) (rw (length_bytes_lem (length v), input_bytes) (ground arith))

  input_container-Puts :
      {A : Type 0} (tag limit : ℕ) (error : ErrorNumber) (f : A → List ℕ → Written)
      (encode : A → List ℕ) (P : A → Type 0) (count : List ℕ)
      → ((v : A) → P v → Puts (f v) (encode v))
      → (vs : List A) → length vs ≤ limit
      → All P vs
      → count_bytes host (length vs) ≡ count
      → Puts (input_container host tag limit error f vs) (tag ∷ (count ++ encoding_each encode vs))
  unfolding input_container
  input_container-Puts tag limit error f encode P count h vs k a e stream =
      rw (e, input_container)
        (elim_limit (ltb limit (length vs)) _ _ (ground arith)
          ∙ input_each-Puts f encode P h vs a (stream ++ (tag ∷ count))
          ∙ ap wrote (append_assoc stream (tag ∷ count) (encoding_each encode vs)))

  count_little : (n : ℕ) → host ≡ little_endian → count_bytes host n ≡ low_bytes 4 n
  unfolding count_bytes
  count_little n e = rw e refl

  input_array-Puts :
      {A : Type 0} (n : ℕ) (f : A → List ℕ → Written) (encode : A → List ℕ) (P : A → Type 0)
      → ((v : A) → P v → Puts (f v) (encode v))
      → (vs : List A) → All P vs
      → Puts (input_array host n f vs) (array_tag ∷ (low_bytes 4 n ++ encoding_each encode vs))
  unfolding input_array
  input_array-Puts n f encode P h vs a stream =
      rw (length_bytes_lem n, input_array)
        (input_each-Puts f encode P h vs a (stream ++ (array_tag ∷ low_bytes 4 n))
          ∙ ap wrote (append_assoc stream (array_tag ∷ low_bytes 4 n) (encoding_each encode vs)))

  mutual
    unfolding input input_bool input_scalar

    input-Puts :
        (s : Shape) (v : Value s)
        → Fits s v
        → KeepsCounts host s
        → Puts (input host s v) (encoding s v)
    input-Puts boolean v h k stream = refl
    input-Puts (scalar t) v h k stream =
        ap (λ bs. wrote (stream ++ (scalar_tag t ∷ bs))) (turned-stored_bytes host (width t) v)
    input-Puts text v h k stream = input_string-Puts v h stream
    input-Puts (bytes n) v (e, h) k stream = input_bytes-Puts bytes_tag n v e h stream
    input-Puts (ubytes n) v (e, h) k stream = input_bytes-Puts ubytes_tag n v e h stream
    input-Puts (vector s) v (h, a) (e, k) stream =
        input_container-Puts vector_tag max_vector_count the_vector_count_exceeds_the_limit
          (input host s) (encoding s) (Fits s) (low_bytes 4 (length v))
          (λ x fits. input-Puts s x fits k) v h a (count_little (length v) e) stream
    input-Puts (linked_list s) v (h, a) (e, k) stream =
        input_container-Puts list_tag max_list_count the_list_count_exceeds_the_limit (input host s)
          (encoding s) (Fits s) (low_bytes 4 (length v)) (λ x fits. input-Puts s x fits k) v h a
          (count_little (length v) e) stream
    input-Puts (ordered_set s) v (h, a) (e, k) stream =
        input_container-Puts set_tag max_list_count the_set_size_exceeds_the_limit (input host s)
          (encoding s) (Fits s) (low_bytes 4 (length v)) (λ x fits. input-Puts s x fits k) v h a
          (count_little (length v) e) stream
    input-Puts (array n s) v (e, h, a) k stream =
        input_array-Puts n (input host s) (encoding s) (Fits s) (λ x fits. input-Puts s x fits k) v
          a stream
    input-Puts (ordered_map k s) v (h, a) (e, l, m) stream =
        input_container-Puts map_tag max_map_count the_map_count_exceeds_the_limit
          (input_entry (input host k) (input host s)) (encoding_entry (encoding k) (encoding s))
          (λ e. Fits k e.0 × Fits s e.1) (low_bytes 4 (length v))
          (input_entry-Puts (input host k) (input host s) (encoding k) (encoding s) (Fits k)
            (Fits s) (λ x fits. input-Puts k x fits l) (λ x fits. input-Puts s x fits m))
          v h a (count_little (length v) e) stream
    input-Puts (hash_map k s) v (h, a) (e, l, m) stream =
        input_container-Puts hash_map_tag max_map_count the_hash_map_count_exceeds_the_limit
          (input_entry (input host k) (input host s)) (encoding_entry (encoding k) (encoding s))
          (λ e. Fits k e.0 × Fits s e.1) (low_bytes 4 (length v))
          (input_entry-Puts (input host k) (input host s) (encoding k) (encoding s) (Fits k)
            (Fits s) (λ x fits. input-Puts k x fits l) (λ x fits. input-Puts s x fits m))
          v h a (count_little (length v) e) stream
    input-Puts (tuple end) v h k stream = ap wrote (sym (append-nil stream))
    input-Puts (tuple (field s rest)) v (h, a) k stream =
        elim_limit (ltb max_tuple_count (shape_count (field s rest))) _ _ (ground arith)
        ∙ ap (λ bs. input_args host (field s rest) v (stream ++ (tuple_tag ∷ bs)))
            (turned-stored_bytes host 2 (shape_count (field s rest)))
        ∙ input_args-Puts (field s rest) v a k
            (stream ++ (tuple_tag ∷ low_bytes 2 (shape_count (field s rest))))
        ∙ ap wrote (
            append_assoc stream (tuple_tag ∷ low_bytes 2 (shape_count (field s rest)))
              (encodings (field s rest) v))
    input-Puts (user_class ss) v h k stream =
        input_args-Puts ss v h k (stream ++ (class_tag ∷ []))
        ∙ ap wrote (append_assoc stream (class_tag ∷ []) (encodings ss v))

    pub input_args-Puts :
        (ss : Shapes) (v : Values ss)
        → Fit ss v
        → KeepCounts host ss
        → Puts (input_args host ss v) (encodings ss v)
    input_args-Puts end v h k stream = ap wrote (sym (append-nil stream))
    input_args-Puts (field s rest) (v, vs) (h, hs) (k, ks) stream = rw (input-Puts s v h k stream) (
        input_args-Puts rest vs hs ks (stream ++ encoding s v)
        ∙ ap wrote (append_assoc stream (encoding s v) (encodings rest vs)))

-- What the machines `writer` and `reader` make of a value that the limits allow: the bytes are those of
-- the wire format, behind what the stream held, and `reader` finds the value again, whatever follows.
abbrev pub RoundTrips :
    ByteSequence → ByteSequence → (s : Shape) → Value s → List ℕ → List ℕ → Type 0
RoundTrips writer reader s v stream rest =
    (input writer s v stream ≡ wrote (stream ++ encoding s v))
    × (output reader (stream ++ (encoding s v ++ rest)) s (length stream)
        ≡ got v (length stream + length (encoding s v)))

-- Take a value that the serializer's limits allow, of numbers, strings, byte arrays, vectors, lists, arrays,
-- sets, maps, tuples and user classes in any nesting. A machine appends its encoding to the stream, lowest
-- byte first on every machine, and a machine of either byte order reads exactly that value back, with any
-- bytes before and behind it, and ends at the end of the encoding. The writer must be little-endian, or the
-- value without vectors, lists, sets and maps.
pub round_trip :
    (writer reader : ByteSequence) (s : Shape) (v : Value s) (stream rest : List ℕ)
    → Fits s v
    → KeepsCounts writer s
    → RoundTrips writer reader s v stream rest
round_trip writer reader s v stream rest h k =
    (input-Puts writer s v h k stream, output-Takes reader s v h stream rest)

-- Vectors, lists: a big-endian machine writes the upper four bytes of their count.
abbrev pub IsLost : ByteSequence → (s : Shape) → List (Value s) → List ℕ → List ℕ → Type 0
IsLost reader s vs stream rest =
    (written : List ℕ) × (input big_endian (vector s) vs stream ≡ wrote (stream ++ written))
    × (output reader (stream ++ (written ++ rest)) (vector s) (length stream)
        ≡ got [] (length stream + 5))

upper_bytes : (n : ℕ) → n ≤ max_vector_count → count_bytes big_endian n ≡ 0 ∷ 0 ∷ 0 ∷ 0 ∷ []
unfolding count_bytes
upper_bytes n h = ground arith

-- A big-endian machine writes a vector of any length that the limit allows, and any machine reads it back as
-- the empty one: of the eight bytes of the count it writes the upper four, which are 0. The elements hold no
-- vectors, lists, sets and maps themselves.
pub vector-IsLost :
    (reader : ByteSequence) (s : Shape) (vs : List (Value s)) (stream rest : List ℕ)
    → Fits (vector s) vs
    → KeepsCounts big_endian s
    → IsLost reader s vs stream rest
unfolding input output output_container
vector-IsLost reader s vs stream rest (h, a) k = (
  vector_tag ∷ (0 ∷ 0 ∷ 0 ∷ 0 ∷ []) ++ encoding_each (encoding s) vs,
  input_container-Puts big_endian vector_tag max_vector_count the_vector_count_exceeds_the_limit
      (input big_endian s) (encoding s) (Fits s) (0 ∷ 0 ∷ 0 ∷ 0 ∷ [])
      (λ x fits. input-Puts big_endian s x fits k) vs h a (upper_bytes (length vs) h) stream,
  rw
      (
        output_count_at reader stream vector_tag 4 0 max_vector_count illegal_vector_count
            (encoding_each (encoding s) vs ++ rest) (omega arith) (omega arith),
        output_container,
      )
      (ap (λ pos. got [] pos) (omega arith)),
)
