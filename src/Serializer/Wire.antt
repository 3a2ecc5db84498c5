-- ===== src/Serializer/Wire.antt =====
-- The wire format of include/serializer/binarySerializer.cpp and binarySerializer.h, apart from any
-- machine, and the places of its bytes in a stream.
use muse_rpc.Common.{
  ℕ, zero, suc, ◌+◌, ◌^◌, ◌<◌, ◌≤◌, ◌≡◌, refl, ap, ◌∙◌, if◌then◌else◌, List, [], ◌∷◌, ◌++◌, some,
  length, length-append, get_elem?, arith,
}
use muse_rpc.Memory.{ByteSequence}
use muse_rpc.Serializer.Number.{
  low_bytes, loaded_number-turned, number_of-low_bytes, length-low_bytes,
}
use muse_rpc.Serializer.Shape.{
  width, scalar_tag, Shape, Shapes, boolean, scalar, text, bytes, ubytes, vector, linked_list,
  ordered_set, array, ordered_map, hash_map, set_tag, array_tag, map_tag, hash_map_tag, tuple,
  user_class, end, field, shape_count, Value, Values, ErrorNumber, bool_tag, string_tag, bytes_tag,
  ubytes_tag, vector_tag, list_tag, tuple_tag, class_tag,
}
use muse_rpc.Serializer.Reader.{
  got, prefix, slice, take_bytes, take_number, check_tag, check_legitimacy, output_count,
  output_content,
}

abbrev pub encoding_each {ℓ} : {A : Type ℓ} → (A → List ℕ) → List A → List ℕ
encoding_each f [] = []
encoding_each f (v ∷ vs) = f v ++ encoding_each f vs

abbrev pub encoding_entry : {A B : Type 0} → (A → List ℕ) → (B → List ℕ) → A × B → List ℕ
encoding_entry f g (k, v) = f k ++ g v

-- Every number with its lowest byte first.
abbrev mutual
  pub encoding : (s : Shape) → Value s → List ℕ
  encoding boolean v = bool_tag ∷ (if v then 1 else 0) ∷ []
  encoding (scalar t) v = scalar_tag t ∷ low_bytes (width t) v
  encoding text v = string_tag ∷ low_bytes 4 (length v) ++ v
  encoding (bytes n) v = bytes_tag ∷ low_bytes 4 n ++ v
  encoding (ubytes n) v = ubytes_tag ∷ low_bytes 4 n ++ v
  encoding (vector s) v = vector_tag ∷ low_bytes 4 (length v) ++ encoding_each (encoding s) v
  encoding (linked_list s) v = list_tag ∷ low_bytes 4 (length v) ++ encoding_each (encoding s) v
  encoding (ordered_set s) v = set_tag ∷ low_bytes 4 (length v) ++ encoding_each (encoding s) v
  encoding (array n s) v = array_tag ∷ low_bytes 4 n ++ encoding_each (encoding s) v
  encoding (ordered_map k s) v =
      map_tag ∷ low_bytes 4 (length v) ++ encoding_each (encoding_entry (encoding k) (encoding s)) v
  encoding (hash_map k s) v =
      hash_map_tag ∷ low_bytes 4 (length v)
      ++ encoding_each (encoding_entry (encoding k) (encoding s)) v
  encoding (tuple end) v = []
  encoding (tuple (field s rest)) v =
      tuple_tag ∷ low_bytes 2 (shape_count (field s rest)) ++ encodings (field s rest) v
  encoding (user_class ss) v = class_tag ∷ encodings ss v

  pub encodings : (ss : Shapes) → Values ss → List ℕ
  encodings end v = []
  encodings (field s rest) (v, vs) = encoding s v ++ encodings rest vs

pub slice-append :
    (pre xs : List ℕ) (i k n : ℕ) → i ≡ length pre + k → slice (pre ++ xs) i n ≡ slice xs k n
slice-append [] xs i k n e = ap (λ j. slice xs j n) (omega arith)
slice-append (b ∷ pre) xs zero k n e = absurd (omega arith)
slice-append (b ∷ pre) xs (suc i) k n e = slice-append pre xs i k n (omega arith)

get_elem?-append : (pre xs : List ℕ) → get_elem? (pre ++ xs) (length pre) ≡ get_elem? xs 0
get_elem?-append [] xs = refl
get_elem?-append (b ∷ pre) xs = get_elem?-append pre xs

prefix-append : (bs rest : List ℕ) (n : ℕ) → length bs ≡ n → prefix n (bs ++ rest) ≡ some bs
prefix-append [] rest zero h = refl
prefix-append [] rest (suc n) h = absurd (omega (arith, h))
prefix-append (b ∷ bs) rest zero h = absurd (omega (arith, h))
prefix-append (b ∷ bs) rest (suc n) h = rw (prefix-append bs rest n (omega (arith, h))) refl

module _ (host : ByteSequence) (pre : List ℕ) where
  -- Bytes of the stream from a place behind `pre` on.
  take_bytes_at :
      (xs bs : List ℕ) (k n : ℕ)
      → slice xs k n ≡ some bs
      → take_bytes host (pre ++ xs) n (length pre + k) ≡ got bs (length pre + k + n)
  unfolding take_bytes
  take_bytes_at xs bs k n h =
      rw (slice-append pre xs (length pre + k) k n refl, take_bytes) (rw h refl)

  pub take_number_behind :
      (tag w v : ℕ) (rest : List ℕ)
      → v < 256 ^ w
      → take_number host (pre ++ (tag ∷ (low_bytes w v ++ rest))) w (length pre + 1)
        ≡ got v (length pre + 1 + w)
  unfolding take_number
  take_number_behind tag w v rest h =
      let read =
        take_bytes_at (tag ∷ (low_bytes w v ++ rest)) (low_bytes w v) 1 w
          (prefix-append (low_bytes w v) rest w (length-low_bytes w v)) in
      rw (read, take_number)
        (ap (λ m. got m (length pre + 1 + w))
          (loaded_number-turned host (low_bytes w v) ∙ number_of-low_bytes w v h))

  pub check_tag_at :
      (tag : ℕ) (rest : List ℕ)
      → check_tag host (pre ++ (tag ∷ rest)) tag (length pre) ≡ got tt (length pre + 1)
  unfolding check_tag
  check_tag_at tag rest = rw (get_elem?-append pre (tag ∷ rest), check_tag) (ground arith)

  pub length_behind :
      (tag w v : ℕ) (rest : List ℕ)
      → length (pre ++ (tag ∷ (low_bytes w v ++ rest))) ≡ length pre + 1 + w + length rest
  length_behind tag w v rest = omega (
    arith,
    length-append pre (tag ∷ (low_bytes w v ++ rest)),
    length-append (low_bytes w v) rest,
    length-low_bytes w v,
  )

  pub check_legitimacy_at :
      (tag w v : ℕ) (rest : List ℕ)
      → check_legitimacy host (pre ++ (tag ∷ (low_bytes w v ++ rest))) tag w (length pre)
        ≡ got tt (length pre + 1)
  unfolding check_legitimacy
  check_legitimacy_at tag w v rest =
      rw (check_tag_at tag (low_bytes w v ++ rest), check_legitimacy)
        (ground (arith, length_behind tag w v rest))

  pub output_count_at :
      (tag w v limit : ℕ) (error : ErrorNumber) (rest : List ℕ)
      → v < 256 ^ w
      → v ≤ limit
      → output_count host (pre ++ (tag ∷ (low_bytes w v ++ rest))) tag w limit error (length pre)
        ≡ got v (length pre + 1 + w)
  unfolding output_count
  output_count_at tag w v limit error rest h k =
      rw (check_tag_at tag (low_bytes w v ++ rest), output_count)
        (rw (take_number_behind tag w v rest h) (ground (arith, length_behind tag w v rest)))

  -- A count and so many bytes behind it.
  pub output_content_at :
      (tag w v : ℕ) (bs rest : List ℕ) (n : ℕ)
      → length bs ≡ n
      → output_content host
          (pre ++ (tag ∷ (low_bytes w v ++ (bs ++ rest))))
          (length pre)
          n
          (length pre + 1 + w)
        ≡ got bs (length pre + 1 + w + n)
  unfolding output_content
  output_content_at tag w v bs rest n h =
      let inside : slice (tag ∷ (low_bytes w v ++ (bs ++ rest))) (1 + w) n ≡ some bs =
        slice-append (tag ∷ low_bytes w v) (bs ++ rest) (1 + w) 0 n
          (omega (arith, length-low_bytes w v))
        ∙ prefix-append bs rest n h in
      let place : length pre + (1 + w) ≡ length pre + 1 + w = omega arith in
      let read =
        rw place at (take_bytes_at (tag ∷ (low_bytes w v ++ (bs ++ rest))) bs (1 + w) n inside) in
      rw (read, output_content)
        (ground (arith, length_behind tag w v (bs ++ rest), length-append bs rest))
