-- ===== src/Serializer/RoundTrip.antt =====
-- What include/serializer/binarySerializer.h writes, it reads back.
use muse_rpc.Common.{
  ℕ, ◌+◌, ◌^◌, ◌<◌, ◌≤◌, ◌≡◌, ap, ◌∙◌, List, [], ◌∷◌, ◌++◌, length, length-append, All, arith,
}
use muse_rpc.Memory.{ByteSequence}
use muse_rpc.Serializer.Number.{low_bytes}
use muse_rpc.Serializer.Shape.{
  Shape, Shapes, boolean, scalar, text, bytes, ubytes, vector, linked_list, ordered_set, array,
  ordered_map, hash_map, set_tag, array_tag, map_tag, hash_map_tag, max_set_count, max_array_count,
  max_map_count, illegal_set_count, illegal_map_count, illegal_hash_map_count, tuple, user_class,
  end, field, shape_count, Value, Values, Fits, Fit, ErrorNumber, bytes_tag, ubytes_tag, vector_tag,
  list_tag, tuple_tag, class_tag, max_vector_count, max_list_count, max_tuple_count,
  illegal_vector_count, illegal_list_count, illegal_tuple_count,
}
use muse_rpc.Serializer.Reader.{
  Read, got, restored, output_times, output_container, output_array, output_entry, output,
  output_args,
}
use muse_rpc.Serializer.Wire.{
  encoding, encodings, encoding_each, encoding_entry, check_tag_at, output_count_at,
}
use muse_rpc.Serializer.Takes.{
  Takes, output_bool-Takes, output_scalar-Takes, output_string-Takes, output_bytes-Takes,
  next-Takes, output_times-Takes, if_same, not_more, entry-Takes, behind,
}

module _ (host : ByteSequence) where
  output_container-Takes :
      {A : Type 0} (tag limit : ℕ) (error : ErrorNumber) (f : List ℕ → ℕ → Read A)
      (encode : A → List ℕ) (P : A → Type 0)
      → ((v : A) → P v → Takes f (encode v) v)
      → limit < 2 ^ 32
      → (vs : List A) → length vs ≤ limit
      → All P vs
      → Takes
          (λ stream. output_container host stream tag limit error (f stream))
          (tag ∷ (low_bytes 4 (length vs) ++ encoding_each encode vs))
          vs
  unfolding output_container
  output_container-Takes tag limit error f encode P h small vs k a pre rest =
      rw
        (
          output_count_at host pre tag 4 (length vs) limit error (encoding_each encode vs ++ rest)
              (omega arith) k,
          output_container,
        )
        (rw
          (behind (λ stream pos. output_times (length vs) (f stream) pos) (encoding_each encode vs)
            vs (output_times-Takes f encode P h vs a) pre (tag ∷ low_bytes 4 (length vs)) rest
            (length pre + 1 + 4) (omega arith))
          (ap (λ pos. got vs pos) (omega arith)))

  output_array-Takes :
      {A : Type 0} (n : ℕ) (f : List ℕ → ℕ → Read A) (encode : A → List ℕ) (P : A → Type 0)
      → ((v : A) → P v → Takes f (encode v) v)
      → n < max_array_count
      → (vs : List A) → length vs ≡ n
      → All P vs
      → Takes
          (λ stream. output_array host stream n (f stream))
          (array_tag ∷ (low_bytes 4 n ++ encoding_each encode vs))
          vs
  unfolding output_array
  output_array-Takes n f encode P h small vs e a pre rest =
      let elements =
        behind (λ stream pos. output_times (length vs) (f stream) pos) (encoding_each encode vs) vs
          (output_times-Takes f encode P h vs a) pre (array_tag ∷ low_bytes 4 n) rest
          (length pre + 1 + 4) (omega arith) in
      rw
        (
          output_count_at host pre array_tag 4 n max_array_count illegal_vector_count
              (encoding_each encode vs ++ rest) (omega arith) (omega arith),
          output_array,
        )
        (ap (restored (length pre)) (not_more n _ _)
          ∙ ap (restored (length pre)) (rw e at elements)
          ∙ ap (λ pos. got vs pos) (omega arith))

  mutual
    unfolding output

    pub output-Takes :
        (s : Shape) (v : Value s)
        → Fits s v
        → Takes (λ stream. output host stream s) (encoding s v) v
    output-Takes boolean v h = output_bool-Takes host v
    output-Takes (scalar t) v h = output_scalar-Takes host t v h
    output-Takes text v h = output_string-Takes host v h
    output-Takes (bytes n) v (e, h) = output_bytes-Takes host bytes_tag n v e h
    output-Takes (ubytes n) v (e, h) = output_bytes-Takes host ubytes_tag n v e h
    output-Takes (vector s) v (k, a) =
        output_container-Takes vector_tag max_vector_count illegal_vector_count
          (λ stream. output host stream s) (encoding s) (Fits s) (output-Takes s) (omega arith) v k
          a
    output-Takes (linked_list s) v (k, a) =
        output_container-Takes list_tag max_list_count illegal_list_count
          (λ stream. output host stream s) (encoding s) (Fits s) (output-Takes s) (omega arith) v k
          a
    output-Takes (ordered_set s) v (k, a) =
        output_container-Takes set_tag max_set_count illegal_set_count
          (λ stream. output host stream s) (encoding s) (Fits s) (output-Takes s) (omega arith) v k
          a
    output-Takes (array n s) v (e, h, a) =
        output_array-Takes n (λ stream. output host stream s) (encoding s) (Fits s) (output-Takes s)
          h v e a
    output-Takes (ordered_map k s) v (h, a) =
        output_container-Takes map_tag max_map_count illegal_map_count
          (λ stream. output_entry (output host stream k) (output host stream s))
          (encoding_entry (encoding k) (encoding s)) (λ e. Fits k e.0 × Fits s e.1)
          (entry-Takes (λ stream. output host stream k) (λ stream. output host stream s)
            (encoding k) (encoding s) (Fits k) (Fits s) (output-Takes k) (output-Takes s))
          (omega arith) v h a
    output-Takes (hash_map k s) v (h, a) =
        output_container-Takes hash_map_tag max_map_count illegal_hash_map_count
          (λ stream. output_entry (output host stream k) (output host stream s))
          (encoding_entry (encoding k) (encoding s)) (λ e. Fits k e.0 × Fits s e.1)
          (entry-Takes (λ stream. output host stream k) (λ stream. output host stream s)
            (encoding k) (encoding s) (Fits k) (Fits s) (output-Takes k) (output-Takes s))
          (omega arith) v h a
    output-Takes (tuple end) v h = λ pre rest. ap (λ pos. got v pos) (omega arith)
    output-Takes (tuple (field s rest)) v (k, a) = λ pre more.
        let args =
          behind (λ stream. output_args host stream (field s rest)) (encodings (field s rest) v) v
            (output_args-Takes (field s rest) v a) pre
            (tuple_tag ∷ low_bytes 2 (shape_count (field s rest))) more (length pre + 1 + 2)
            (omega arith) in
        rw
          (output_count_at host pre tuple_tag 2 (shape_count (field s rest)) max_tuple_count
            illegal_tuple_count (encodings (field s rest) v ++ more) (omega arith) k)
          (if_same (shape_count (field s rest))
              (restored (length pre) (
                output_args host (pre ++ (encoding (tuple (field s rest)) v ++ more)) (field s rest)
                  (length pre + 1 + 2)))
              _
            ∙ ap (restored (length pre)) args
            ∙ ap (λ pos. got v pos) (omega arith))
    output-Takes (user_class ss) v h = λ pre more.
        let args =
          behind (λ stream. output_args host stream ss) (encodings ss v) v
            (output_args-Takes ss v h) pre (class_tag ∷ []) more (length pre + 1) (omega arith) in
        rw (check_tag_at host pre class_tag (encodings ss v ++ more))
          (rw args (ground (arith, length-append pre (class_tag ∷ (encodings ss v ++ more)))))

    output_args-Takes :
        (ss : Shapes) (v : Values ss)
        → Fit ss v
        → Takes (λ stream. output_args host stream ss) (encodings ss v) v
    output_args-Takes end v h = λ pre rest. ap (λ pos. got v pos) (omega arith)
    output_args-Takes (field s rest) (v, vs) (h, hs) =
        next-Takes (λ stream. output host stream s) (λ stream. output_args host stream rest)
          (encoding s v) (encodings rest vs) (λ x y. (x, y)) (output-Takes s v h)
          (output_args-Takes rest vs hs)
