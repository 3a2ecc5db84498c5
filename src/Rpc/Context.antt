-- ===== src/Rpc/Context.antt =====
-- The arguments that `triggerTask` of include/rpc/server/sub_reactor.cpp adds to a request, as docs/use/use_IP_PORT.md
-- says: the client's address and port, behind those of the caller.
use muse_rpc.Common.{
  ℕ, zero, ◌+◌, ◌%◌, ◌^◌, ◌<◌, ◌≤◌, ◌≡◌, refl, sym, ap, ◌∙◌, ◌==◌, true, false, List, [], ◌∷◌, ◌++◌,
  length, length-append, ok, arith,
}
use mathlib.Core.List.{append_assoc, append-nil}
use muse_rpc.Memory.{ByteSequence}
use muse_rpc.Serializer.Shape.{
  Shape, Shapes, text, tuple, end, field, shape_count, max_tuple_count, tuple_tag, Values, Fits,
  Fit,
}
use muse_rpc.Serializer.Number.{
  low_bytes, loaded_number, turned, turned-stored_bytes, loaded_number-turned, number_of-low_bytes,
}
use muse_rpc.Serializer.Wire.{encoding, encodings}
use muse_rpc.Serializer.Writer.{input, input_args}
use muse_rpc.Serializer.Portable.{round_trip, input_args-Puts}
use muse_rpc.Rpc.Header.{written}
use muse_rpc.Rpc.Calls.{request_bytes}
use muse_rpc.Rpc.Trigger.{context_shapes, context_values, returns, lengthen, add_context}

-- The parameters of a method that is told the client's address, and its arguments.
abbrev pub with_context : Shapes → Shapes
with_context end = context_shapes
with_context (field s rest) = field s (with_context rest)

abbrev pub context_args : (params : Shapes) → Values params → ℕ → ℕ → Values (with_context params)
context_args end args ip port = context_values ip port
context_args (field s rest) (v, vs) ip port = (v, context_args rest vs ip port)

count_with_context : (params : Shapes) → shape_count (with_context params) ≡ shape_count params + 2
count_with_context end = refl
count_with_context (field s rest) = omega (arith, count_with_context rest)

context_args-Fit :
    (params : Shapes) (args : Values params) (ip port : ℕ)
    → Fit params args
    → ip < 2 ^ 32
    → port < 2 ^ 16
    → Fit (with_context params) (context_args params args ip port)
context_args-Fit end args ip port h i p = (i, (p, tt))
context_args-Fit (field s rest) (v, vs) ip port (h, hs) i p =
    (h, context_args-Fit rest vs ip port hs i p)

Fits-Fit : (params : Shapes) (args : Values params) → Fits (tuple params) args → Fit params args
Fits-Fit params args h = h.1

pub context_args-Fits :
    (params : Shapes) (args : Values params) (ip port : ℕ)
    → Fits (tuple params) args
    → shape_count params + 2 ≤ max_tuple_count
    → ip < 2 ^ 32
    → port < 2 ^ 16
    → Fits (tuple (with_context params)) (context_args params args ip port)
context_args-Fits params args ip port h few i p = (
  omega (arith, count_with_context params),
  context_args-Fit params args ip port (Fits-Fit params args h) i p,
)

encodings-context_args :
    (params : Shapes) (args : Values params) (ip port : ℕ)
    → encodings (with_context params) (context_args params args ip port)
      ≡ encodings params args ++ encodings context_shapes (context_values ip port)
encodings-context_args end args ip port = refl
encodings-context_args (field s rest) (v, vs) ip port =
    ap {B = List ℕ} (λ bs. encoding s v ++ bs) (encodings-context_args rest vs ip port)
    ∙ sym (
        append_assoc (encoding s v) (encodings rest vs)
          (encodings context_shapes (context_values ip port)))

tuple_bytes :
    (s : Shape) (rest : Shapes) (args : Values (field s rest))
    → 0 < length (encoding (tuple (field s rest)) args)
tuple_bytes s rest args = ground arith

module _ (host : ByteSequence) where
  lengthen-append :
      (pre bytes bytes' : List ℕ)
      → lengthen host zero bytes ≡ ok bytes'
      → lengthen host (length pre) (pre ++ bytes) ≡ ok (pre ++ bytes')
  unfolding lengthen
  lengthen-append [] bytes bytes' e = e
  lengthen-append (x ∷ pre) bytes bytes' e = rw (lengthen-append pre bytes bytes' e) refl

  lengthen_count :
      (n : ℕ) (rest : List ℕ)
      → n + 2 < 2 ^ 16
      → lengthen host zero (low_bytes 2 n ++ rest) ≡ ok (low_bytes 2 (n + 2) ++ rest)
  unfolding lengthen
  lengthen_count n rest h =
      let read : loaded_number host (turned host (low_bytes 2 n)) ≡ n =
        loaded_number-turned host (low_bytes 2 n) ∙ number_of-low_bytes 2 n (omega arith) in
      let small : (n + 2) % 2 ^ 16 ≡ n + 2 = omega arith in
      rw (read, lengthen) (rw small (rw (turned-stored_bytes host 2 (n + 2)) refl))

  tuple_written :
      (ip port : ℕ)
      → ip < 2 ^ 32
      → port < 2 ^ 16
      → written (input host (tuple context_shapes) (context_values ip port) [])
        ≡ ok (encoding (tuple context_shapes) (context_values ip port))
  tuple_written ip port i p = rw (
      (round_trip host host (tuple context_shapes) (context_values ip port) [] []
        (omega arith, (i, (p, tt))) (tt, (tt, tt))).0)

  args_written :
      (ip port : ℕ)
      → ip < 2 ^ 32
      → port < 2 ^ 16
      → written (input_args host context_shapes (context_values ip port) [])
        ≡ ok (encodings context_shapes (context_values ip port))
  args_written ip port i p =
      rw (
        input_args-Puts host context_shapes (context_values ip port) (i, (p, tt)) (tt, (tt, tt)) [])

  regroup :
      (front tag low args more : List ℕ)
      → (front ++ (tag ++ (low ++ args))) ++ more ≡ (front ++ tag) ++ (low ++ (args ++ more))
  regroup front tag low args more = simp append_assoc

  lengthened :
      (front args more : List ℕ) (tag n : ℕ)
      → n + 2 < 2 ^ 16
      → lengthen host (length front + 1) ((front ++ (tag ∷ (low_bytes 2 n ++ args))) ++ more)
        ≡ ok (front ++ (tag ∷ (low_bytes 2 (n + 2) ++ (args ++ more))))
  lengthened front args more tag n h =
      let here : length (front ++ (tag ∷ [])) ≡ length front + 1 = length-append front (tag ∷ []) in
      ap (λ bs. lengthen host (length front + 1) bs)
        (regroup front (tag ∷ []) (low_bytes 2 n) args more)
      ∙ (ap (λ k. lengthen host k ((front ++ (tag ∷ [])) ++ (low_bytes 2 n ++ (args ++ more))))
            (sym here)
          ∙ (lengthen-append (front ++ (tag ∷ [])) (low_bytes 2 n ++ (args ++ more))
                (low_bytes 2 (n + 2) ++ (args ++ more)) (lengthen_count n (args ++ more) h)
              ∙ ap (λ bs. ok bs)
                  (append_assoc front (tag ∷ []) (low_bytes 2 (n + 2) ++ (args ++ more)))))

  added_tuple :
      (bytes : List ℕ) (position ip port : ℕ)
      → ip < 2 ^ 32
      → port < 2 ^ 16
      → length bytes ≡ position
      → add_context host ip port bytes position
        ≡ ok (bytes ++ encoding (tuple context_shapes) (context_values ip port))
  unfolding add_context
  added_tuple bytes position ip port i p e =
      let same : (length bytes == position) ≡ true = ground arith in
      rw (same, add_context)
        (returns (written (input host (tuple context_shapes) (context_values ip port) []))
          (λ more. ok (bytes ++ more)) (tuple_written ip port i p))

  added_args :
      (bytes out : List ℕ) (position ip port : ℕ)
      → ip < 2 ^ 32
      → port < 2 ^ 16
      → position < length bytes
      → lengthen host (position + 1) (bytes ++ encodings context_shapes (context_values ip port))
        ≡ ok out
      → add_context host ip port bytes position ≡ ok out
  unfolding add_context
  added_args bytes out position ip port i p l e =
      let other : (length bytes == position) ≡ false = ground arith in
      rw (other, add_context)
        (returns (written (input_args host context_shapes (context_values ip port) []))
            (λ more. lengthen host (position + 1) (bytes ++ more)) (args_written ip port i p)
          ∙ e)

  -- A request with the context added is the request of a caller that had given these arguments himself.
  pub add_context_lem :
      (name : List ℕ) (params : Shapes) (args : Values params) (ip port : ℕ)
      → shape_count params + 2 ≤ max_tuple_count
      → ip < 2 ^ 32
      → port < 2 ^ 16
      → add_context host ip port (request_bytes name params args) (length (encoding text name))
        ≡ ok (request_bytes name (with_context params) (context_args params args ip port))
  add_context_lem name end args ip port few i p =
      added_tuple (request_bytes name end args) (length (encoding text name)) ip port i p
        (ap (λ bs. length bs) (append-nil (encoding text name)))
      ∙ ap (λ bs. ok (bs ++ encoding (tuple context_shapes) (context_values ip port)))
          (append-nil (encoding text name))
  add_context_lem name (field s rest) args ip port few i p =
      let ps : Shapes = field s rest in
      added_args (request_bytes name ps args)
        (request_bytes name (with_context ps) (context_args ps args ip port))
        (length (encoding text name)) ip port i p
        (omega (
          arith,
          length-append (encoding text name) (encoding (tuple ps) args),
          tuple_bytes s rest args,
        ))
        (lengthened (encoding text name) (encodings ps args)
            (encodings context_shapes (context_values ip port)) tuple_tag (shape_count ps)
            (omega arith)
          ∙ ap (λ bs. ok (encoding text name ++ (tuple_tag ∷ bs)))
              (ap (λ bs. low_bytes 2 (shape_count ps + 2) ++ bs)
                  (sym (encodings-context_args ps args ip port))
                ∙ ap
                    (λ n.
                      low_bytes 2 n ++ encodings (with_context ps) (context_args ps args ip port))
                    (sym (count_with_context ps))))
