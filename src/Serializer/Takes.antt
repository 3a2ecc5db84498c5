-- ===== src/Serializer/Takes.antt =====
-- The readers of include/serializer/binarySerializer.cpp at the bytes of the wire format, and readers one after
-- another.
use muse_rpc.Common.{
  ℕ, ◌+◌, ◌^◌, ◌<◌, ◌≤◌, ◌≡◌, refl, ap, sym, ◌∙◌, ◌==◌, ltb, if◌then◌else◌, Bool, true, false, List,
  [], ◌∷◌, ◌++◌, length, length-append, All, arith,
}
use mathlib.Core.List.{append_assoc}
use muse_rpc.Memory.{ByteSequence}
use muse_rpc.Serializer.Number.{low_bytes, length-low_bytes}
use muse_rpc.Serializer.Shape.{
  width, scalar_tag, boolean, scalar, text, bool_tag, string_tag, max_string_length, max_byte_count,
  illegal_string_length, illegal_bytes_count,
}
use muse_rpc.Serializer.Reader.{
  Read, got, next, output_times, output_bool, output_scalar, output_string, output_bytes,
  output_entry,
}
use muse_rpc.Serializer.Wire.{
  encoding, encoding_each, encoding_entry, take_number_behind, check_legitimacy_at, output_count_at,
  output_content_at,
}

-- A reader finds these bytes anywhere in a stream, and the value in them.
abbrev pub Takes {ℓ} : {A : Type ℓ} → (List ℕ → ℕ → Read A) → List ℕ → A → Type ℓ
Takes f bs v =
    (pre rest : List ℕ) → f (pre ++ (bs ++ rest)) (length pre) ≡ got v (length pre + length bs)

module _ (host : ByteSequence) where
  pub output_bool-Takes : (v : Bool) → Takes (output_bool host) (encoding boolean v) v
  unfolding output_bool
  output_bool-Takes true pre rest =
      rw (check_legitimacy_at host pre bool_tag 1 1 rest, output_bool)
        (rw (take_number_behind host pre bool_tag 1 1 rest (omega arith))
          (ap (λ pos. got true pos) (omega arith)))
  output_bool-Takes false pre rest =
      rw (check_legitimacy_at host pre bool_tag 1 0 rest, output_bool)
        (rw (take_number_behind host pre bool_tag 1 0 rest (omega arith))
          (ap (λ pos. got false pos) (omega arith)))

  pub output_scalar-Takes :
      (t : _) (v : ℕ)
      → v < 256 ^ width t
      → Takes (λ stream. output_scalar host stream t) (encoding (scalar t) v) v
  unfolding output_scalar
  output_scalar-Takes t v h pre rest =
      rw (check_legitimacy_at host pre (scalar_tag t) (width t) v rest, output_scalar)
        (take_number_behind host pre (scalar_tag t) (width t) v rest h
          ∙ ap (λ pos. got v pos) (omega (arith, length-low_bytes (width t) v)))

  pub output_string-Takes :
      (v : List ℕ) → length v ≤ max_string_length → Takes (output_string host) (encoding text v) v
  unfolding output_string
  output_string-Takes v h pre rest =
      rw
        (
          output_count_at host pre string_tag 4 (length v) max_string_length illegal_string_length
              (v ++ rest) (omega arith) h,
          output_string,
        )
        (output_content_at host pre string_tag 4 (length v) v rest (length v) refl
          ∙ ap (λ pos. got v pos) (omega arith))

  pub output_bytes-Takes :
      (tag n : ℕ) (v : List ℕ)
      → length v ≡ n
      → n ≤ max_byte_count
      → Takes (λ stream. output_bytes host stream tag n) (tag ∷ (low_bytes 4 n ++ v)) v
  unfolding output_bytes
  output_bytes-Takes tag n v e h pre rest =
      rw
        (
          output_count_at host pre tag 4 n max_byte_count illegal_bytes_count (v ++ rest)
              (omega arith) h,
          output_bytes,
        )
        (ground (arith, output_content_at host pre tag 4 n v rest n e))

-- One reader after another.
pub next-Takes :
    {A B C : Type 0} (f : List ℕ → ℕ → Read A) (g : List ℕ → ℕ → Read B) (bs cs : List ℕ) {a : A}
    {b : B} (h : A → B → C)
    → Takes f bs a
    → Takes g cs b
    → Takes
        (λ stream pos.
          next (f stream pos) (λ x pos1. next (g stream pos1) (λ y pos2. got (h x y) pos2)))
        (bs ++ cs)
        (h a b)
next-Takes f g bs cs {a} {b} h k l pre rest =
    let first : f (pre ++ ((bs ++ cs) ++ rest)) (length pre) ≡ got a (length pre + length bs) =
      rw (sym (append_assoc bs cs rest)) at (k pre (cs ++ rest)) in
    let second : g (pre ++ ((bs ++ cs) ++ rest)) (length pre + length bs)
        ≡ got b (length pre + length bs + length cs) =
      rw (sym (append_assoc bs cs rest)) at (
        rw (append_assoc pre bs (cs ++ rest)) at
          (rw (length-append pre bs) at (l (pre ++ bs) rest))) in
    rw first (rw second (ap (λ pos. got (h a b) pos) (omega (arith, length-append bs cs))))

pub output_times-Takes :
    {A : Type 0} (f : List ℕ → ℕ → Read A) (encode : A → List ℕ) (P : A → Type 0)
    → ((v : A) → P v → Takes f (encode v) v)
    → (vs : List A) → All P vs
    → Takes (λ stream pos. output_times (length vs) (f stream) pos) (encoding_each encode vs) vs
output_times-Takes f encode P h [] k pre rest = ap (λ pos. got [] pos) (omega arith)
output_times-Takes f encode P h (v ∷ vs) (k, ks) pre rest =
    next-Takes f (λ stream pos. output_times (length vs) (f stream) pos) (encode v)
      (encoding_each encode vs) (λ x xs. x ∷ xs) (h v k) (output_times-Takes f encode P h vs ks) pre
      rest

pub if_same : {A : Type 0} (n : ℕ) (x y : A) → (if n == n then x else y) ≡ x
if_same n x y = ground arith

pub not_more : {A : Type 0} (n : ℕ) (x y : A) → (if ltb n n then x else y) ≡ y
not_more n x y = ground arith

-- A key and its value.
pub entry-Takes :
    {A B : Type 0} (f : List ℕ → ℕ → Read A) (g : List ℕ → ℕ → Read B) (encode : A → List ℕ)
    (encode' : B → List ℕ) (P : A → Type 0) (Q : B → Type 0)
    → ((v : A) → P v → Takes f (encode v) v)
    → ((v : B) → Q v → Takes g (encode' v) v)
    → (e : A × B) → P e.0 × Q e.1
    → Takes (λ stream. output_entry (f stream) (g stream)) (encoding_entry encode encode' e) e
entry-Takes f g encode encode' P Q h k (x, y) (p, q) =
    next-Takes f g (encode x) (encode' y) (λ a b. (a, b)) (h x p) (k y q)

-- Bytes behind others, such as a tag and a count.
pub behind :
    {A : Type 0} (f : List ℕ → ℕ → Read A) (bs : List ℕ) (v : A)
    → Takes f bs v
    → (pre front rest : List ℕ) (pos : ℕ) → pos ≡ length pre + length front
    → f (pre ++ (front ++ (bs ++ rest))) pos ≡ got v (pos + length bs)
behind f bs v h pre front rest pos e =
    let place : length (pre ++ front) ≡ pos = length-append pre front ∙ sym e in
    rw place at (rw (append_assoc pre front (bs ++ rest)) at (h (pre ++ front) rest))
