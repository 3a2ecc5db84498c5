-- ===== src/Serializer/Short.antt =====
-- Streams that end too early: `output` of a string in include/serializer/binarySerializer.cpp.
use muse_rpc.Common.{
  ℕ, zero, suc, ◌+◌, ◌<◌, ◌≤◌, ◌≡◌, refl, ◌∙◌, leb, if◌then◌else◌, List, [], ◌∷◌, ◌++◌, none,
  length, arith,
}
use muse_rpc.Memory.{ByteSequence}
use muse_rpc.Serializer.Number.{low_bytes}
use muse_rpc.Serializer.Shape.{
  string_tag, max_string_length, insufficient_remaining_memory, illegal_string_length,
}
use muse_rpc.Serializer.Reader.{
  failed, overrun, prefix, slice, take_bytes, output_content, output_string,
}
use muse_rpc.Serializer.Wire.{slice-append, output_count_at, length_behind}

prefix_short : (bs : List ℕ) (n : ℕ) → length bs < n → prefix n bs ≡ none
prefix_short [] zero h = absurd (omega (arith, h))
prefix_short [] (suc n) h = refl
prefix_short (b ∷ bs) zero h = absurd (omega (arith, h))
prefix_short (b ∷ bs) (suc n) h = rw (prefix_short bs n (omega (arith, h))) refl

-- Let a stream end inside a string of legal length. The reader means to throw and go back to where it began, but it counts
-- the space from the tag on, five bytes too many: with up to five bytes missing it reads
-- behind the end of the stream, and only with more missing it throws.
pub short_string :
    (host : ByteSequence) (pre bs : List ℕ) (n : ℕ)
    → n ≤ max_string_length
    → length bs < n
    → output_string host (pre ++ (string_tag ∷ (low_bytes 4 n ++ bs))) (length pre) ≡ (
        if leb n (length bs + 5)
        then overrun
        else failed insufficient_remaining_memory (length pre))
unfolding output_string output_content take_bytes
short_string host pre bs n h k =
    let none_left : slice (pre ++ (string_tag ∷ (low_bytes 4 n ++ bs))) (length pre + 1 + 4) n
        ≡ none =
      slice-append pre (string_tag ∷ (low_bytes 4 n ++ bs)) (length pre + 1 + 4) 5 n (omega arith)
      ∙ prefix_short bs n k in
    rw
      (
        output_count_at host pre string_tag 4 n max_string_length illegal_string_length bs
            (omega arith) h,
        output_string,
      )
      (ground (arith, none_left, length_behind host pre string_tag 4 n bs))
