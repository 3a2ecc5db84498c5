-- ===== src/Rpc/Zlib.antt =====
-- The middleware that compresses: include/rpc/server/zlib_service.cpp, over any compression library.
use muse_rpc.Common.{
  ℕ, ◌^◌, ◌<◌, ◌≤◌, ◌≡◌, ◌∙◌, ltb, if◌then◌else◌, List, [], ◌∷◌, ◌++◌, length, Option, some, none,
  Outcome, ok, thrown, undefined, arith,
}
use muse_rpc.Memory.{ByteSequence}
use muse_rpc.Serializer.Number.{
  stored_bytes, loaded_number, turned, low_bytes, turned-stored_bytes, loaded_number-turned,
  number_of-low_bytes,
}
use muse_rpc.Rpc.Middleware.{MiddlewareService, IsUndone, channel_in, channel_out}

-- What zlib promises: `compress` succeeds into a buffer of the bound, and `uncompress` gives the data back, whatever
-- stands behind the compressed data.
pub record IsCompression (compress_bound : ℕ → ℕ)
    (compress uncompress : ℕ → List ℕ → Option (List ℕ)) : Type 0 where
  pub compresses :
      (bytes : List ℕ)
      → (out : List ℕ) × (compress (compress_bound (length bytes)) bytes ≡ some out)
        × (length out ≤ compress_bound (length bytes))
  pub restores :
      (bytes out behind : List ℕ) (limit : ℕ)
      → compress limit bytes ≡ some out
      → uncompress (length bytes) (out ++ behind) ≡ some bytes

-- The machine; the library's functions, the first argument of `compress` and `uncompress` being the size of the
-- buffer; and the four bytes behind the data of a request.
module _ (host : ByteSequence) (compress_bound : ℕ → ℕ)
    (compress uncompress : ℕ → List ℕ → Option (List ℕ)) (behind : List ℕ) where
  abbrev compressed : ℕ → List ℕ → Option (List ℕ) → Outcome (List ℕ)
  compressed limit flag none = thrown
  compressed limit flag (some out) = if ltb limit (length out) then thrown else ok (flag ++ out)

  abbrev restored : Option (List ℕ) → Outcome (List ℕ)
  restored none = thrown
  restored (some bytes) = ok bytes

  -- `ZlibService::Out`: the size in four bytes, and the compressed data.
  unfoldable pub zlib_out : List ℕ → Outcome (List ℕ)
  zlib_out bytes =
      let limit = compress_bound (length bytes) in
      compressed limit (turned host (stored_bytes host 4 (length bytes))) (compress limit bytes)

  -- `ZlibService::In`: the whole size is given as that of the compressed data.
  unfoldable pub zlib_in : List ℕ → Outcome (List ℕ)
  zlib_in (a ∷ (b ∷ (c ∷ (d ∷ rest)))) =
      restored (uncompress (loaded_number host (turned host (a ∷ b ∷ c ∷ d ∷ []))) (rest ++ behind))
  zlib_in bytes = undefined

  abbrev pub zlib_service : MiddlewareService
  zlib_service = record { service_in = zlib_in; service_out = zlib_out }

  size_read : (n : ℕ) → n < 256 ^ 4 → loaded_number host (turned host (low_bytes 4 n)) ≡ n
  size_read n h = loaded_number-turned host (low_bytes 4 n) ∙ number_of-low_bytes 4 n h

  out_lem :
      (bytes out : List ℕ)
      → compress (compress_bound (length bytes)) bytes ≡ some out
      → length out ≤ compress_bound (length bytes)
      → zlib_out bytes ≡ ok (low_bytes 4 (length bytes) ++ out)
  unfolding zlib_out
  out_lem bytes out e l =
      rw (e, zlib_out) (rw (turned-stored_bytes host 4 (length bytes)) (ground (arith, l)))

  in_lem :
      (bytes out : List ℕ)
      → length bytes < 256 ^ 4
      → uncompress (length bytes) (out ++ behind) ≡ some bytes
      → zlib_in (low_bytes 4 (length bytes) ++ out) ≡ ok bytes
  unfolding zlib_in
  in_lem bytes out h e = rw (size_read (length bytes) h) (rw e)

  chained :
      (bytes bytes' : List ℕ)
      → zlib_in bytes ≡ ok bytes'
      → channel_in (zlib_service ∷ []) bytes ≡ ok bytes'
  unfolding channel_in
  chained bytes bytes' e = rw e

  -- Data below 4 GB that goes out through the compression comes back as it was, if the library keeps its promises.
  pub zlib_service-IsUndone :
      IsCompression compress_bound compress uncompress
      → (bytes : List ℕ) → length bytes < 256 ^ 4
      → IsUndone (zlib_service ∷ []) bytes
  unfolding channel_out
  zlib_service-IsUndone z bytes h =
      let (out, e, l) = z.compresses bytes in
      (
        low_bytes 4 (length bytes) ++ out,
        out_lem bytes out e l,
        chained _ _
            (in_lem bytes out h (z.restores bytes out behind (compress_bound (length bytes)) e)),
      )
