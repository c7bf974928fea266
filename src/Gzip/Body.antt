-- ===== src/Gzip/Body.antt =====
-- A compressed body goes out.
use httpuv.Base.{ℕ, ◌+◌, ◌<◌, ◌≡◌, arith, Bool, [], ◌∷◌, Bytes, length, Option, some}
use httpuv.Output.{InMemoryDataSource, in_memory_source, close_source, write_complete}
use httpuv.Output.Memory.{joined, memory-Yields}
use httpuv.Output.Order.{write_all}
use httpuv.Output.Whole.{in_turn, body_of, without_writes, body_of-write_all}
use httpuv.Gzip.{Zlib, GzipDataSource, gzip_source, new_gzip}
use httpuv.Gzip.Contract.{IsZlib}
use httpuv.Gzip.Source.{gzip-Yields}

-- A body in memory that goes out through a GZipDataSource, with a zlib that does what its manual says,
-- with fuel for the calls of getData and more writes than the bound on the compressed size: the
-- bytes that go out, in chunked mode decoded, decompress to the body, and the rest of the log is
-- that the source is closed and then, once, the end announced as a success.
pub body_of-gzip :
    {Z : Type 0} (zlib : Zlib Z) (gunzip : Bytes → Option Bytes) (bound : ℕ → ℕ) (buffer : Bytes)
    (g : GzipDataSource InMemoryDataSource Z) (chunked : Bool) (n fuel : ℕ)
    → IsZlib zlib gunzip bound
    → new_gzip in_memory_source zlib (record { buffer = buffer; pos = 0 }) ≡ some g
    → 65536 + length buffer < fuel
    → bound (length buffer) + 1 < n
    → let log = (write_all (gzip_source in_memory_source zlib fuel) g chunked (in_turn n)).1 in
      (compressed : Bytes) × (body_of chunked n log ≡ some compressed)
      × (gunzip compressed ≡ some buffer)
      × (without_writes log ≡ close_source ∷ write_complete 0 ∷ [])
body_of-gzip zlib gunzip bound buffer g chunked n fuel is_zlib new enough h =
    let (pieces, y, j) = memory-Yields buffer (length buffer) 0 (omega arith) (omega arith) in
    let (compressed, y', few, whole) =
      gzip-Yields in_memory_source zlib gunzip is_zlib fuel buffer _ g pieces y j new enough in
    let (body, end) =
      body_of-write_all (gzip_source in_memory_source zlib fuel) n chunked compressed g y'
        (omega (arith, few, h)) in
    (joined compressed, body, whole, end)
