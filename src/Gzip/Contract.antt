-- ===== src/Gzip/Contract.antt =====
-- What the manual of zlib says of `deflate`, as far as GZipDataSource relies on it.
use httpuv.Base.{
  ℕ, ◌+◌, ◌<◌, ◌≤◌, ◌≡◌, Bool, true, false, [], ◌++◌, Bytes, length, take, Option, some,
}
use httpuv.Gzip.{ok, stream_end, failed, Zlib}

module _ {Z : Type 0} (zlib : Zlib Z) where
  -- The streams that proper calls lead to, with the bytes consumed and the bytes written so far.
  -- Once Z_FINISH was passed (`true`), it is passed again and there is no more input.
  pub data History : Bool → Z → Bytes → Bytes → Type 0 where
    begun : {z : Z} → zlib.init ≡ some z → History false z [] []
    streamed :
        {z : Z} {i o input : Bytes} {n : ℕ}
        → History false z i o
        → 0 < length input
        → 0 < n
        → History false
            (zlib.deflate z false input n).stream
            (i ++ take (zlib.deflate z false input n).consumed input)
            (o ++ (zlib.deflate z false input n).output)
    finished :
        {finishing : Bool} {z : Z} {i o : Bytes} {n : ℕ}
        → History finishing z i o
        → 0 < n
        → (zlib.deflate z true [] n).code ≡ ok
        → History true (zlib.deflate z true [] n).stream i (o ++ (zlib.deflate z true [] n).output)

  -- `gunzip` decompresses, `bound` is deflateBound.
  pub record IsZlib (gunzip : Bytes → Option Bytes) (bound : ℕ → ℕ) : Type 0 where
    -- The pointers stay within the buffers.
    pub reads_input :
        (z : Z) (finish : Bool) (input : Bytes) (n : ℕ)
        → (zlib.deflate z finish input n).consumed ≤ length input
    pub fits :
        (z : Z) (finish : Bool) (input : Bytes) (n : ℕ)
        → length (zlib.deflate z finish input n).output ≤ n
    -- With input and room for output there is Z_OK, which means progress.
    pub streams_ok :
        {z : Z} {i o input : Bytes} {n : ℕ}
        → History false z i o
        → 0 < length input
        → 0 < n
        → (zlib.deflate z false input n).code ≡ ok
    pub progress :
        (z : Z) (finish : Bool) (input : Bytes) (n : ℕ)
        → (zlib.deflate z finish input n).code ≡ ok
        → 0
          < (zlib.deflate z finish input n).consumed + length (zlib.deflate z finish input n).output
    -- Z_FINISH with room for output does not fail, and its Z_STREAM_END means that all is written.
    pub finishes_ok :
        {finishing : Bool} {z : Z} {i o : Bytes} {n : ℕ}
        → History finishing z i o
        → 0 < n
        → ¬ ((zlib.deflate z true [] n).code ≡ failed)
    pub whole :
        {finishing : Bool} {z : Z} {i o : Bytes} {n : ℕ}
        → History finishing z i o
        → 0 < n
        → (zlib.deflate z true [] n).code ≡ stream_end
        → gunzip (o ++ (zlib.deflate z true [] n).output) ≡ some i
    pub bounded :
        {finishing : Bool} {z : Z} {i o : Bytes} {n : ℕ}
        → History finishing z i o
        → length i ≤ n
        → length o ≤ bound n
