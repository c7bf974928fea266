-- ===== src/Gzip.antt =====
-- GZipDataSource (src/gzipdatasource.h, src/gzipdatasource.cpp): a source that compresses the data
-- of another. zlib is a parameter. Of memory only its contents are modelled, so that the frees and
-- `deflateEnd` have no counterpart.
pub mod Contract
pub mod Fits
pub mod Loop
pub mod Streams
pub mod Source
pub mod Body
use httpuv.Base.{
  ℕ, zero, suc, ◌-◌, Bool, true, false, ◌||◌, List, [], ◌∷◌, ◌++◌, Bytes, ◌==◌, if◌then◌else◌,
  length, drop, Option, none, some,
}
use httpuv.Output.{DataSource}

-- What `deflate` returns; `failed` is any other code.
pub data Code : Type 0 where
  ok : Code
  stream_end : Code
  failed : Code

-- `consumed` is by how much `next_in` moves, `output` what is written at `next_out`.
pub record Deflated (Z : Type 0) : Type 0 where
  pub code : Code
  pub stream : Z
  pub consumed : ℕ
  pub output : Bytes

-- zlib over its streams: `deflateInit2` with the code's arguments, and `deflate` with whether the
-- flush is Z_FINISH (else Z_NO_FLUSH), the input and `avail_out`.
pub record Zlib (Z : Type 0) : Type 0 where
  pub init : Option Z
  pub deflate : Z → Bool → Bytes → ℕ → Deflated Z

pub data GdState : Type 0 where
  streaming : GdState
  finishing : GdState
  done : GdState

-- `next_in` is the input that is left, with its length as `avail_in`.
pub record GzipDataSource (S Z : Type 0) : Type 0 where
  pub data_source : S
  pub zstrm : Z
  pub next_in : Bytes
  pub state : GdState

abbrev pub is_finishing : GdState → Bool
is_finishing streaming = false
is_finishing finishing = true
is_finishing done = false

abbrev pub is_done : GdState → Bool
is_done streaming = false
is_done finishing = false
is_done done = true

abbrev pub is_streaming : GdState → Bool
is_streaming streaming = true
is_streaming finishing = false
is_streaming done = false

-- The bytes that one call wrote go before those of the later ones.
abbrev pub prepend : {G : Type 0} → Bytes → Option (G × Bytes) → Option (G × Bytes)
prepend out none = none
prepend out (some (g, rest)) = some (g, out ++ rest)

abbrev pub returned : {G : Type 0} → Option (G × Bytes) → Option (Bytes × G)
returned none = none
returned (some (g, out)) = some (out, g)

module _ {S Z : Type 0} (d : DataSource S) (zlib : Zlib Z) where
  -- The constructor; `none` is its exception.
  abbrev pub new_gzip : S → Option (GzipDataSource S Z)
  new_gzip source = elim zlib.init [
    | none ↦ none
    | some z ↦ some record { data_source = source; zstrm = z; next_in = []; state = streaming }
  ]

  -- deflateNext, which also gives the bytes that were written.
  unfoldable pub deflate_next : ℕ → GzipDataSource S Z → Option (GzipDataSource S Z × Bytes)
  deflate_next avail_out g =
      let res = zlib.deflate g.zstrm (is_finishing g.state) g.next_in avail_out in
      let v = record g { zstrm = res.stream; next_in = drop res.consumed g.next_in } in
      elim res.code [
        | stream_end ↦ some (record v { state = done }, res.output)
        | ok ↦ some (v, res.output)
        | failed ↦ none
      ]

  -- The block under `_state == Streaming && _zstrm.avail_in == 0`.
  unfoldable pub refill : ℕ → GzipDataSource S Z → Option (GzipDataSource S Z)
  refill bytes_desired g = elim (is_streaming g.state) [
    | false ↦ some g
    | true ↦ elim g.next_in [
      | b ∷ bs ↦ some g
      | [] ↦ elim (d.get_data bytes_desired g.data_source) [
        | none ↦ none
        | some (input, source) ↦ some record g {
          data_source = source;
          next_in = input;
          state = if length input == 0 then finishing else g.state;
        }
      ]
    ]
  ]

  -- The loop of getData; `none` is an exception, or that the fuel is used up.
  unfoldable pub deflate_loop : ℕ → ℕ → ℕ → GzipDataSource S Z → Option (GzipDataSource S Z × Bytes)
  unfolding deflate_next refill
  deflate_loop zero bytes_desired avail_out g = none
  deflate_loop (suc n) bytes_desired avail_out g = elim ((avail_out == 0) || is_done g.state) [
    | true ↦ some (g, [])
    | false ↦ elim (refill bytes_desired g) [
      | none ↦ none
      | some v ↦ elim (deflate_next avail_out v) [
        | none ↦ none
        | some (w, out) ↦ prepend out (deflate_loop n bytes_desired (avail_out - length out) w)
      ]
    ]
  ]

  -- getData with fuel `n`.
  unfoldable pub get_gzip : ℕ → ℕ → GzipDataSource S Z → Option (Bytes × GzipDataSource S Z)
  unfolding deflate_loop
  get_gzip n bytes_desired g = elim (is_done g.state) [
    | true ↦ some ([], g)
    | false ↦ returned (deflate_loop n bytes_desired bytes_desired g)
  ]

  abbrev pub gzip_source : ℕ → DataSource (GzipDataSource S Z)
  gzip_source n = record {
    size = λ g. 0;
    get_data = get_gzip n;
    close = λ g. record g { data_source = d.close g.data_source };
  }
