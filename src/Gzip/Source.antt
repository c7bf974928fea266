-- ===== src/Gzip/Source.antt =====
-- The pieces of a GZipDataSource over a source that gives all of its data.
use httpuv.Base.{
  ℕ, zero, suc, ◌+◌, ◌<◌, ◌≤◌, ◌≡◌, refl, sym, ap, ◌⊎◌, inl, inr, arith, Bool, false, List, [], ◌∷◌,
  ◌++◌, append_assoc, append-nil, Bytes, length, length-append, Option, none, some, some-injective,
}
use httpuv.Output.{DataSource}
use httpuv.Output.Memory.{Yields, joined}
use httpuv.Gzip.{
  Zlib, streaming, finishing, done, GzipDataSource, is_done, deflate_loop, get_gzip, gzip_source,
  new_gzip,
}
use httpuv.Gzip.Contract.{History, begun, IsZlib}
use httpuv.Gzip.Loop.{at, Ends, full_streaming, full_finishing, over, Ends-finishing}
use httpuv.Gzip.Streams.{Ends-streaming}

-- The states between two calls while the stream goes on: there is more data, or there was.
pub data Ready {S Z : Type 0} (d : DataSource S) (zlib : Zlib Z) (total : Bytes)
    (g : GzipDataSource S Z) (o : Bytes) : Type 0 where
  more_data :
      {source : S} {z : Z} {input i : Bytes} (pieces : List Bytes)
      → g ≡ at source z input streaming
      → Yields d source pieces
      → History zlib false z i o
      → i ++ (input ++ joined pieces) ≡ total
      → Ready d zlib total g o
  no_more_data :
      {source : S} {z : Z} (was_finishing : Bool)
      → g ≡ at source z [] finishing
      → History zlib was_finishing z total o
      → Ready d zlib total g o

module _ {S Z : Type 0} (d : DataSource S) (zlib : Zlib Z) (gunzip : Bytes → Option Bytes)
    {bound : ℕ → ℕ} (is_zlib : IsZlib zlib gunzip bound) (n : ℕ) (total : Bytes) where
  -- The pieces from the state `g` on, `m` at most, complete what was written before.
  abbrev Completes : ℕ → GzipDataSource S Z → Bytes → Type 0
  Completes m g o =
      (pieces : List Bytes) × Yields (gzip_source d zlib n) g pieces
      × (length pieces ≤ m)
      × (gunzip (o ++ joined pieces) ≡ some total)

  get-loop :
      (g v : GzipDataSource S Z) (out : Bytes)
      → is_done g.state ≡ false
      → deflate_loop d zlib n 65536 65536 g ≡ some (v, out)
      → get_gzip d zlib n 65536 g ≡ some (out, v)
  unfolding get_gzip
  get-loop g v out live e = rw (live, e, get_gzip) refl

  get-done :
      (source : S) (z : Z)
      → get_gzip d zlib n 65536 (at source z [] done) ≡ some ([], at source z [] done)
  unfolding get_gzip
  get-done source z = refl

  Completes-piece :
      (m : ℕ) (g v : GzipDataSource S Z) (o out : Bytes)
      → is_done g.state ≡ false
      → deflate_loop d zlib n 65536 65536 g ≡ some (v, out)
      → length out ≡ 65536
      → Completes m v (o ++ out)
      → Completes (suc m) g o
  unfolding Yields
  Completes-piece m g v o out live e l (pieces, y, few, whole) = (
    out ∷ pieces,
    (omega (arith, l), omega (arith, l), v, get-loop g v out live e, y),
    omega (arith, few),
    rw (← append_assoc o out (joined pieces)) whole,
  )

  Completes-over :
      (m : ℕ) (g : GzipDataSource S Z) (source : S) (z : Z) (o out : Bytes)
      → is_done g.state ≡ false
      → deflate_loop d zlib n 65536 65536 g ≡ some (at source z [] done, out)
      → length out ≤ 65536
      → gunzip (o ++ out) ≡ some total
      → Completes (suc m) g o
  unfolding Yields
  Completes-over m g source z o [] live e l whole =
      ([], (_, get-loop g _ [] live e), omega arith, whole)
  Completes-over m g source z o (b ∷ bs) live e l whole = (
    (b ∷ bs) ∷ [],
    (omega arith, l, _, get-loop g _ (b ∷ bs) live e, (_, get-done source z)),
    omega arith,
    rw (append-nil (b ∷ bs)) whole,
  )

  Ready-live :
      {g : GzipDataSource S Z} {o : Bytes} → Ready d zlib total g o → is_done g.state ≡ false
  Ready-live (more_data pieces e y past t) = ap (λ v. is_done v.state) e
  Ready-live (no_more_data f e past) = ap (λ v. is_done v.state) e

  Ready-bounded :
      {g : GzipDataSource S Z} {o : Bytes}
      → Ready d zlib total g o
      → length o ≤ bound (length total)
  Ready-bounded (more_data {input = input} {i = i} pieces e y past t) =
      is_zlib.bounded past (omega (arith, ap length t, length-append i (input ++ joined pieces)))
  Ready-bounded (no_more_data f e past) = is_zlib.bounded past (omega arith)

  Ready-Ends :
      (g : GzipDataSource S Z) (o : Bytes)
      → Ready d zlib total g o
      → 65536 + length total < n
      → Ends d zlib gunzip total o 65536 (deflate_loop d zlib n 65536 65536 g)
  Ready-Ends g o (more_data {source} {z} {input} {i} pieces e y past t) h = rw e (
      Ends-streaming d zlib gunzip is_zlib total n 65536 source z input i o pieces y past t (
        omega (
          arith,
          h,
          ap length t,
          length-append i (input ++ joined pieces),
          length-append input (joined pieces),
        )))
  Ready-Ends g o (no_more_data {source} {z} f e past) h = rw e (
      Ends-finishing d zlib gunzip is_zlib total n 65536 65536 source z o f past (omega (arith, h)))

  Ready-Completes :
      (m : ℕ) (g : GzipDataSource S Z) (o : Bytes)
      → Ready d zlib total g o
      → 65536 + length total < n
      → bound (length total) < length o + m
      → Completes m g o
  Ready-Completes zero g o ready fuel h = absurd (omega (arith, h, Ready-bounded ready))
  Ready-Completes (suc m) g o ready fuel h = elim (Ready-Ends g o ready fuel) [
    | full_streaming {out = out} pieces e l y past t ↦
        Completes-piece m g _ o out (Ready-live ready) e l (
          Ready-Completes m _ (o ++ out) (more_data pieces refl y past t) fuel
            (omega (arith, h, l, length-append o out)))
    | full_finishing {was_finishing = f} {out = out} e l past ↦
        Completes-piece m g _ o out (Ready-live ready) e l (
          Ready-Completes m _ (o ++ out) (no_more_data f refl past) fuel
            (omega (arith, h, l, length-append o out)))
    | over {source = after} {z = v} {out = out} e l whole ↦
        Completes-over m g after v o out (Ready-live ready) e l whole
  ]

  -- From a state between two calls in which the stream goes on, after the output `o` so far, with
  -- fuel for 65536 rounds and for the data that is to be compressed: getData returns without an
  -- exception, with 65536 bytes at most; either with that many, in such a state again, or the stream
  -- is complete and all of the output decompresses to all of the data.
  pub get_gzip-returns :
      (g : GzipDataSource S Z) (o : Bytes)
      → Ready d zlib total g o
      → 65536 + length total < n
      → (out : Bytes) × (v : GzipDataSource S Z) × (get_gzip d zlib n 65536 g ≡ some (out, v))
        × (length out ≤ 65536)
        × (((length out ≡ 65536) × Ready d zlib total v (o ++ out))
            ⊎ ((v.state ≡ done) × (gunzip (o ++ out) ≡ some total)))
  get_gzip-returns g o ready fuel = elim (Ready-Ends g o ready fuel) [
    | full_streaming {out = out} pieces e l y past t ↦ (
      out,
      _,
      get-loop g _ out (Ready-live ready) e,
      omega (arith, l),
      inl (l, more_data pieces refl y past t),
    )
    | full_finishing {was_finishing = f} {out = out} e l past ↦ (
      out,
      _,
      get-loop g _ out (Ready-live ready) e,
      omega (arith, l),
      inl (l, no_more_data f refl past),
    )
    | over {out = out} e l whole ↦
        (out, _, get-loop g _ out (Ready-live ready) e, l, inr (refl, whole))
  ]

  made :
      (source : S) (g : GzipDataSource S Z) (init : Option Z)
      → elim init [ none ↦ none | some z ↦ some (at source z [] streaming) ] ≡ some g
      → (z : Z) × (init ≡ some z) × (g ≡ at source z [] streaming)
  made source g none e = absurd (ground (arith, e))
  made source g (some z) e = (z, refl, sym (some-injective _ _ e))

  -- Over a source that gives its data in pieces of 65536 bytes at most and then no more, and with a
  -- zlib that does what its manual says: a new GZipDataSource whose calls have fuel for 65536 rounds
  -- and for the data also gives pieces of 65536 bytes at most and then no more, one more at most
  -- than the bound on the compressed size, and these, joined, decompress to the joined data.
  pub gzip-Yields :
      (source : S) (g : GzipDataSource S Z) (pieces : List Bytes)
      → Yields d source pieces
      → joined pieces ≡ total
      → new_gzip d zlib source ≡ some g
      → 65536 + length total < n
      → (compressed : List Bytes) × Yields (gzip_source d zlib n) g compressed
        × (length compressed ≤ suc (bound (length total)))
        × (gunzip (joined compressed) ≡ some total)
  gzip-Yields source g pieces y j new fuel =
      let (z, got, e) = made source g zlib.init new in
      Ready-Completes (suc (bound (length total))) g [] (more_data pieces e y (begun got) j) fuel
        (omega arith)
