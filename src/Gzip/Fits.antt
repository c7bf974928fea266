-- ===== src/Gzip/Fits.antt =====
-- What getData writes stays within the buffer that it allocates.
use httpuv.Base.{
  ℕ, zero, suc, ◌-◌, ◌≤◌, ◌≡◌, Bool, ◌++◌, refl, ap, arith, true, false, ◌||◌, [], Bytes, ◌==◌,
  length, length-append, Option, none, some, some-injective,
}
use httpuv.Output.{DataSource}
use httpuv.Gzip.{
  Code, ok, stream_end, failed, Zlib, GzipDataSource, is_finishing, is_done, prepend, returned,
  deflate_next, refill, deflate_loop, get_gzip,
}

abbrev Fits : {G : Type 0} → ℕ → Option (G × Bytes) → Type 0
Fits {G} avail r = (v : G) (out : Bytes) → r ≡ some (v, out) → length out ≤ avail

module _ {S Z : Type 0} (d : DataSource S) (zlib : Zlib Z) where
  prepend-Fits :
      {G : Type 0} (avail : ℕ) (out : Bytes) (r : Option (G × Bytes))
      → length out ≤ avail
      → Fits (avail - length out) r
      → Fits avail (prepend out r)
  prepend-Fits avail out none h fits v whole e = absurd (ground (arith, e))
  prepend-Fits avail out (some (g, rest)) h fits v whole e =
      let l : length (out ++ rest) ≡ length whole = ap (λ p. length p.1) (some-injective _ _ e) in
      omega (arith, h, l, length-append out rest, fits g rest refl)

  test-Fits :
      {G : Type 0} (avail : ℕ) (b : Bool) (r s : Option (G × Bytes))
      → Fits avail r
      → Fits avail s
      → Fits avail (elim b [ true ↦ r | false ↦ s ])
  test-Fits avail true r s f g = f
  test-Fits avail false r s f g = g

  then-Fits :
      {A G : Type 0} (avail : ℕ) (o : Option A) (f : A → Option (G × Bytes))
      → ((a : A) → o ≡ some a → Fits avail (f a))
      → Fits avail (elim o [ none ↦ none | some a ↦ f a ])
  then-Fits avail none f h v out e = absurd (ground (arith, e))
  then-Fits avail (some a) f h v out e = h a refl v out e

  code-Fits :
      {G : Type 0} (avail : ℕ) (c : Code) (v w : G) (output : Bytes)
      → length output ≤ avail
      → Fits avail
          (elim c [ stream_end ↦ some (v, output) | ok ↦ some (w, output) | failed ↦ none ])
  code-Fits avail stream_end v w output h u out e =
      rw (ap (λ p. length p.1) (some-injective _ _ e)) at h
  code-Fits avail ok v w output h u out e = rw (ap (λ p. length p.1) (some-injective _ _ e)) at h
  code-Fits avail failed v w output h u out e = absurd (ground (arith, e))

  loop_or_nothing :
      {G : Type 0} (b : ℕ) (t : Bool) (g : G) (r : Option (G × Bytes)) (v : G) (out : Bytes)
      → Fits b r
      → ◌≡◌ {A = Option (Bytes × G)}
          (elim t [ true ↦ some ([], g) | false ↦ returned r ])
          (some (out, v))
      → length out ≤ b
  loop_or_nothing b true g r v out fits e =
      omega (arith, ap (λ p. length p.0) (some-injective _ _ e))
  loop_or_nothing b false g none v out fits e = absurd (ground (arith, e))
  loop_or_nothing b false g (some (w, o)) v out fits e =
      omega (arith, fits w o refl, ap (λ p. length p.0) (some-injective _ _ e))

  module _
      (fits : (z : Z) (finish : Bool) (input : Bytes) (n : ℕ)
        → length (zlib.deflate z finish input n).output ≤ n) where
    deflate_next-Fits :
        (avail : ℕ) (g : GzipDataSource S Z) → Fits avail (deflate_next d zlib avail g)
    unfolding deflate_next
    deflate_next-Fits avail g =
        code-Fits avail _ _ _ _ (fits g.zstrm (is_finishing g.state) g.next_in avail)

    deflate_loop-Fits :
        (n b avail : ℕ) (g : GzipDataSource S Z) → Fits avail (deflate_loop d zlib n b avail g)
    unfolding deflate_loop
    deflate_loop-Fits zero b avail g v out e = absurd (ground (arith, e))
    deflate_loop-Fits (suc n) b avail g v out e =
        test-Fits avail ((avail == 0) || is_done g.state) _ _
          (λ u whole e. omega (arith, ap (λ p. length p.1) (some-injective _ _ e)))
          (then-Fits avail (refill d zlib b g) _ (λ u _.
            then-Fits avail (deflate_next d zlib avail u) _ (λ (w, some_out) e.
              prepend-Fits avail some_out _ (deflate_next-Fits avail u w some_out e)
                (deflate_loop-Fits n b (avail - length some_out) w))))
          v out e

    -- When `deflate` never writes more than it has room for, and whatever else it does, in every
    -- state, with every source and every fuel: where getData returns, its data has at most as many
    -- bytes as were asked for.
    pub get_gzip-Fits :
        (n b : ℕ) (g v : GzipDataSource S Z) (out : Bytes)
        → get_gzip d zlib n b g ≡ some (out, v)
        → length out ≤ b
    unfolding get_gzip
    get_gzip-Fits n b g v out e =
        loop_or_nothing b (is_done g.state) g (deflate_loop d zlib n b b g) v out
          (deflate_loop-Fits n b b g) e
