-- ===== src/Gzip/Loop.antt =====
-- One call of getData: with enough fuel its loop ends, with the output full or the stream complete.
use httpuv.Base.{
  ℕ, zero, suc, ◌-◌, ◌<◌, ◌≤◌, ◌≡◌, refl, ap, ◌⊎◌, arith, Bool, true, false, List, [], ◌++◌,
  append_assoc, append-nil, Bytes, ◌==◌, length, length-append, drop, Option, some, Bool-cases, inl,
  inr,
}
use httpuv.Output.{DataSource}
use httpuv.Output.Memory.{Yields, joined}
use httpuv.Gzip.{
  Code, ok, stream_end, failed, Zlib, GdState, streaming, finishing, done, GzipDataSource,
  is_finishing, is_done, prepend, deflate_next, refill, deflate_loop,
}
use httpuv.Gzip.Contract.{History, finished, IsZlib}

abbrev pub at : {S Z : Type 0} → S → Z → Bytes → GdState → GzipDataSource S Z
at source z input state = record { data_source = source; zstrm = z; next_in = input; state = state }

-- How a call ends that started after the output `o`, with room for `avail` bytes, of a stream that
-- is to compress `total`.
pub data Ends {S Z : Type 0} (d : DataSource S) (zlib : Zlib Z) (gunzip : Bytes → Option Bytes)
    (total o : Bytes) (avail : ℕ) (r : Option (GzipDataSource S Z × Bytes)) : Type 0 where
  full_streaming :
      {source : S} {z : Z} {i input out : Bytes} (pieces : List Bytes)
      → r ≡ some (at source z input streaming, out)
      → length out ≡ avail
      → Yields d source pieces
      → History zlib false z i (o ++ out)
      → i ++ (input ++ joined pieces) ≡ total
      → Ends d zlib gunzip total o avail r
  full_finishing :
      {source : S} {z : Z} {was_finishing : Bool} {out : Bytes}
      → r ≡ some (at source z [] finishing, out)
      → length out ≡ avail
      → History zlib was_finishing z total (o ++ out)
      → Ends d zlib gunzip total o avail r
  over :
      {source : S} {z : Z} {out : Bytes}
      → r ≡ some (at source z [] done, out)
      → length out ≤ avail
      → gunzip (o ++ out) ≡ some total
      → Ends d zlib gunzip total o avail r

module _ {S Z : Type 0} (d : DataSource S) (zlib : Zlib Z) (gunzip : Bytes → Option Bytes) where
  -- After a first output that fits, what the rest of the call does is what the call does.
  pub Ends-prepend :
      {total o : Bytes} {avail : ℕ} {r : Option (GzipDataSource S Z × Bytes)} (out : Bytes)
      → length out ≤ avail
      → Ends d zlib gunzip total (o ++ out) (avail - length out) r
      → Ends d zlib gunzip total o avail (prepend out r)
  Ends-prepend {o = o} out h (full_streaming {out = rest} pieces e l y past t) =
      full_streaming pieces (ap (prepend out) e) (omega (arith, l, length-append out rest)) y
        (rw (← append_assoc o out rest) past) t
  Ends-prepend {o = o} out h (full_finishing {was_finishing = f} {out = rest} e l past) =
      full_finishing {was_finishing = f} (ap (prepend out) e)
        (omega (arith, l, length-append out rest)) (rw (← append_assoc o out rest) past)
  Ends-prepend {o = o} out h (over {out = rest} e l g) =
      over (ap (prepend out) e) (omega (arith, l, length-append out rest))
        (rw (← append_assoc o out rest) g)

  pub goes_round :
      (n b avail : ℕ) (g : GzipDataSource S Z) {v w : GzipDataSource S Z} {out : Bytes}
      → 0 < avail
      → is_done g.state ≡ false
      → refill d zlib b g ≡ some v
      → deflate_next d zlib avail v ≡ some (w, out)
      → deflate_loop d zlib (suc n) b avail g
        ≡ prepend out (deflate_loop d zlib n b (avail - length out) w)
  unfolding deflate_loop
  goes_round n b avail g h live e f =
      let room : (avail == 0) ≡ false = ground arith in rw (room, live, e, f, deflate_loop) refl

  pub ends_done :
      (n b avail : ℕ) (source : S) (z : Z) (input : Bytes)
      → 0 < n
      → deflate_loop d zlib n b avail (at source z input done) ≡ some (at source z input done, [])
  unfolding deflate_loop
  ends_done zero b avail source z input h = absurd (omega arith)
  ends_done (suc n) b avail source z input h = elim (Bool-cases (avail == 0)) [
    | inl e ↦ rw (e, deflate_loop) refl
    | inr e ↦ rw (e, deflate_loop) refl
  ]

  pub ends_full :
      (n b avail : ℕ) (g : GzipDataSource S Z)
      → avail ≡ 0
      → deflate_loop d zlib (suc n) b avail g ≡ some (g, [])
  unfolding deflate_loop
  ends_full n b avail g e =
      let full : (avail == 0) ≡ true = ground (arith, e) in rw (full, deflate_loop) refl

  pub deflate-ok :
      (avail : ℕ) (source : S) (z : Z) (input : Bytes) (state : GdState)
      → let res = zlib.deflate z (is_finishing state) input avail in
        res.code ≡ ok
        → deflate_next d zlib avail (at source z input state)
          ≡ some (at source res.stream (drop res.consumed input) state, res.output)
  unfolding deflate_next
  deflate-ok avail source z input state e = rw (e, deflate_next) refl

  deflate-stream_end :
      (avail : ℕ) (source : S) (z : Z) (input : Bytes) (state : GdState)
      → let res = zlib.deflate z (is_finishing state) input avail in
        res.code ≡ stream_end
        → deflate_next d zlib avail (at source z input state)
          ≡ some (at source res.stream (drop res.consumed input) done, res.output)
  unfolding deflate_next
  deflate-stream_end avail source z input state e = rw (e, deflate_next) refl

  Code-cases : (c : Code) → (c ≡ ok) ⊎ ((c ≡ stream_end) ⊎ (c ≡ failed))
  Code-cases ok = inl refl
  Code-cases stream_end = inr (inl refl)
  Code-cases failed = inr (inr refl)

  drop_nil : (j : ℕ) → drop {A = ℕ} j [] ≡ []
  drop_nil zero = refl
  drop_nil (suc j) = refl

  pub refill-finishing :
      (b : ℕ) (source : S) (z : Z)
      → refill d zlib b (at source z [] finishing) ≡ some (at source z [] finishing)
  unfolding refill
  refill-finishing b source z = refl

  module _ {bound : ℕ → ℕ} (is_zlib : IsZlib zlib gunzip bound) (total : Bytes) where
    pub Ends-finishing :
        (n b avail : ℕ) (source : S) (z : Z) (o : Bytes) (f : Bool)
        → History zlib f z total o
        → avail < n
        → Ends d zlib gunzip total o avail
            (deflate_loop d zlib n b avail (at source z [] finishing))
    Ends-finishing zero b avail source z o f past h = absurd (omega arith)
    Ends-finishing (suc n) b avail source z o f past h = elim (Bool-cases (avail == 0)) [
      | inl no_room ↦
          full_finishing {was_finishing = f} (ends_full n b avail _ (ground (arith, no_room)))
            (ground (arith, no_room)) (rw (append-nil o) past)
      | inr some_room ↦
          let room : 0 < avail = ground (arith, some_room) in
          let fit = is_zlib.fits z true [] avail in
          let out = (zlib.deflate z true [] avail).output in
          elim (Code-cases (zlib.deflate z true [] avail).code) [
            | inl going ↦
                let some_out : 0 < length out = omega (
                  arith,
                  is_zlib.progress z true [] avail going,
                  is_zlib.reads_input z true [] avail,
                ) in
                rw
                  (
                    goes_round n b avail (at source z [] finishing) room refl
                        (refill-finishing b source z)
                        (deflate-ok avail source z [] finishing going),
                    drop_nil,
                  )
                  (Ends-prepend out fit (
                    Ends-finishing n b (avail - length out) source _ _ true
                      (finished past room going) (omega (arith, h, some_out, room))))
            | inr (inl ended) ↦
                rw
                  (
                    goes_round n b avail (at source z [] finishing) room refl
                        (refill-finishing b source z)
                        (deflate-stream_end avail source z [] finishing ended),
                    drop_nil,
                  )
                  (Ends-prepend out fit (
                    over (ends_done n b _ source _ [] (omega (arith, h, room))) (omega arith)
                      (rw (append-nil (o ++ out)) (is_zlib.whole past room ended))))
            | inr (inr bad) ↦ absurd (is_zlib.finishes_ok past room bad)
          ]
    ]
