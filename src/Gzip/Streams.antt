-- ===== src/Gzip/Streams.antt =====
-- One call of getData while the stream goes on.
use httpuv.Base.{
  ℕ, zero, suc, ◌+◌, ◌-◌, ◌<◌, ◌≡◌, refl, arith, false, List, [], ◌∷◌, ◌++◌, append_assoc,
  append-nil, Bytes, ◌==◌, length, length-append, length-drop, take-append-drop, take, drop, Option,
  some, Bool-cases, inl, inr,
}
use httpuv.Output.{DataSource}
use httpuv.Output.Memory.{Yields, joined}
use httpuv.Gzip.{Zlib, streaming, finishing, GzipDataSource, is_done, refill, deflate_loop}
use httpuv.Gzip.Contract.{History, streamed, IsZlib}
use httpuv.Gzip.Loop.{
  at, Ends, full_streaming, Ends-prepend, goes_round, ends_full, deflate-ok, Ends-finishing,
}

module _ {S Z : Type 0} (d : DataSource S) (zlib : Zlib Z) (gunzip : Bytes → Option Bytes) where
  refill-have :
      (b : ℕ) (source : S) (z : Z) (input : Bytes)
      → 0 < length input
      → refill d zlib b (at source z input streaming) ≡ some (at source z input streaming)
  unfolding refill
  refill-have b source z [] h = absurd (omega (arith, h))
  refill-have b source z (c ∷ cs) h = refl

  refill-piece :
      (b : ℕ) (source after : S) (z : Z) (piece : Bytes)
      → 0 < length piece
      → d.get_data b source ≡ some (piece, after)
      → refill d zlib b (at source z [] streaming) ≡ some (at after z piece streaming)
  unfolding refill
  refill-piece b source after z piece h e =
      let some_bytes : (length piece == 0) ≡ false = ground arith in rw (e, some_bytes, refill) refl

  refill-end :
      (b : ℕ) (source after : S) (z : Z)
      → d.get_data b source ≡ some ([], after)
      → refill d zlib b (at source z [] streaming) ≡ some (at after z [] finishing)
  unfolding refill
  refill-end b source after z e = rw (e, refill) refl

  end_of_data :
      (n avail : ℕ) (source after : S) (z : Z)
      → 0 < avail
      → d.get_data 65536 source ≡ some ([], after)
      → deflate_loop d zlib (suc n) 65536 avail (at source z [] streaming)
        ≡ deflate_loop d zlib (suc n) 65536 avail (at after z [] finishing)
  unfolding deflate_loop refill
  end_of_data n avail source after z h e =
      let room : (avail == 0) ≡ false = ground arith in
      rw (room, refill-end 65536 source after z e, deflate_loop) refl

  module _ {bound : ℕ → ℕ} (is_zlib : IsZlib zlib gunzip bound) (total : Bytes) where
    -- What a call with fuel `n` does from a state with a stream that goes on.
    abbrev pub Streams : ℕ → Type 0
    Streams n =
        (avail : ℕ) (source : S) (z : Z) (input i o : Bytes) (pieces : List Bytes)
        → Yields d source pieces
        → History zlib false z i o
        → i ++ (input ++ joined pieces) ≡ total
        → avail + (length input + length (joined pieces)) < n
        → Ends d zlib gunzip total o avail
            (deflate_loop d zlib n 65536 avail (at source z input streaming))

    -- The same once the input is there: `g` is the state before the block that fetches it.
    Ends-streamed :
        (n avail : ℕ) (g : GzipDataSource S Z) (source : S) (z : Z) (input i o : Bytes)
        (pieces : List Bytes)
        → Streams n
        → is_done g.state ≡ false
        → refill d zlib 65536 g ≡ some (at source z input streaming)
        → 0 < avail
        → 0 < length input
        → Yields d source pieces
        → History zlib false z i o
        → i ++ (input ++ joined pieces) ≡ total
        → avail + (length input + length (joined pieces)) < suc n
        → Ends d zlib gunzip total o avail (deflate_loop d zlib (suc n) 65536 avail g)
    Ends-streamed n avail g source z input i o pieces ih live filled room some_input y past t h =
        let going = is_zlib.streams_ok past some_input room in
        let res = zlib.deflate z false input avail in
        let fit = is_zlib.fits z false input avail in
        let read = is_zlib.reads_input z false input avail in
        let step = is_zlib.progress z false input avail going in
        let rest = drop res.consumed input in
        let t' : (i ++ take res.consumed input) ++ (rest ++ joined pieces) ≡ total =
          rw
            (
              append_assoc i (take res.consumed input) (rest ++ joined pieces),
              ← append_assoc (take res.consumed input) rest (joined pieces),
              take-append-drop res.consumed input,
            )
            t in
        rw
          (goes_round d zlib gunzip n 65536 avail g room live filled
            (deflate-ok d zlib gunzip avail source z input streaming going))
          (Ends-prepend d zlib gunzip res.output fit (
            ih (avail - length res.output) source res.stream rest _ _ pieces y
              (streamed past some_input room) t'
              (omega (arith, h, fit, read, step, length-drop res.consumed input))))

    -- With room for output: what is left of the input, the next piece, or the end of the data.
    Streams-with_room :
        (n avail : ℕ) (source : S) (z : Z) (input i o : Bytes) (pieces : List Bytes)
        → Streams n
        → 0 < avail
        → Yields d source pieces
        → History zlib false z i o
        → i ++ (input ++ joined pieces) ≡ total
        → avail + (length input + length (joined pieces)) < suc n
        → Ends d zlib gunzip total o avail
            (deflate_loop d zlib (suc n) 65536 avail (at source z input streaming))
    unfolding Yields
    Streams-with_room n avail source z (c ∷ cs) i o pieces ih room y past t h =
        let some_input : 0 < length (c ∷ cs) = omega arith in
        Ends-streamed n avail _ source z (c ∷ cs) i o pieces ih refl
          (refill-have 65536 source z (c ∷ cs) some_input) room some_input y past t h
    Streams-with_room n avail source z [] i o (piece ∷ pieces) ih room (some_bytes, le, after, e, y)
          past t h =
        Ends-streamed n avail _ after z piece i o pieces ih refl
          (refill-piece 65536 source after z piece some_bytes e) room some_bytes y past t
          (omega (arith, h, length-append piece (joined pieces)))
    Streams-with_room n avail source z [] i o [] ih room (after, e) past t h =
        let all_read : i ≡ total = rw (← append-nil i) t in
        rw (end_of_data n avail source after z room e) (
          Ends-finishing d zlib gunzip is_zlib total (suc n) 65536 avail after z o false
            (rw (← all_read) past) (omega (arith, h)))

    -- With fuel for the room and for the data that is left, the call ends.
    pub Ends-streaming : (n : ℕ) → Streams n
    Ends-streaming zero avail source z input i o pieces y past t h = absurd (omega arith)
    Ends-streaming (suc n) avail source z input i o pieces y past t h =
        elim (Bool-cases (avail == 0)) [
          | inl no_room ↦
              full_streaming pieces
                (ends_full d zlib gunzip n 65536 avail _ (ground (arith, no_room)))
                (ground (arith, no_room)) y (rw (append-nil o) past) t
          | inr some_room ↦
              Streams-with_room n avail source z input i o pieces (Ends-streaming n)
                (ground (arith, some_room)) y past t h
        ]
