-- ===== src/Output/Whole.antt =====
-- A body goes out whole.
use httpuv.Base.{
  ℕ, zero, suc, ◌-◌, ◌≤◌, ◌<◌, ◌≡◌, refl, ap, ◌∙◌, arith, Bool, true, false, List, [], ◌∷◌, ◌++◌,
  Bytes, ◌==◌, length, Option, some, append-nil, hexadecimal, length-append, Bool-cases, inl, inr,
}
use httpuv.Output.{
  crlf, DataSource, Output, uv_write, close_source, write_complete, ExtendedWrite,
  new_extended_write, finish, write_data, next, end_write, prefix_of, suffix_of, InMemoryDataSource,
  in_memory_source,
}
use httpuv.Output.Memory.{Yields, joined, memory-Yields}
use httpuv.Output.Chunked.{dechunked, dechunked-chunk, dechunked-last}
use httpuv.Output.Order.{ends, write_all}

-- The bytes that the writes put on the stream.
pub wire : List Output → Bytes
wire [] = []
wire (uv_write prefix buf suffix ∷ log) = (prefix ++ (buf ++ suffix)) ++ wire log
wire (close_source ∷ log) = wire log
wire (write_complete status ∷ log) = wire log

-- One write for each piece, one for the end in chunked mode, and the end announced.
written : Bool → List Bytes → List Output
written chunked (piece ∷ pieces) =
    uv_write (prefix_of chunked piece) piece (suffix_of chunked piece) ∷ written chunked pieces
written true [] = uv_write [] [] (suffix_of true []) ∷ close_source ∷ write_complete 0 ∷ []
written false [] = close_source ∷ write_complete 0 ∷ []

-- `n` writes end, each with the stream's queue empty.
pub in_turn : ℕ → List Bool
in_turn zero = []
in_turn (suc n) = true ∷ in_turn n

module _ {S : Type 0} (d : DataSource S) where
  abbrev going : Bool → S → ExtendedWrite S
  going chunked source = new_extended_write source chunked

  -- From `next` on: the log, and how the writes end.
  abbrev onward : ℕ → ExtendedWrite S → List Output
  onward n w = (next d w).1 ++ (ends d (in_turn n) (next d w).0).1

  ends_step :
      (n : ℕ) (w : ExtendedWrite S)
      → w.active_writes ≡ 1
      → (ends d (in_turn (suc n)) w).1 ≡ onward n (record w { active_writes = 0 })
  unfolding ends in_turn end_write
  ends_step n w e =
      let idle : (w.active_writes == 0) ≡ false = ground (arith, e) in
      let none_left : w.active_writes - 1 ≡ 0 = omega (arith, e) in rw (idle, none_left)

  next_piece :
      (chunked : Bool) (source after : S) (piece : Bytes)
      → 0 < length piece
      → d.get_data 65536 source ≡ some (piece, after)
      → next d (going chunked source) ≡ (
        record (going chunked after) { active_writes = 1 },
        uv_write (prefix_of chunked piece) piece (suffix_of chunked piece) ∷ [],
      )
  unfolding next write_data prefix_of suffix_of
  next_piece false source after piece h e =
      let some_bytes : (length piece == 0) ≡ false = ground arith in rw (e, some_bytes)
  next_piece true source after piece h e =
      let some_bytes : (length piece == 0) ≡ false = ground arith in
      let size = hexadecimal (length piece) ++ crlf in
      elim (Bool-cases (length size == 0)) [
        | inl none_before ↦ rw (e, some_bytes, none_before)
        | inr before ↦ rw (e, some_bytes, before)
      ]

  ends_idle : (n : ℕ) (w : ExtendedWrite S) → w.active_writes ≡ 0 → (ends d (in_turn n) w).1 ≡ []
  unfolding ends in_turn
  ends_idle zero w e = refl
  ends_idle (suc n) w e = ground (arith, e)

  onward_end :
      (n : ℕ) (chunked : Bool) (source after : S)
      → d.get_data 65536 source ≡ some ([], after)
      → onward (suc n) (going chunked source) ≡ written chunked []
  unfolding written next write_data finish prefix_of suffix_of in_turn ends end_write
  onward_end n false source after e = rw e
  onward_end n true source after e =
      let over : ExtendedWrite S = record {
        chunked = true;
        active_writes = 0;
        errored = false;
        completed = true;
        source = d.close after;
      } in
      rw (e, ends_idle n over refl)

  onward-written :
      (n : ℕ) (chunked : Bool) (pieces : List Bytes) (source : S)
      → Yields d source pieces
      → length pieces < n
      → onward n (going chunked source) ≡ written chunked pieces
  unfolding Yields written
  onward-written zero chunked pieces source y h = absurd (omega arith)
  onward-written (suc n) chunked (piece ∷ pieces) source (some_bytes, le, after, e, y) h = rw (
    next_piece chunked source after piece some_bytes e,
    ends_step n (record (going chunked after) { active_writes = 1 }) refl,
    onward-written n chunked pieces after y (omega (arith, h)),
  )
  onward-written (suc n) chunked [] source (after, e) h = onward_end n chunked source after e

-- The body that was put on the stream, in chunked mode by the decoder with fuel `n`.
pub body_of : Bool → ℕ → List Output → Option Bytes
body_of true n log = dechunked n (wire log)
body_of false n log = some (wire log)

-- The log without its writes.
pub without_writes : List Output → List Output
without_writes [] = []
without_writes (uv_write prefix buf suffix ∷ log) = without_writes log
without_writes (close_source ∷ log) = close_source ∷ without_writes log
without_writes (write_complete status ∷ log) = write_complete status ∷ without_writes log

without_writes-written :
    (chunked : Bool) (pieces : List Bytes)
    → without_writes (written chunked pieces) ≡ close_source ∷ write_complete 0 ∷ []
unfolding without_writes written
without_writes-written chunked (piece ∷ pieces) = without_writes-written chunked pieces
without_writes-written true [] = refl
without_writes-written false [] = refl

wire-written : (pieces : List Bytes) → wire (written false pieces) ≡ joined pieces
unfolding written wire prefix_of suffix_of
wire-written [] = refl
wire-written (piece ∷ pieces) = rw (append-nil piece, wire-written pieces)

body_of-written :
    {S : Type 0} (d : DataSource S) (n : ℕ) (chunked : Bool) (pieces : List Bytes) (source : S)
    → Yields d source pieces
    → length pieces < n
    → body_of chunked n (written chunked pieces) ≡ some (joined pieces)
unfolding Yields body_of written wire suffix_of prefix_of
body_of-written d n false pieces source y h = ap some (wire-written pieces)
body_of-written d zero true pieces source y h = absurd (omega arith)
body_of-written d (suc n) true (piece ∷ pieces) source (some_bytes, le, after, e, y) h =
    dechunked-chunk n piece (wire (written true pieces)) (joined pieces) some_bytes le
      (body_of-written d n true pieces after y (omega (arith, h)))
body_of-written d (suc n) true [] source y h =
    rw (append-nil (suffix_of true [])) (dechunked-last n)

-- A source that gives its data in pieces of 65536 bytes at most and then no more, with more writes
-- than pieces that end one after the other on an empty queue: the bytes of the writes, in chunked
-- mode decoded, are the pieces joined, and the rest of the log is that the source is closed and
-- then, once, the end announced as a success.
pub body_of-write_all :
    {S : Type 0} (d : DataSource S) (n : ℕ) (chunked : Bool) (pieces : List Bytes) (source : S)
    → Yields d source pieces
    → length pieces < n
    → (body_of chunked n (write_all d source chunked (in_turn n)).1 ≡ some (joined pieces))
      × (without_writes (write_all d source chunked (in_turn n)).1
          ≡ close_source ∷ write_complete 0 ∷ [])
unfolding write_all
body_of-write_all d n chunked pieces source y h =
    let log = onward-written d n chunked pieces source y h in
    (
      rw log (body_of-written d n chunked pieces source y h),
      rw log (without_writes-written chunked pieces),
    )

length-joined :
    {S : Type 0} (d : DataSource S) (pieces : List Bytes) (source : S)
    → Yields d source pieces
    → length pieces ≤ length (joined pieces)
unfolding Yields
length-joined d [] source y = omega arith
length-joined d (piece ∷ pieces) source (some_bytes, le, after, e, y) =
    omega (arith, length-append piece (joined pieces), some_bytes, length-joined d pieces after y)

-- An InMemoryDataSource from its start: with more writes than bytes, its bytes are the body that goes
-- out, in chunked mode decoded, and the end is announced once, as a success, after the close.
pub body_of-in_memory :
    (buffer : Bytes) (n : ℕ) (chunked : Bool)
    → length buffer < n
    → let source : InMemoryDataSource = record { buffer = buffer; pos = 0 } in
      let log = (write_all in_memory_source source chunked (in_turn n)).1 in
      (body_of chunked n log ≡ some buffer)
      × (without_writes log ≡ close_source ∷ write_complete 0 ∷ [])
body_of-in_memory buffer n chunked h =
    let (pieces, y, j) = memory-Yields buffer (length buffer) 0 (omega arith) (omega arith) in
    let source : InMemoryDataSource = record { buffer = buffer; pos = 0 } in
    let few : length pieces < n =
      omega (arith, h, length-joined in_memory_source pieces source y, ap length j) in
    let (body, end) = body_of-write_all in_memory_source n chunked pieces source y few in
    (body ∙ ap some j, end)
