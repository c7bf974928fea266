-- ===== src/Output.antt =====
-- How a body goes out: DataSource, InMemoryDataSource, WriteOp and ExtendedWrite (src/uvutil.h,
-- src/uvutil.cpp). A call of `uv_write`, of the source's `close` and of `onWriteComplete` is an
-- entry of a log, in the order of the calls.
pub mod Memory
pub mod Chunked
pub mod Order
pub mod Whole
use httpuv.Base.{
  ℕ, zero, suc, ◌+◌, ◌-◌, ◌*◌, Bool, true, false, ◌&&◌, ◌||◌, not, List, [], ◌∷◌, ◌++◌, Bytes,
  bytes, ltb, ◌==◌, if◌then◌else◌, length, take, drop, hexadecimal, Option, none, some,
}

-- The class DataSource, over the states of a derived class. `none` is an exception.
pub record DataSource (S : Type 0) : Type 0 where
  pub size : S → ℕ
  pub get_data : ℕ → S → Option (Bytes × S)
  pub close : S → S

pub data Output : Type 0 where
  uv_write : Bytes → Bytes → Bytes → Output
  close_source : Output
  write_complete : ℕ → Output

-- The members of ExtendedWrite but for the stream, the source as its state.
pub record ExtendedWrite (S : Type 0) : Type 0 where
  pub chunked : Bool
  pub active_writes : ℕ
  pub errored : Bool
  pub completed : Bool
  pub source : S

abbrev pub new_extended_write : {S : Type 0} → S → Bool → ExtendedWrite S
new_extended_write source chunked = record {
  chunked = chunked;
  active_writes = 0;
  errored = false;
  completed = false;
  source = source;
}

abbrev pub crlf : Bytes
crlf = 13 ∷ 10 ∷ []

abbrev pub trailer : Bytes
trailer = bytes "0" ++ (crlf ++ crlf)

unfoldable pub prefix_of : Bool → Bytes → Bytes
prefix_of chunked buf =
    if chunked then (if length buf == 0 then [] else hexadecimal (length buf) ++ crlf) else []

unfoldable pub suffix_of : Bool → Bytes → Bytes
suffix_of chunked buf = if chunked then (if length buf == 0 then trailer else crlf) else []

module _ {S : Type 0} (d : DataSource S) where
  -- The part of `next` under `_errored || _completed`.
  unfoldable pub finish : ExtendedWrite S → ExtendedWrite S × List Output
  finish w =
      if w.active_writes == 0
      then (
        record w { source = d.close w.source },
        close_source ∷ write_complete (if w.errored then 1 else 0) ∷ [],
      )
      else (w, [])

  -- What `next` does with the data that it got. With nothing to write it calls itself; it has
  -- completed then.
  unfoldable pub write_data : ExtendedWrite S → Bytes → ExtendedWrite S × List Output
  unfolding finish prefix_of suffix_of
  write_data w buf =
      let v = record w { completed = if length buf == 0 then true else w.completed } in
      let prefix = prefix_of w.chunked buf in
      let suffix = suffix_of w.chunked buf in
      if (length prefix == 0) && (length buf == 0) && (length suffix == 0)
      then finish v
      else (record v { active_writes = w.active_writes + 1 }, uv_write prefix buf suffix ∷ [])

  unfoldable pub next : ExtendedWrite S → ExtendedWrite S × List Output
  unfolding finish
  next w = if w.errored || w.completed then finish w else elim (d.get_data 65536 w.source) [
    | none ↦ finish (record w { errored = true })
    | some (buf, source) ↦ write_data (record w { source = source }) buf
  ]

  abbrev pub begin : ExtendedWrite S → ExtendedWrite S × List Output
  begin w = next w

  -- WriteOp::end, called when one write is done; the argument says whether the stream's queue is
  -- empty.
  unfoldable pub end_write : Bool → ExtendedWrite S → ExtendedWrite S × List Output
  end_write queue_empty w =
      let v = record w { active_writes = w.active_writes - 1 } in
      if queue_empty then next v else (v, [])

-- InMemoryDataSource.
pub record InMemoryDataSource : Type 0 where
  pub buffer : Bytes
  pub pos : ℕ

-- Reading behind the end, which is undefined, would need a `_pos` behind it: as after `close`.
unfoldable pub get_memory : ℕ → InMemoryDataSource → Option (Bytes × InMemoryDataSource)
get_memory bytes_desired m =
    let rest = length m.buffer - m.pos in
    let count = if ltb bytes_desired rest then bytes_desired else rest in
    if ltb (length m.buffer) m.pos
    then none
    else some (take count (drop m.pos m.buffer), record m { pos = m.pos + count })

abbrev pub in_memory_source : DataSource InMemoryDataSource
in_memory_source = record {
  size = λ m. length m.buffer;
  get_data = get_memory;
  close = λ m. record m { buffer = [] };
}

unfoldable pub add : InMemoryDataSource → Bytes → InMemoryDataSource
add m more_data = record m { buffer = m.buffer ++ more_data }
