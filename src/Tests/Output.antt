-- ===== src/Tests/Output.antt =====
-- Bodies going out at concrete inputs.
use httpuv.Base.{
  ◌≡◌, ◌==◌, if◌then◌else◌, ◌≤◌, ◌+◌, refl, arith, some, true, false, [], ◌∷◌, Bytes, bytes,
}
use httpuv.Output.{DataSource, InMemoryDataSource, in_memory_source, close_source, write_complete}
use httpuv.Output.Order.{announced, write_all, announced-write_all}
use httpuv.Output.Memory.{Yields}
use httpuv.Output.Whole.{in_turn, body_of, without_writes, body_of-write_all}

abbrev some_source : InMemoryDataSource
some_source = record { buffer = bytes "hello"; pos = 0 }

announced-write_all_example :
    announced (write_all in_memory_source some_source true (true ∷ false ∷ true ∷ [])).1
      + (write_all in_memory_source some_source true (true ∷ false ∷ true ∷ [])).0.active_writes
    ≤ 1
announced-write_all_example =
    announced-write_all in_memory_source some_source true (true ∷ false ∷ true ∷ [])

abbrev no_bytes : Bytes
no_bytes = []

-- A source that has the text "ab" and then the text "c".
abbrev two_pieces : DataSource Bytes
two_pieces = record {
  size = λ s. 3;
  get_data = λ n s. elim s [
    | [] ↦ some (no_bytes, no_bytes)
    | b ∷ _ ↦ if b == 1 then some (bytes "ab", 2 ∷ []) else some (bytes "c", no_bytes)
  ];
  close = λ s. s;
}

two_pieces-Yields : Yields two_pieces (1 ∷ []) (bytes "ab" ∷ bytes "c" ∷ [])
unfolding Yields
two_pieces-Yields =
    (omega arith, omega arith, 2 ∷ [], refl, (omega arith, omega arith, [], refl, ([], refl)))

body_of-write_all_example :
    let log = (write_all two_pieces (1 ∷ []) true (in_turn 3)).1 in
    (body_of true 3 log ≡ some (bytes "abc"))
    × (without_writes log ≡ close_source ∷ write_complete 0 ∷ [])
body_of-write_all_example =
    body_of-write_all two_pieces 3 true (bytes "ab" ∷ bytes "c" ∷ []) (1 ∷ []) two_pieces-Yields
      (omega arith)
