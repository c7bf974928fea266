-- ===== src/WebSocket/Hixie76/Chunks.antt =====
-- `read` on every input, and a stream that arrives cut into pieces.
use httpuv.Base.{
  ℕ, zero, suc, ◌+◌, ◌*◌, ◌<◌, ◌≡◌, refl, ◌∙◌, List, [], ◌∷◌, ◌++◌, Bytes, length, arith, Option,
  some, none,
}
use httpuv.WebSocket.Parser.{ParserEvent}
use httpuv.WebSocket.Parser.Stream.{tokens}
use httpuv.WebSocket.Parser.Refinement.{tokens-append}
use httpuv.WebSocket.Parser.Chunks.{joined}
use httpuv.WebSocket.Hixie76.{
  Hixie76State, WsHixie76Parser, read_hixie76_at, prepend_hixie76, read_hixie76_loop, read_hixie76,
}
use httpuv.WebSocket.Hixie76.Machine.{run, run-append}
use httpuv.WebSocket.Hixie76.Rounds.{IsValid, weight, read_hixie76_at-Follows}

-- A result that has the machine's state and tokens, with a valid parser.
abbrev Agrees : WsHixie76Parser → Bytes → Option (WsHixie76Parser × List ParserEvent) → Type 0
Agrees p input result =
    (es : List ParserEvent) × (result ≡ some ((run p input).0, es))
    × (tokens es ≡ (run p input).1)
    × IsValid (run p input).0

loop-Agrees :
    (fuel : ℕ) (p : WsHixie76Parser) (input : Bytes)
    → IsValid p
    → 2 * length input + weight p.state < fuel
    → Agrees p input (read_hixie76_loop fuel p input)
unfolding read_hixie76_loop
loop-Agrees zero p input v h = absurd (omega arith)
loop-Agrees (suc fuel) p [] v h = unfold run tokens in ([], refl, refl, v)
loop-Agrees (suc fuel) p (b ∷ rest) v h =
    let r = read_hixie76_at p.state p b rest in
    let f = read_hixie76_at-Follows p.state p.bytes_left b rest v in
    let (es, e, t, w) = loop-Agrees fuel r.parser r.unread f.valid (omega (arith, f.shorter)) in
    (
      r.events ++ es,
      rw (e, f.same_run),
      tokens-append r.events es ∙ rw (t, f.same_run),
      rw f.same_run w,
    )

enough : (s : Hixie76State) (n : ℕ) → 2 * n + weight s < 2 * n + 2
enough s n = ground arith

read_hixie76-Agrees :
    (p : WsHixie76Parser) (input : Bytes) → IsValid p → Agrees p input (read_hixie76 p input)
unfolding read_hixie76
read_hixie76-Agrees p input v =
    loop-Agrees (2 * length input + 2) p input v (enough p.state (length input))

-- The calls of `read` for a stream that arrives in pieces.
pub read_hixie76_all : WsHixie76Parser → List Bytes → Option (WsHixie76Parser × List ParserEvent)
read_hixie76_all p [] = some (p, [])
read_hixie76_all p (piece ∷ pieces) = elim (read_hixie76 p piece) [
  | none ↦ none
  | some (q, es) ↦ prepend_hixie76 es (read_hixie76_all q pieces)
]

read_hixie76_all_cons :
    (p q : WsHixie76Parser) (piece : Bytes) (pieces : List Bytes) (es : List ParserEvent)
    → read_hixie76 p piece ≡ some (q, es)
    → read_hixie76_all p (piece ∷ pieces) ≡ prepend_hixie76 es (read_hixie76_all q pieces)
unfolding read_hixie76_all
read_hixie76_all_cons p q piece pieces es e = rw (e, read_hixie76_all)

-- From a valid parser the older protocol's parser, too, reads a stream to its end however it is cut
-- into pieces, into the state of the byte machine after all the bytes; its calls, with the pieces
-- of the payloads taken apart, are the tokens of that one run.
pub read_hixie76_all-run :
    (p : WsHixie76Parser) (pieces : List Bytes)
    → IsValid p
    → (es : List ParserEvent) × (read_hixie76_all p pieces ≡ some ((run p (joined pieces)).0, es))
      × (tokens es ≡ (run p (joined pieces)).1)
read_hixie76_all-run p [] v = unfold read_hixie76_all run tokens in ([], refl, refl)
read_hixie76_all-run p (piece ∷ pieces) v =
    let (es, e, t, w) = read_hixie76-Agrees p piece v in
    let (fs, f, u) = read_hixie76_all-run (run p piece).0 pieces w in
    (
      es ++ fs,
      rw (read_hixie76_all_cons p _ piece pieces es e, f, run-append),
      rw (tokens-append, t, u, run-append),
    )
