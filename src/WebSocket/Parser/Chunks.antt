-- ===== src/WebSocket/Parser/Chunks.antt =====
-- `read` on every input, and a stream that arrives cut into pieces.
use httpuv.Base.{
  ℕ, zero, suc, ◌+◌, ◌-◌, ◌*◌, ◌≤◌, ◌<◌, ◌≡◌, refl, false, List, [], ◌∷◌, ◌++◌, Bytes, ltb, length,
  drop, length-drop, arith, ◌==◌, Bool-cases, inl, inr, Option, some, none,
}
use httpuv.WebSocket.Proto.{WebSocketProto}
use httpuv.WebSocket.Frame.{frame_header, header_length, payload_length}
use httpuv.WebSocket.Parser.{
  WsHyBiParser, WsParseState, in_header, in_payload, ParserEvent, prepend, read,
}
use httpuv.WebSocket.Parser.Stream.{tokens, step, step_payload, after_header, run, run-append}
use httpuv.WebSocket.Parser.Header.{
  complete, accumulated, header_goes_on, incomplete-short, length-accumulated, empty-incomplete,
}
use httpuv.WebSocket.Parser.Runs.{at_header, at_payload, step_incomplete, step-complete}
use httpuv.WebSocket.Parser.Refinement.{
  IsValid, Agrees, Agrees-stop, Agrees-part, Agrees-empty, Agrees-header, Agrees-short,
  Agrees-whole, tokens-append,
}

-- The header's last bytes are taken off the input, one byte at least.
rest_shorter :
    (proto : WebSocketProto) (h : Bytes) (b : ℕ) (d : Bytes)
    → complete proto h ≡ false
    → length (drop (header_length (frame_header proto (accumulated h (b ∷ d))) - length h) (b ∷ d))
      ≤ length d
rest_shorter proto h b d e = rw length-drop (
    omega (
      arith,
      header_goes_on proto h _ e
          (length-accumulated h (b ∷ d) (omega (arith, incomplete-short proto h e))),
    ))

abbrev parser_at : WebSocketProto → WsParseState → Bytes → ℕ → WsHyBiParser
parser_at proto state h n = record { proto = proto; state = state; header = h; bytes_left = n }

loop-Agrees :
    (fuel : ℕ) (proto : WebSocketProto) (state : WsParseState) (h : Bytes) (n : ℕ) (d : Bytes)
    → IsValid (parser_at proto state h n)
    → 2 * length d < fuel
    → Agrees fuel (parser_at proto state h n) false d (run (parser_at proto state h n) d)
loop-Agrees zero proto state h n d v lt = absurd (omega arith)
loop-Agrees (suc fuel) proto state h n [] v lt =
    unfold run in Agrees-stop fuel (parser_at proto state h n)
loop-Agrees (suc zero) proto state h n (b ∷ d) v lt = absurd (omega arith)
loop-Agrees (suc (suc zero)) proto state h n (b ∷ d) v lt = absurd (omega arith)
loop-Agrees (suc (suc (suc fuel))) proto in_header h n (b ∷ d) v lt =
    let shorter = rest_shorter proto h b d v in
    let f = frame_header proto (accumulated h (b ∷ d)) in
    let rest = drop (header_length f - length h) (b ∷ d) in
    elim (Bool-cases (complete proto (accumulated h (b ∷ d)))) [
      | inr part ↦ Agrees-part (suc fuel) proto h n (b ∷ d) (ground arith) v part
      | inl whole ↦ elim (Bool-cases (payload_length f == 0)) [
        | inl z ↦ Agrees-empty (suc fuel) proto h n (b ∷ d) (ground arith) v whole z (
            loop-Agrees (suc fuel) proto in_header [] 0 rest (empty-incomplete proto)
              (omega (arith, shorter)))
        | inr nz ↦ Agrees-header (suc (suc fuel)) proto h n (b ∷ d) (ground arith) v whole nz (
            loop-Agrees (suc (suc fuel)) proto in_payload [] (payload_length f) rest
              (refl, ground arith) (omega (arith, shorter)))
      ]
    ]
loop-Agrees (suc (suc (suc fuel))) proto in_payload h n (b ∷ d) (e, pos) lt =
    rw e (elim (Bool-cases (ltb (length (b ∷ d)) n)) [
      | inl short ↦ Agrees-short (suc fuel) proto [] n (b ∷ d) (ground arith) (ground arith)
      | inr whole ↦
          Agrees-whole (suc (suc fuel)) proto [] n (b ∷ d) (ground arith) pos (ground arith) (
            loop-Agrees (suc (suc fuel)) proto in_header [] 0 (drop n (b ∷ d))
              (empty-incomplete proto) (omega (arith, length-drop n (b ∷ d))))
    ])

-- From a valid parser `read` returns on every input. It leaves the parser in the state of the byte
-- machine, and its calls, with the pieces of the payloads taken apart, are the machine's tokens.
pub read-run :
    (p : WsHyBiParser) (input : Bytes)
    → IsValid p
    → (es : List ParserEvent) × (read p input ≡ some ((run p input).0, es))
      × (tokens es ≡ (run p input).1)
unfolding read
read-run p input v =
    loop-Agrees (2 * length input + 1) p.proto p.state p.header p.bytes_left input v (omega arith)

step_header-IsValid :
    (proto : WebSocketProto) (h : Bytes) (n b : ℕ) → IsValid (step (at_header proto h n) b).0
unfolding after_header
step_header-IsValid proto h n b = elim (Bool-cases (complete proto (h ++ b ∷ []))) [
  | inr part ↦ rw (step_incomplete proto h n b part) part
  | inl whole ↦
      rw (step-complete proto h n b whole)
        (elim (Bool-cases (payload_length (frame_header proto (h ++ b ∷ [])) == 0)) [
          | inl z ↦ rw z (empty-incomplete proto)
          | inr nz ↦ rw nz (refl, ground arith)
        ])
]

step_payload-IsValid :
    (proto : WebSocketProto) (n b : ℕ) → IsValid (step (at_payload proto [] n) b).0
unfolding step step_payload
step_payload-IsValid proto n b = elim (Bool-cases (n - 1 == 0)) [
  | inl z ↦ rw z (empty-incomplete proto)
  | inr nz ↦ rw nz (refl, ground arith)
]

step_at-IsValid :
    (proto : WebSocketProto) (state : WsParseState) (h : Bytes) (n b : ℕ)
    → IsValid (parser_at proto state h n)
    → IsValid (step (parser_at proto state h n) b).0
step_at-IsValid proto in_header h n b v = step_header-IsValid proto h n b
step_at-IsValid proto in_payload h n b (e, pos) = rw e (step_payload-IsValid proto n b)

step-IsValid : (p : WsHyBiParser) (b : ℕ) → IsValid p → IsValid (step p b).0
step-IsValid p b v = step_at-IsValid p.proto p.state p.header p.bytes_left b v

pub run-IsValid : (p : WsHyBiParser) (input : Bytes) → IsValid p → IsValid (run p input).0
unfolding run
run-IsValid p [] v = v
run-IsValid p (b ∷ input) v = run-IsValid (step p b).0 input (step-IsValid p b v)

-- The calls of `read` for a stream that arrives in pieces.
pub read_all : WsHyBiParser → List Bytes → Option (WsHyBiParser × List ParserEvent)
read_all p [] = some (p, [])
read_all p (piece ∷ pieces) = elim (read p piece) [
  | none ↦ none
  | some (q, es) ↦ prepend es (read_all q pieces)
]

read_all_cons :
    (p q : WsHyBiParser) (piece : Bytes) (pieces : List Bytes) (es : List ParserEvent)
    → read p piece ≡ some (q, es)
    → read_all p (piece ∷ pieces) ≡ prepend es (read_all q pieces)
unfolding read_all
read_all_cons p q piece pieces es e = rw (e, read_all)

abbrev pub joined : List Bytes → Bytes
joined [] = []
joined (piece ∷ pieces) = piece ++ joined pieces

-- How a stream is cut into pieces does not matter: from a valid parser every list of pieces is
-- read to its end, into the state of the byte machine after all the bytes; the calls, with the
-- pieces of the payloads taken apart, are the tokens of that one run.
pub read_all-run :
    (p : WsHyBiParser) (pieces : List Bytes)
    → IsValid p
    → (es : List ParserEvent) × (read_all p pieces ≡ some ((run p (joined pieces)).0, es))
      × (tokens es ≡ (run p (joined pieces)).1)
read_all-run p [] v = unfold read_all run tokens in ([], refl, refl)
read_all-run p (piece ∷ pieces) v =
    let (es, e, t) = read-run p piece v in
    let (fs, f, u) = read_all-run (run p piece).0 pieces (run-IsValid p piece v) in
    (
      es ++ fs,
      rw (read_all_cons p _ piece pieces es e, f, run-append),
      rw (tokens-append, t, u, run-append),
    )
