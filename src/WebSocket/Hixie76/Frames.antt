-- ===== src/WebSocket/Hixie76/Frames.antt =====
-- Whole frames through the parser: what createFrameHeaderFooter puts around a payload.
use httpuv.Base.{
  ℕ, ◌≡◌, refl, ap, ◌∙◌, List, [], ◌∷◌, ◌++◌, Bytes, All, length, some, ◌==◌, false, length,
}
use httpuv.WebSocket.Proto.{Opcode, text}
use httpuv.WebSocket.Parser.{ParserEvent}
use httpuv.WebSocket.Parser.Stream.{Token, head, done, bytes_of, tokens}
use httpuv.WebSocket.Parser.Chunks.{joined}
use httpuv.WebSocket.Hixie76.{
  start, in_text_frame, WsHixie76Parser, new_hixie76_parser, plain_info, create_frame_header_footer,
}
use httpuv.WebSocket.Hixie76.Machine.{step_at, run, before}
use httpuv.WebSocket.Hixie76.Rounds.{at_state}
use httpuv.WebSocket.Hixie76.Chunks.{read_hixie76_all, read_hixie76_all-run}

-- A byte that is no end marker.
abbrev pub IsPlain : ℕ → Type 0
IsPlain b = (b == 0xFF) ≡ false

run_plain :
    (payload rest : Bytes)
    → All IsPlain payload
    → run (at_state in_text_frame 0) (payload ++ 0xFF ∷ rest)
      ≡ before (bytes_of payload ++ done ∷ []) (run (at_state start 0) rest)
unfolding run step_at bytes_of
run_plain [] rest h = refl
run_plain (b ∷ payload) rest (h, hs) = rw (h, run_plain payload rest hs)

-- A message to send, with its opcode.
pub record Message : Type 0 where
  pub op : Opcode
  pub payload : Bytes

abbrev pub IsPlainMessage : Message → Type 0
IsPlainMessage m = All IsPlain m.payload

-- The bytes of messages one after the other.
unfoldable pub written_messages : List Message → Bytes
written_messages [] = []
written_messages (m ∷ ms) =
    let (header, footer) = create_frame_header_footer m.op false (length m.payload) 0 in
    header ++ (m.payload ++ (footer ++ written_messages ms))

-- Every one of them as a text.
pub text_tokens : List Message → List Token
text_tokens [] = []
text_tokens (m ∷ ms) =
    head (plain_info text false 0) ∷ bytes_of m.payload ++ done ∷ [] ++ text_tokens ms

run_messages :
    (n : ℕ) (ms : List Message)
    → All IsPlainMessage ms
    → (run (at_state start n) (written_messages ms)).1 ≡ text_tokens ms
unfolding written_messages create_frame_header_footer text_tokens run step_at
run_messages n [] h = refl
run_messages n (m ∷ ms) (h, hs) =
    rw (run_plain m.payload (written_messages ms) h, run_messages 0 ms hs)

-- Messages whose payloads hold no byte 0xFF, framed one behind the other and cut into pieces in any
-- way, are all read by a new parser, in order, with their payloads; each as a text, whatever
-- opcode it was sent with.
pub read_hixie76_all-written_messages :
    (n : ℕ) (ms : List Message) (pieces : List Bytes)
    → All IsPlainMessage ms
    → joined pieces ≡ written_messages ms
    → (q : WsHixie76Parser) × (es : List ParserEvent) × (read_hixie76_all
          (new_hixie76_parser n)
          pieces
        ≡ some (q, es))
      × (tokens es ≡ text_tokens ms)
read_hixie76_all-written_messages n ms pieces h e =
    let (es, r, t) = read_hixie76_all-run (new_hixie76_parser n) pieces tt in
    (
      (run (new_hixie76_parser n) (joined pieces)).0,
      es,
      r,
      t ∙ ap (λ s. (run (new_hixie76_parser n) s).1) e ∙ run_messages n ms h,
    )
