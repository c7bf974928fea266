-- ===== src/Tests/Hixie76.antt =====
-- The parser of the older WebSocket protocol at concrete inputs.
use httpuv.Base.{◌≡◌, refl, List, [], ◌∷◌, Bytes, some}
use httpuv.WebSocket.Proto.{text, ping}
use httpuv.WebSocket.Parser.{ParserEvent}
use httpuv.WebSocket.Parser.Stream.{tokens}
use httpuv.WebSocket.Parser.Chunks.{joined}
use httpuv.WebSocket.Hixie76.{WsHixie76Parser, new_hixie76_parser, create_frame_header_footer}
use httpuv.WebSocket.Hixie76.Machine.{run}
use httpuv.WebSocket.Hixie76.Chunks.{read_hixie76_all, read_hixie76_all-run}
use httpuv.WebSocket.Hixie76.Frames.{
  Message, written_messages, text_tokens, read_hixie76_all-written_messages,
}

abbrev fresh : WsHixie76Parser
fresh = new_hixie76_parser 0

-- A text "Hi", then a binary frame of two bytes, in four pieces.
abbrev cut : List Bytes
cut = (0 ∷ 72 ∷ []) ∷ (105 ∷ 255 ∷ 255 ∷ []) ∷ (2 ∷ 1 ∷ []) ∷ (7 ∷ []) ∷ []

read_hixie76_all-run_example :
    (es : List ParserEvent) × (read_hixie76_all fresh cut ≡ some ((run fresh (joined cut)).0, es))
    × (tokens es ≡ (run fresh (joined cut)).1)
read_hixie76_all-run_example = read_hixie76_all-run fresh cut tt

abbrev sent : List Message
sent = record { op = text; payload = 72 ∷ 105 ∷ [] } ∷ record { op = ping; payload = [] } ∷ []

abbrev sent_cut : List Bytes
sent_cut = (0 ∷ 72 ∷ []) ∷ (105 ∷ 255 ∷ 0 ∷ 255 ∷ []) ∷ []

sent-written : joined sent_cut ≡ written_messages sent
unfolding written_messages create_frame_header_footer
sent-written = refl

read_hixie76_all-written_messages_example :
    (q : WsHixie76Parser) × (es : List ParserEvent) × (read_hixie76_all fresh sent_cut
      ≡ some (q, es))
    × (tokens es ≡ text_tokens sent)
read_hixie76_all-written_messages_example =
    read_hixie76_all-written_messages 0 sent sent_cut ((refl, (refl, tt)), (tt, tt)) sent-written
