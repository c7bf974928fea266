-- ===== src/Tests/Socket.antt =====
-- The WebSocket parser and connection at concrete inputs.
use httpuv.Base.{◌+◌, ◌≤◌, ◌≡◌, ◌++◌, refl, arith, true, false, List, [], ◌∷◌, Bytes, some}
use httpuv.WebSocket.Proto.{text, close}
use httpuv.WebSocket.Ietf.{ietf, ietf-IsCodec}
use httpuv.WebSocket.Frame.{WsFrameHeaderInfo, create_frame_header}
use httpuv.WebSocket.Frame.Written.{written_info}
use httpuv.WebSocket.Parser.{WsHyBiParser, ParserEvent, new_parser}
use httpuv.WebSocket.Parser.Stream.{tokens, run}
use httpuv.WebSocket.Parser.Header.{empty-incomplete}
use httpuv.WebSocket.Parser.Chunks.{joined, read_all, read_all-run}
use httpuv.WebSocket.Parser.Frames.{Frame, written_frames, tokens_of, read_all-written_frames}
use httpuv.WebSocket.Connection.{WebSocketConnection, ws_open, ws_closed, Action, on_payload}
use httpuv.WebSocket.Connection.Operations.{
  Operation, receive, close_with, send, ping_timer, operate_all, closed_operate_all,
}
use httpuv.WebSocket.Connection.Budget.{close_frames, budget}
use httpuv.WebSocket.Connection.Closing.{close_frames-operate_all}
use httpuv.WebSocket.Connection.Payload.{on_payload-append}

-- A text frame "Hi" without a mask, and the first byte of the next.
abbrev hi_frame : Bytes
hi_frame = 129 ∷ 2 ∷ 72 ∷ 105 ∷ 129 ∷ []

abbrev fresh : WsHyBiParser
fresh = new_parser ietf 0

abbrev cut : List Bytes
cut = (129 ∷ []) ∷ (2 ∷ 72 ∷ []) ∷ [] ∷ (105 ∷ 129 ∷ []) ∷ []

read_all-run_example :
    (es : List ParserEvent) × (read_all fresh cut ≡ some ((run fresh (joined cut)).0, es))
    × (tokens es ≡ (run fresh (joined cut)).1)
read_all-run_example = read_all-run fresh cut (empty-incomplete ietf)

abbrev two_frames : List Frame
two_frames =
    record { op = text; mask = false; key = 0; payload = 72 ∷ 105 ∷ [] }
    ∷ record { op = close; mask = false; key = 0; payload = [] }
    ∷ []

abbrev two_frames_cut : List Bytes
two_frames_cut = (129 ∷ 2 ∷ 72 ∷ []) ∷ (105 ∷ 136 ∷ []) ∷ (0 ∷ []) ∷ []

two_frames-written : joined two_frames_cut ≡ written_frames ietf two_frames
unfolding written_frames create_frame_header
two_frames-written = refl

read_all-written_frames_example :
    (q : WsHyBiParser) × (es : List ParserEvent) × (read_all fresh two_frames_cut ≡ some (q, es))
    × (tokens es ≡ tokens_of two_frames)
read_all-written_frames_example =
    read_all-written_frames ietf 0 two_frames two_frames_cut ietf-IsCodec
      (omega arith, (omega arith, tt)) two_frames-written

abbrev no_header : WsFrameHeaderInfo
no_header = written_info text false 0 0

abbrev opened : WebSocketConnection
opened = record {
  big_endian = false;
  conn_state = ws_open;
  parser = fresh;
  incomplete_content_header = no_header;
  header = no_header;
  incomplete_content_payload = [];
  payload_so_far = [];
}

abbrev gone : WebSocketConnection
gone = record opened { conn_state = ws_closed }

abbrev session : List Operation
session =
    receive hi_frame
    ∷ close_with 1000 []
    ∷ ping_timer
    ∷ receive (136 ∷ 0 ∷ [])
    ∷ send true (1 ∷ [])
    ∷ []

close_frames-operate_all_example :
    (d : WebSocketConnection) × (as' : List Action) × (operate_all opened session ≡ some (d, as'))
    × (close_frames ietf as' + budget d.conn_state ≤ budget ws_open)
close_frames-operate_all_example =
    close_frames-operate_all opened session ietf-IsCodec (empty-incomplete ietf)

closed_operate_all_example : operate_all gone session ≡ some (gone, [])
closed_operate_all_example = closed_operate_all gone session refl

abbrev masked_header : WsFrameHeaderInfo
masked_header = written_info text true 4 0x01020304

on_payload-append_example :
    on_payload (record opened { header = masked_header }) ((1 ∷ 2 ∷ 3 ∷ []) ++ 4 ∷ [])
    ≡ on_payload (on_payload (record opened { header = masked_header }) (1 ∷ 2 ∷ 3 ∷ [])) (4 ∷ [])
on_payload-append_example =
    on_payload-append (record opened { header = masked_header }) (1 ∷ 2 ∷ 3 ∷ []) (4 ∷ [])
