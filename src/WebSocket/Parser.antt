-- ===== src/WebSocket/Parser.antt =====
-- WSHyBiParser (src/websockets.h, src/websockets.cpp): frames out of a byte stream that arrives in
-- pieces. Its calls of WSParserCallbacks are events, in the order of the calls. The assertion
-- `len < 1000000000000000000` is no part of the model: a list of bytes has no such length.
pub mod Stream
pub mod Header
pub mod Runs
pub mod Refinement
pub mod Chunks
pub mod Frames
use httpuv.Base.{
  ℕ, zero, suc, ◌+◌, ◌-◌, ◌*◌, Bool, true, false, ◌&&◌, ◌||◌, List, [], ◌∷◌, ◌++◌, Bytes, ltb, leb,
  ◌==◌, if◌then◌else◌, length, take, drop, Option, none, some,
}
use httpuv.WebSocket.Proto.{WebSocketProto}
use httpuv.WebSocket.Frame.{
  WsFrameHeaderInfo, frame_header, is_header_complete, info, header_length, payload_length,
  max_header_bytes,
}

pub data WsParseState : Type 0 where
  in_header in_payload : WsParseState

pub record WsHyBiParser : Type 0 where
  pub proto : WebSocketProto
  pub state : WsParseState
  pub header : Bytes
  pub bytes_left : ℕ

-- One constructor for each function of WSParserCallbacks.
pub data ParserEvent : Type 0 where
  header_complete : WsFrameHeaderInfo → ParserEvent
  payload : Bytes → ParserEvent
  frame_complete : ParserEvent

-- The constructor leaves `_bytesLeft` as it finds it: `bytes_left` stands for that value.
abbrev pub new_parser : WebSocketProto → ℕ → WsHyBiParser
new_parser proto bytes_left = record {
  proto = proto;
  state = in_header;
  header = [];
  bytes_left = bytes_left;
}

abbrev pub min : ℕ → ℕ → ℕ
min a b = if ltb b a then b else a

-- What one round of the loop leaves: the parser, `recur`, the bytes that are left, the calls made.
pub record Round : Type 0 where
  pub parser : WsHyBiParser
  pub recur : Bool
  pub unread : Bytes
  pub events : List ParserEvent

read_header : WsHyBiParser → Bool → Bytes → Round
read_header p recur input =
    let starting_size = length p.header in
    let header = p.header ++ take (min (length input) (max_header_bytes - starting_size)) input in
    let frame = frame_header p.proto header in
    if is_header_complete frame
    then record {
      parser = record p { bytes_left = payload_length frame; state = in_payload; header = [] };
      recur = if payload_length frame == 0 then true else recur;
      unread = drop (header_length frame - starting_size) input;
      events = header_complete (info frame) ∷ [];
    }
    else record { parser = record p { header = header }; recur = recur; unread = []; events = [] }

read_payload : WsHyBiParser → Bytes → Round
read_payload p input =
    let bytes_to_consume = min (length input) p.bytes_left in
    let left = p.bytes_left - bytes_to_consume in
    record {
      parser = record p { bytes_left = left; state = if left == 0 then in_header else p.state };
      recur = false;
      unread = drop bytes_to_consume input;
      events =
          payload (take bytes_to_consume input) ∷ (if left == 0 then frame_complete ∷ [] else []);
    }

read_round_at : WsParseState → WsHyBiParser → Bool → Bytes → Round
read_round_at in_header p recur input = read_header p recur input
read_round_at in_payload p recur input = read_payload p input

pub read_round : WsHyBiParser → Bool → Bytes → Round
unfolding read_round_at
read_round p recur input = read_round_at p.state p recur input

-- The calls of one round stand before those of the later rounds.
abbrev pub prepend :
    List ParserEvent
    → Option (WsHyBiParser × List ParserEvent)
    → Option (WsHyBiParser × List ParserEvent)
prepend es none = none
prepend es (some (p, later)) = some (p, es ++ later)

-- `while (len > 0 || recur)`; `none` means that the fuel ran out.
pub read_loop : ℕ → WsHyBiParser → Bool → Bytes → Option (WsHyBiParser × List ParserEvent)
read_loop zero p recur input = none
read_loop (suc fuel) p recur input =
    let r = read_round p recur input in
    let go = prepend r.events (read_loop fuel r.parser r.recur r.unread) in
    if ltb 0 (length input) || recur then go else some (p, [])

-- A frame takes a byte of the input at least, and two rounds.
unfoldable pub read : WsHyBiParser → Bytes → Option (WsHyBiParser × List ParserEvent)
unfolding read_loop read_round read_header read_payload
read p input = read_loop (2 * length input + 1) p false input
