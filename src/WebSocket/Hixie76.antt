-- ===== src/WebSocket/Hixie76.antt =====
-- WSHixie76Parser (src/websockets-hixie76.h, src/websockets-hixie76.cpp): the frames of the
-- protocol before HyBi. Its calls of WSParserCallbacks are events, in the order of the calls.
pub mod Machine
pub mod Rounds
pub mod Chunks
pub mod Frames
use httpuv.Base.{
  ℕ, zero, suc, ◌+◌, ◌-◌, ◌*◌, ◌%◌, ◌^◌, Bool, true, false, List, [], ◌∷◌, ◌++◌, Bytes, ltb, leb,
  ◌==◌, if◌then◌else◌, length, take, drop, Option, none, some,
}
use httpuv.WebSocket.Proto.{Opcode, text, binary, close}
use httpuv.WebSocket.Frame.{WsFrameHeaderInfo}
use httpuv.WebSocket.Parser.{ParserEvent, header_complete, payload, frame_complete}

pub data Hixie76State : Type 0 where
  start in_text_frame in_binary_or_close_frame_length in_binary_frame_length in_binary_frame :
      Hixie76State

pub record WsHixie76Parser : Type 0 where
  pub state : Hixie76State
  pub bytes_left : ℕ

-- The constructor leaves `_bytesLeft` as it finds it.
abbrev pub new_hixie76_parser : ℕ → WsHixie76Parser
new_hixie76_parser bytes_left = record { state = start; bytes_left = bytes_left }

abbrev pub plain_info : Opcode → Bool → ℕ → WsFrameHeaderInfo
plain_info op has_length payload_length = record {
  fin = true;
  opcode = op;
  masked = false;
  masking_key = [];
  has_length = has_length;
  payload_length = payload_length;
}

-- What one round of the loop leaves: the parser, the bytes from `pos` on, the calls made.
pub record HixieRound : Type 0 where
  pub parser : WsHixie76Parser
  pub unread : Bytes
  pub events : List ParserEvent

read_start : ℕ → Bytes → HixieRound
read_start b rest =
    if b == 0xFF
    then record {
      parser = record { state = in_binary_or_close_frame_length; bytes_left = 0 };
      unread = rest;
      events = [];
    }
    else if ltb b 0x80
    then record {
      parser = record { state = in_text_frame; bytes_left = 0 };
      unread = rest;
      events = header_complete (plain_info text false 0) ∷ [];
    }
    else record {
      parser = record { state = in_binary_frame_length; bytes_left = 0 };
      unread = rest;
      events = [];
    }

-- The bytes before the first end marker 0xFF.
unfoldable pub to_marker : Bytes → Bytes
to_marker [] = []
to_marker (b ∷ s) = if b == 0xFF then [] else b ∷ to_marker s

-- The bytes from the first end marker on.
unfoldable pub from_marker : Bytes → Bytes
from_marker [] = []
from_marker (b ∷ s) = if b == 0xFF then b ∷ s else from_marker s

abbrev pub some_payload : Bytes → List ParserEvent
some_payload [] = []
some_payload (b ∷ s) = payload (b ∷ s) ∷ []

-- What follows the text that was passed on: an end marker, or the end of the input.
text_end : WsHixie76Parser → List ParserEvent → Bytes → HixieRound
text_end p es [] = record { parser = p; unread = []; events = es }
text_end p es (marker ∷ rest) = record {
  parser = record p { state = start };
  unread = rest;
  events = es ++ frame_complete ∷ [];
}

read_text : WsHixie76Parser → Bytes → HixieRound
unfolding text_end
read_text p input = text_end p (some_payload (to_marker input)) (from_marker input)

read_binary_or_close : WsHixie76Parser → ℕ → Bytes → HixieRound
read_binary_or_close p b rest =
    if b == 0
    then record {
      parser = p;
      unread = rest;
      events = header_complete (plain_info close true 0) ∷ frame_complete ∷ [];
    }
    else record {
      parser = record p { state = in_binary_frame_length };
      unread = b ∷ rest;
      events = [];
    }

-- `_bytesLeft` is a `size_t` of 64 bits.
unfoldable pub longer : ℕ → ℕ → ℕ
longer bytes_left b = (bytes_left * 128 % 2 ^ 64 + b % 0x80) % 2 ^ 64

read_length : WsHixie76Parser → ℕ → Bytes → HixieRound
unfolding longer
read_length p b rest =
    let n = longer p.bytes_left b in
    if ltb b 0x80
    then record {
      parser = record { state = if n == 0 then start else in_binary_frame; bytes_left = n };
      unread = rest;
      events =
          header_complete (plain_info binary true n) ∷ (if n == 0 then frame_complete ∷ [] else []);
    }
    else record { parser = record p { bytes_left = n }; unread = rest; events = [] }

read_binary : WsHixie76Parser → Bytes → HixieRound
read_binary p input =
    let bytes_to_read = if ltb p.bytes_left (length input) then p.bytes_left else length input in
    let left = p.bytes_left - bytes_to_read in
    record {
      parser = record { state = if left == 0 then start else p.state; bytes_left = left };
      unread = drop bytes_to_read input;
      events = payload (take bytes_to_read input) ∷ (if left == 0 then frame_complete ∷ [] else []);
    }

pub read_hixie76_at : Hixie76State → WsHixie76Parser → ℕ → Bytes → HixieRound
read_hixie76_at start p b rest = read_start b rest
read_hixie76_at in_text_frame p b rest = read_text p (b ∷ rest)
read_hixie76_at in_binary_or_close_frame_length p b rest = read_binary_or_close p b rest
read_hixie76_at in_binary_frame_length p b rest = read_length p b rest
read_hixie76_at in_binary_frame p b rest = read_binary p (b ∷ rest)

abbrev pub prepend_hixie76 :
    List ParserEvent
    → Option (WsHixie76Parser × List ParserEvent)
    → Option (WsHixie76Parser × List ParserEvent)
prepend_hixie76 es none = none
prepend_hixie76 es (some (p, later)) = some (p, es ++ later)

-- The `for` loop from `pos` on; `none` means that the fuel ran out.
pub read_hixie76_loop : ℕ → WsHixie76Parser → Bytes → Option (WsHixie76Parser × List ParserEvent)
unfolding read_hixie76_at
read_hixie76_loop zero p input = none
read_hixie76_loop (suc fuel) p [] = some (p, [])
read_hixie76_loop (suc fuel) p (b ∷ rest) =
    let r = read_hixie76_at p.state p b rest in
    prepend_hixie76 r.events (read_hixie76_loop fuel r.parser r.unread)

-- One byte takes two rounds at most.
pub read_hixie76 : WsHixie76Parser → Bytes → Option (WsHixie76Parser × List ParserEvent)
unfolding read_hixie76_loop
read_hixie76 p input = read_hixie76_loop (2 * length input + 2) p input

-- WSHixie76Parser::createFrameHeaderFooter: the header and the footer of a frame.
unfoldable pub create_frame_header_footer : Opcode → Bool → ℕ → ℕ → Bytes × Bytes
create_frame_header_footer opcode mask payload_size masking_key = (0 ∷ [], 0xFF ∷ [])
