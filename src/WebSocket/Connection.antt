-- ===== src/WebSocket/Connection.antt =====
-- WebSocketConnection (src/websockets.h, src/websockets.cpp) after `accept` has made its HyBi
-- parser: the closing handshake, the parser's callbacks, and what the application may call. The
-- calls of WebSocketConnectionCallbacks are actions, in their order.
pub mod Payload
pub mod Operations
pub mod Budget
pub mod Closing
use Prim.Native.Nat.{bit_xor}
use httpuv.Base.{
  ℕ, zero, suc, ◌+◌, ◌*◌, ◌%◌, ◌/◌, Bool, true, false, ◌&&◌, not, List, [], ◌∷◌, ◌++◌, Bytes, ◌==◌,
  if◌then◌else◌, length, get_or, Option, none, some,
}
use httpuv.WebSocket.Proto.{
  Opcode, continuation, text, binary, close, ping, pong, reserved, WebSocketProto,
}
use httpuv.WebSocket.Frame.{WsFrameHeaderInfo, create_frame_header, in_memory, swap_byte_order}
use httpuv.WebSocket.Parser.{
  WsHyBiParser, ParserEvent, header_complete, payload, frame_complete, read,
}

pub data WsConnState : Type 0 where
  ws_open ws_close_received ws_close_sent ws_closed : WsConnState

-- One constructor for each function of WebSocketConnectionCallbacks.
pub data Action : Type 0 where
  ws_message : Bool → Bytes → Action
  ws_close : ℕ → Action
  send_ws_frame : Bytes → Bytes → Bytes → Action
  close_ws_socket : Action

-- `big_endian` is the machine's answer to isBigEndian.
pub record WebSocketConnection : Type 0 where
  pub big_endian : Bool
  pub conn_state : WsConnState
  pub parser : WsHyBiParser
  pub incomplete_content_header : WsFrameHeaderInfo
  pub header : WsFrameHeaderInfo
  pub incomplete_content_payload : Bytes
  pub payload_so_far : Bytes

abbrev pub is_closed : WsConnState → Bool
is_closed ws_closed = true
is_closed _ = false

abbrev pub is_binary : Opcode → Bool
is_binary binary = true
is_binary _ = false

abbrev is_continuation : Opcode → Bool
is_continuation continuation = true
is_continuation _ = false

-- WSHyBiParser::createFrameHeaderFooter writes no footer.
unfoldable pub send_ws_message : WebSocketConnection → Opcode → Bytes → List Action
send_ws_message c op content =
    if is_closed c.conn_state
    then []
    else send_ws_frame (create_frame_header c.parser.proto c.big_endian op false (length content) 0)
        content []
      ∷ []

unfoldable pub send_ping : WebSocketConnection → List Action
unfolding send_ws_message
send_ping c = send_ws_message c ping []

-- The close code in network order, then the reason.
close_message : Bool → ℕ → Bytes → Bytes
unfolding swap_byte_order
close_message big_endian code reason =
    let code_p = in_memory big_endian 2 code in
    (if big_endian then code_p else swap_byte_order code_p) ++ reason

close_ws_at : WsConnState → WebSocketConnection → ℕ → Bytes → WebSocketConnection × List Action
unfolding close_message
close_ws_at ws_close_sent c code reason = (c, [])
close_ws_at ws_closed c code reason = (c, [])
close_ws_at ws_open c code reason =
    let d = record c { conn_state = ws_close_sent } in
    (d, send_ws_message d close (close_message d.big_endian code reason))
close_ws_at ws_close_received c code reason =
    let d = record c { conn_state = ws_closed } in
    (d, send_ws_message d close (close_message d.big_endian code reason) ++ close_ws_socket ∷ [])

unfoldable pub close_ws : WebSocketConnection → ℕ → Bytes → WebSocketConnection × List Action
unfolding close_ws_at
close_ws c code reason = close_ws_at c.conn_state c code reason

unfoldable pub mark_closed : WebSocketConnection → WebSocketConnection
mark_closed c = record c { conn_state = ws_closed }

unfoldable pub on_header_complete : WebSocketConnection → WsFrameHeaderInfo → WebSocketConnection
on_header_complete c h =
    if is_closed c.conn_state
    then c
    else if not h.fin && not (is_continuation h.opcode)
    then record c { header = h; incomplete_content_header = h }
    else record c { header = h }

-- The bytes of a piece against the key; `i` counts the bytes of the payload.
unfoldable pub unmask : Bytes → ℕ → Bytes → Bytes
unmask key i [] = []
unmask key i (b ∷ bs) = bit_xor b (get_or key (i % 4) 0) ∷ unmask key (i + 1) bs

unfoldable pub on_payload : WebSocketConnection → Bytes → WebSocketConnection
unfolding unmask
on_payload c content = if is_closed c.conn_state then c else record c {
  payload_so_far =
      c.payload_so_far
      ++ (if c.header.masked
          then unmask c.header.masking_key (length c.payload_so_far) content
          else content);
}

-- A Close frame: the state moves on, an echo is sent unless one was sent before, and the socket is
-- closed. The result's state is also that in which the echo is sent.
on_close_at : WsConnState → WsConnState
on_close_at ws_open = ws_close_received
on_close_at ws_close_sent = ws_closed
on_close_at s = s

abbrev echoes : WsConnState → Bool
echoes ws_open = true
echoes ws_close_received = true
echoes _ = false

on_close : WebSocketConnection → WebSocketConnection × List Action
unfolding on_close_at
on_close c =
    let d = record c { conn_state = on_close_at c.conn_state } in
    let e = record d { conn_state = if echoes d.conn_state then ws_closed else d.conn_state } in
    let echo = if echoes d.conn_state then send_ws_message e close e.payload_so_far else [] in
    (e, echo ++ close_ws_socket ∷ ws_close 0 ∷ [])

-- The switch on the opcode of a final frame.
on_final_frame : Opcode → WebSocketConnection → WebSocketConnection × List Action
unfolding on_close
on_final_frame continuation c =
    let whole = c.incomplete_content_payload ++ c.payload_so_far in
    (
      record c { incomplete_content_payload = [] },
      ws_message (is_binary c.incomplete_content_header.opcode) whole ∷ [],
    )
on_final_frame text c = (c, ws_message (is_binary c.header.opcode) c.payload_so_far ∷ [])
on_final_frame binary c = (c, ws_message (is_binary c.header.opcode) c.payload_so_far ∷ [])
on_final_frame close c = on_close c
on_final_frame ping c = (c, send_ws_message c pong c.payload_so_far)
on_final_frame pong c = (c, [])
on_final_frame reserved c = (c, [])

unfoldable pub on_frame_complete : WebSocketConnection → WebSocketConnection × List Action
unfolding on_final_frame
on_frame_complete c =
    if is_closed c.conn_state
    then (c, [])
    else if not c.header.fin
    then (
      record c {
        incomplete_content_payload = c.incomplete_content_payload ++ c.payload_so_far;
        payload_so_far = [];
      },
      [],
    )
    else (let (d, actions) = on_final_frame c.header.opcode c in
        (record d { payload_so_far = [] }, actions))

-- The parser's calls, one after the other.
unfoldable pub on_event : WebSocketConnection → ParserEvent → WebSocketConnection × List Action
on_event c (header_complete i) = (on_header_complete c i, [])
on_event c (payload content) = (on_payload c content, [])
on_event c frame_complete = on_frame_complete c

unfoldable pub on_events :
    WebSocketConnection → List ParserEvent → WebSocketConnection × List Action
on_events c [] = (c, [])
on_events c (e ∷ es) =
    let (d, actions) = on_event c e in let (r, later) = on_events d es in (r, actions ++ later)

-- WebSocketConnection::read. The callbacks read nothing of the parser but its protocol, so they
-- may run after it. `none` does not come up from a valid parser.
unfoldable pub read_ws : WebSocketConnection → Bytes → Option (WebSocketConnection × List Action)
read_ws c input = if is_closed c.conn_state then some (c, []) else elim (read c.parser input) [
  | none ↦ none
  | some (p, es) ↦ some (on_events (record c { parser = p }) es)
]
