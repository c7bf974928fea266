-- ===== src/WebSocket/Connection/Budget.antt =====
-- The Close frames that one call of a connection sends, against those that it still may send.
use httpuv.Base.{ℕ, ◌+◌, ◌≤◌, ◌≡◌, refl, ◌∙◌, false, List, [], ◌∷◌, ◌++◌, Bytes, length, arith}
use httpuv.WebSocket.Proto.{
  Opcode, continuation, text, binary, close, ping, pong, reserved, WebSocketProto, IsCodec,
}
use httpuv.WebSocket.Frame.{opcode}
use httpuv.WebSocket.Frame.Prefix.{frame}
use httpuv.WebSocket.Frame.Opcodes.{opcode-create_frame_header}
use httpuv.WebSocket.Parser.{ParserEvent, header_complete, payload, frame_complete}
use httpuv.WebSocket.Connection.{
  WsConnState, ws_open, ws_close_received, ws_close_sent, ws_closed, Action, ws_message, ws_close,
  send_ws_frame, close_ws_socket, WebSocketConnection, send_ws_message, close_ws,
  on_header_complete, on_payload, on_frame_complete, on_final_frame, on_close, close_ws_at,
  on_event, on_events, close_message,
}

abbrev pub counts_close : Opcode → ℕ
counts_close close = 1
counts_close _ = 0

-- The Close frames among the actions.
unfoldable pub close_frames : WebSocketProto → List Action → ℕ
close_frames proto [] = 0
close_frames proto (send_ws_frame header content footer ∷ as') =
    counts_close (opcode (frame proto header)) + close_frames proto as'
close_frames proto (ws_message b content ∷ as') = close_frames proto as'
close_frames proto (ws_close code ∷ as') = close_frames proto as'
close_frames proto (close_ws_socket ∷ as') = close_frames proto as'

pub close_frames-append :
    (proto : WebSocketProto) (as' bs : List Action)
    → close_frames proto (as' ++ bs) ≡ close_frames proto as' + close_frames proto bs
unfolding close_frames
close_frames-append proto [] bs = omega arith
close_frames-append proto (send_ws_frame h d f ∷ as') bs =
    omega (arith, close_frames-append proto as' bs)
close_frames-append proto (ws_message b d ∷ as') bs = close_frames-append proto as' bs
close_frames-append proto (ws_close code ∷ as') bs = close_frames-append proto as' bs
close_frames-append proto (close_ws_socket ∷ as') bs = close_frames-append proto as' bs

-- How many Close frames a connection may still send.
unfoldable pub budget : WsConnState → ℕ
budget ws_open = 1
budget ws_close_received = 1
budget ws_close_sent = 0
budget ws_closed = 0

pub close_frames-send :
    (c : WebSocketConnection) (op : Opcode) (content : Bytes)
    → IsCodec c.parser.proto
    → close_frames c.parser.proto (send_ws_message c op content) ≤ counts_close op
unfolding close_frames send_ws_message
close_frames-send c op content laws =
    ground (
      arith,
      opcode-create_frame_header c.parser.proto c.big_endian op false (length content) 0 laws,
    )

-- One step: a Close frame is sent only if the state moves on with it.
pub record Within (c d : WebSocketConnection) (as' : List Action) : Type 0 where
  pub same_proto : d.parser.proto ≡ c.parser.proto
  pub spent : close_frames c.parser.proto as' + budget d.conn_state ≤ budget c.conn_state

-- The same of an operation's result.
abbrev pub Steps : WebSocketConnection → WebSocketConnection × List Action → Type 0
Steps c (d, as') = Within c d as'

on_close-Within : (c : WebSocketConnection) → Steps c (on_close c)
unfolding on_close send_ws_message close_frames budget
on_close-Within c = ground arith

on_final_frame-Within :
    (op : Opcode) (c : WebSocketConnection) → IsCodec c.parser.proto → Steps c (on_final_frame op c)
unfolding on_final_frame close_frames
on_final_frame-Within close c laws = on_close-Within c
on_final_frame-Within ping c laws = record {
  same_proto = refl;
  spent = omega (arith, close_frames-send c pong c.payload_so_far laws);
}
on_final_frame-Within continuation c laws = record { same_proto = refl; spent = omega arith }
on_final_frame-Within text c laws = record { same_proto = refl; spent = omega arith }
on_final_frame-Within binary c laws = record { same_proto = refl; spent = omega arith }
on_final_frame-Within pong c laws = record { same_proto = refl; spent = omega arith }
on_final_frame-Within reserved c laws = record { same_proto = refl; spent = omega arith }

pub Within_rest : (c : WebSocketConnection) → Steps c (c, [])
unfolding close_frames
Within_rest c = record { same_proto = refl; spent = omega arith }

on_frame_complete-Within :
    (c : WebSocketConnection) → IsCodec c.parser.proto → Steps c (on_frame_complete c)
unfolding on_frame_complete
on_frame_complete-Within c laws =
    ground (arith, on_final_frame-Within c.header.opcode c laws, Within_rest c)

close_ws_at-Within :
    (s : WsConnState) (c : WebSocketConnection) (code : ℕ) (reason : Bytes)
    → c.conn_state ≡ s
    → IsCodec c.parser.proto
    → Steps c (close_ws_at s c code reason)
unfolding close_ws_at close_frames budget
close_ws_at-Within ws_open c code reason e laws =
    let m = close_message c.big_endian code reason in
    record {
      same_proto = refl;
      spent =
          rw e (
            omega
              (arith, close_frames-send (record c { conn_state = ws_close_sent }) close m laws));
    }
close_ws_at-Within ws_close_received c code reason e laws =
    let d = record c { conn_state = ws_closed } in
    let m = close_message c.big_endian code reason in
    record {
      same_proto = refl;
      spent = rw (e, close_frames-append) (omega (arith, close_frames-send d close m laws));
    }
close_ws_at-Within ws_close_sent c code reason e laws = record {
  same_proto = refl;
  spent = omega arith;
}
close_ws_at-Within ws_closed c code reason e laws = record {
  same_proto = refl;
  spent = omega arith;
}

pub close_ws-Within :
    (c : WebSocketConnection) (code : ℕ) (reason : Bytes)
    → IsCodec c.parser.proto
    → Steps c (close_ws c code reason)
unfolding close_ws
close_ws-Within c code reason laws = close_ws_at-Within c.conn_state c code reason refl laws

on_event-Within :
    (c : WebSocketConnection) (e : ParserEvent) → IsCodec c.parser.proto → Steps c (on_event c e)
unfolding on_event on_header_complete on_payload close_frames
on_event-Within c (header_complete i) laws = ground arith
on_event-Within c (payload content) laws = ground arith
on_event-Within c frame_complete laws = on_frame_complete-Within c laws

Within-then :
    {c d r : WebSocketConnection} (as' bs : List Action)
    → Within c d as'
    → Within d r bs
    → Within c r (as' ++ bs)
Within-then {c} {d} as' bs w v = record {
  same_proto = v.same_proto ∙ w.same_proto;
  spent = rw close_frames-append (omega (arith, w, rw w.same_proto at v.spent));
}

pub on_events-Within :
    (c : WebSocketConnection) (es : List ParserEvent)
    → IsCodec c.parser.proto
    → Steps c (on_events c es)
unfolding on_events
on_events-Within c [] laws = Within_rest c
on_events-Within c (e ∷ es) laws =
    let first = on_event-Within c e laws in
    let d = (on_event c e).0 in
    Within-then (on_event c e).1 (on_events d es).1 first
      (on_events-Within d es (rw (← first.same_proto) at laws))
