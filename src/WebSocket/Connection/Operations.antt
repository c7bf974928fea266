-- ===== src/WebSocket/Connection/Operations.antt =====
-- What happens to a connection (src/websockets.cpp), one operation after the other.
use httpuv.Base.{
  ℕ, ◌≡◌, refl, Bool, true, false, List, [], ◌∷◌, ◌++◌, Bytes, arith, if◌then◌else◌, Option, none,
  some,
}
use httpuv.WebSocket.Proto.{text, binary, close}
use httpuv.WebSocket.Connection.{
  ws_closed, Action, ws_close, close_ws_socket, WebSocketConnection, is_closed, send_ws_message,
  send_ping, close_ws, mark_closed, on_frame_complete, read_ws,
}

-- What may happen to a connection: bytes from the peer, `ws$close`, `ws$send` of a text or of
-- binary data, the ping timer, and the end of the socket.
pub data Operation : Type 0 where
  receive : Bytes → Operation
  close_with : ℕ → Bytes → Operation
  send : Bool → Bytes → Operation
  ping_timer : Operation
  socket_gone : Operation

unfoldable pub operate :
    WebSocketConnection → Operation → Option (WebSocketConnection × List Action)
operate c (receive input) = read_ws c input
operate c (close_with code reason) = some (close_ws c code reason)
operate c (send is_binary content) =
    some (c, send_ws_message c (if is_binary then binary else text) content)
operate c ping_timer = some (c, send_ping c)
operate c socket_gone = some (mark_closed c, [])

unfoldable pub operate_all :
    WebSocketConnection → List Operation → Option (WebSocketConnection × List Action)
operate_all c [] = some (c, [])
operate_all c (o ∷ os) = elim (operate c o) [
  | none ↦ none
  | some (d, actions) ↦ elim (operate_all d os) [
    | none ↦ none
    | some (r, later) ↦ some (r, actions ++ later)
  ]
]

-- A closed connection: nothing that happens has an effect.
closed_operate :
    (c : WebSocketConnection) (o : Operation)
    → c.conn_state ≡ ws_closed
    → operate c o ≡ some (c, [])
unfolding operate read_ws close_ws send_ws_message send_ping mark_closed
closed_operate c o h = ground arith

pub operate_all_cons :
    (c : WebSocketConnection) (o : Operation) (os : List Operation) {d r : WebSocketConnection}
    {actions later : List Action}
    → operate c o ≡ some (d, actions)
    → operate_all d os ≡ some (r, later)
    → operate_all c (o ∷ os) ≡ some (r, actions ++ later)
unfolding operate_all
operate_all_cons c o os e f = rw (e, f, operate_all)

-- Once a connection is closed, no sequence of operations has an effect: the connection stays as it
-- is, and nothing is sent or reported.
pub closed_operate_all :
    (c : WebSocketConnection) (os : List Operation)
    → c.conn_state ≡ ws_closed
    → operate_all c os ≡ some (c, [])
closed_operate_all c [] h = unfold operate_all in refl
closed_operate_all c (o ∷ os) h =
    operate_all_cons c o os (closed_operate c o h) (closed_operate_all c os h)

-- A Close frame from the peer ends every connection that was not closed yet, and it is never
-- answered: the state is set to closed before the echo, and sending stops at a closed state.
pub on_frame_complete-close :
    (c : WebSocketConnection)
    → is_closed c.conn_state ≡ false
    → c.header.fin ≡ true
    → c.header.opcode ≡ close
    → on_frame_complete c ≡ (
      record c { conn_state = ws_closed; payload_so_far = [] },
      close_ws_socket ∷ ws_close 0 ∷ [],
    )
unfolding on_frame_complete send_ws_message
on_frame_complete-close c open' f o = ground arith
