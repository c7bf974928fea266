-- ===== src/WebSocket/Connection/Closing.antt =====
-- The closing handshake over any sequence of operations.
use httpuv.Base.{
  ℕ, ◌+◌, ◌≤◌, ◌≡◌, refl, ◌∙◌, true, false, List, [], ◌∷◌, ◌++◌, Bytes, arith, Option, some, inl,
  inr, Bool-cases,
}
use httpuv.WebSocket.Proto.{Opcode, text, binary, ping, IsCodec}
use httpuv.WebSocket.Parser.{ParserEvent, header_complete, payload, frame_complete}
use httpuv.WebSocket.Parser.Stream.{run, run-proto}
use httpuv.WebSocket.Parser.Refinement.{IsValid}
use httpuv.WebSocket.Parser.Chunks.{read-run, run-IsValid}
use httpuv.WebSocket.Connection.{
  Action, WebSocketConnection, is_closed, send_ws_message, send_ping, close_ws, mark_closed,
  on_header_complete, on_payload, on_frame_complete, on_event, on_events, read_ws,
}
use httpuv.WebSocket.Connection.Operations.{
  Operation, receive, close_with, send, ping_timer, socket_gone, operate, operate_all,
  operate_all_cons,
}
use httpuv.WebSocket.Connection.Budget.{
  counts_close, close_frames, close_frames-append, close_frames-send, budget, Within, Within_rest,
  close_ws-Within, on_events-Within,
}

on_event-parser : (c : WebSocketConnection) (e : ParserEvent) → (on_event c e).0.parser ≡ c.parser
unfolding on_event on_header_complete on_payload on_frame_complete
on_event-parser c (header_complete i) = ground arith
on_event-parser c (payload content) = ground arith
on_event-parser c frame_complete = ground arith

pub on_events-parser :
    (c : WebSocketConnection) (es : List ParserEvent) → (on_events c es).0.parser ≡ c.parser
unfolding on_events
on_events-parser c [] = refl
on_events-parser c (e ∷ es) = on_events-parser (on_event c e).0 es ∙ on_event-parser c e

-- What an operation comes to: it returns, within the budget, with a valid parser again.
abbrev Comes : WebSocketConnection → Option (WebSocketConnection × List Action) → Type 0
Comes c result =
    (d : WebSocketConnection) × (as' : List Action) × (result ≡ some (d, as'))
    × Within c d as'
    × IsValid d.parser

read_ws-Comes :
    (c : WebSocketConnection) (input : Bytes)
    → IsCodec c.parser.proto
    → IsValid c.parser
    → Comes c (read_ws c input)
unfolding read_ws
read_ws-Comes c input laws v = elim (Bool-cases (is_closed c.conn_state)) [
  | inl closed ↦ (c, [], rw closed, Within_rest c, v)
  | inr open' ↦
      let (es, e, t) = read-run c.parser input v in
      let p = (run c.parser input).0 in
      let d = record c { parser = p } in
      let w = on_events-Within d es (rw run-proto laws) in
      (
        (on_events d es).0,
        (on_events d es).1,
        rw (open', e, read_ws),
        record {
          same_proto = w.same_proto ∙ run-proto c.parser input;
          spent = rw run-proto at w.spent;
        },
        rw on_events-parser (run-IsValid c.parser input v),
      )
]

close_ws-parser :
    (c : WebSocketConnection) (code : ℕ) (reason : Bytes)
    → (close_ws c code reason).0.parser ≡ c.parser
unfolding close_ws
close_ws-parser c code reason = ground arith

mark_closed-Within : (c : WebSocketConnection) → Within c (mark_closed c) []
unfolding mark_closed close_frames budget
mark_closed-Within c = record { same_proto = refl; spent = omega arith }

sent_only :
    (c : WebSocketConnection) (op : Opcode) (content : Bytes)
    → IsCodec c.parser.proto
    → IsValid c.parser
    → counts_close op ≡ 0
    → Comes c (some (c, send_ws_message c op content))
sent_only c op content laws v none_counted = (
  c,
  send_ws_message c op content,
  refl,
  record { same_proto = refl; spent = omega (arith, close_frames-send c op content laws) },
  v,
)

operate-Comes :
    (c : WebSocketConnection) (o : Operation)
    → IsCodec c.parser.proto
    → IsValid c.parser
    → Comes c (operate c o)
unfolding operate send_ping mark_closed
operate-Comes c (receive input) laws v = read_ws-Comes c input laws v
operate-Comes c (close_with code reason) laws v = (
  (close_ws c code reason).0,
  (close_ws c code reason).1,
  refl,
  close_ws-Within c code reason laws,
  rw close_ws-parser v,
)
operate-Comes c (send true content) laws v = sent_only c binary content laws v (omega arith)
operate-Comes c (send false content) laws v = sent_only c text content laws v (omega arith)
operate-Comes c ping_timer laws v = sent_only c ping [] laws v (omega arith)
operate-Comes c socket_gone laws v = (mark_closed c, [], refl, mark_closed-Within c, v)

-- Over any sequence of operations, from a valid parser, a connection comes to a result, and has
-- sent one Close frame at most, none if it had sent one before or was closed. It holds for every
-- protocol whose codes fit and decode.
pub close_frames-operate_all :
    (c : WebSocketConnection) (os : List Operation)
    → IsCodec c.parser.proto
    → IsValid c.parser
    → (d : WebSocketConnection) × (as' : List Action) × (operate_all c os ≡ some (d, as'))
      × (close_frames c.parser.proto as' + budget d.conn_state ≤ budget c.conn_state)
close_frames-operate_all c [] laws v = (c, [], unfold operate_all in refl, (Within_rest c).spent)
close_frames-operate_all c (o ∷ os) laws v =
    let (d, as', e, w, v') = operate-Comes c o laws v in
    let (r, bs, f, k) = close_frames-operate_all d os (rw (← w.same_proto) at laws) v' in
    (
      r,
      as' ++ bs,
      operate_all_cons c o os e f,
      rw close_frames-append (omega (arith, w.spent, rw w.same_proto at k)),
    )
