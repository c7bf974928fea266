-- ===== src/Request.antt =====
-- The connection of an HttpRequest (src/httprequest.h, src/httprequest.cpp): what is read, what the
-- parser calls, the queues of the two threads, the switch to WebSocket, and the close. http-parser
-- and the answers of R are parameters, a response is a value of the type R, and accept with
-- handshake is a function that gives what they leave of the data behind the request.
pub mod Steps
pub mod Closed
pub mod Frame
pub mod Parsing
pub mod InOrder
use httpuv.Base.{
  ℕ, ◌+◌, ◌<◌, ◌≡◌, Bool, true, false, ◌&&◌, ◌||◌, not, List, [], ◌∷◌, ◌++◌, Bytes, bytes, bytes_eq,
  ltb, if◌then◌else◌, length, take, drop, find, Option, none, some,
}
use httpuv.Headers.{RequestHeaders, same_ci}
use httpuv.Incoming.{HttpRequest, start, on_message_begin, on_url, on_header_field, on_header_value}

pub data Protocol : Type 0 where
  http : Protocol
  web_sockets : Protocol

abbrev pub is_web_sockets : Protocol → Bool
is_web_sockets http = false
is_web_sockets web_sockets = true

-- A callback that http-parser makes. At the end of the headers it says whether it has seen an upgrade.
pub data ParserCall : Type 0 where
  message_begin : ParserCall
  url : Bytes → ParserCall
  header_field : Bytes → ParserCall
  header_value : Bytes → ParserCall
  headers_complete : Bool → ParserCall
  body : Bytes → ParserCall
  message_complete : ParserCall

pub record Executed (P : Type 0) : Type 0 where
  pub parser : P
  pub parsed : ℕ
  pub parser_calls : List ParserCall

-- The functions of http-parser that are called here.
pub record HttpParser (P : Type 0) : Type 0 where
  pub execute : P → Bytes → Executed P
  pub waiting_for_headers_completed : P → Bool
  pub should_keep_alive : P → Bool
  pub headers_completed : P → ℕ → P
  pub pause : P → P

-- A call of libuv or of another object, on the background thread. A response is written with
-- whether `closeAfterWritten` was called.
pub data Call (R : Type 0) : Type 0 where
  uv_close : Call R
  uv_read_stop : Call R
  remove_connection : Call R
  mark_closed : Call R
  write_response : Bool → R → Call R
  write_continue : Call R
  write_switching_protocols : Call R
  read_web_socket : Bytes → Call R

-- What is scheduled on the main thread, and on the background thread.
pub data Later : Type 0 where
  initialize_env : Later
  app_on_headers : Later
  app_on_body_data : Bytes → Later
  app_get_response : Later
  call_r_on_ws_open : Later
  app_on_ws_close : Later

pub data Task (R : Type 0) : Type 0 where
  headers_complete_complete : Option R → Task R
  body_error : R → Task R
  message_complete_complete : Option R → Task R
  read_rest : Bytes → Task R
  close_request : Task R

-- `has_ws` says that `_pWebSocketConnection` is set. `later` and `background` are the queues;
-- `calls`, `received` and `taken` are logs, of the bytes read and of those that the parser took.
pub record Connection (P R : Type 0) : Type 0 where
  pub request : HttpRequest
  pub parser : P
  pub protocol : Protocol
  pub ignore_new_data : Bool
  pub is_upgrade : Bool
  pub request_buffer : Bytes
  pub has_ws : Bool
  pub later : List Later
  pub background : List (Task R)
  pub calls : List (Call R)
  pub received : Bytes
  pub taken : Bytes

module _ {P R : Type 0} where
  abbrev pub call : Call R → Connection P R → Connection P R
  call c s = record s { calls = s.calls ++ c ∷ [] }

  abbrev pub invoke_later : Later → Connection P R → Connection P R
  invoke_later task s = record s { later = s.later ++ task ∷ [] }

  abbrev pub push : Task R → Connection P R → Connection P R
  push task s = record s { background = s.background ++ task ∷ [] }

  abbrev pub with_request : HttpRequest → Connection P R → Connection P R
  with_request request s = record s { request = request }

  abbrev pub stop_reading : Connection P R → Connection P R
  stop_reading s = record s { calls = s.calls ++ uv_read_stop ∷ []; ignore_new_data = true }

  abbrev pub request_has_header : Bytes → Connection P R → Bool
  request_has_header name s = elim (find same_ci name s.request.headers) [
    | none ↦ false
    | some v ↦ true
  ]

  abbrev pub request_has_value : Bytes → Bytes → Connection P R → Bool
  request_has_value name value s = elim (find same_ci name s.request.headers) [
    | none ↦ false
    | some v ↦ bytes_eq v value
  ]

  -- HttpRequest::close.
  unfoldable pub close_request_now : Connection P R → Connection P R
  close_request_now s = if s.request.is_closing then s else record s {
    request = record s.request { is_closing = true };
    later =
        if s.has_ws && is_web_sockets s.protocol then s.later ++ app_on_ws_close ∷ [] else s.later;
    calls = s.calls ++ remove_connection ∷ uv_close ∷ [];
  }

  unfoldable pub on_closed : Connection P R → Connection P R
  on_closed s =
      if s.has_ws then record s { has_ws = false; calls = s.calls ++ mark_closed ∷ [] } else s

  -- `_newRequest`, with its call of `close`.
  unfoldable pub new_request : Connection P R → Connection P R
  unfolding close_request_now
  new_request s =
      let v = if s.request.handling_request then close_request_now s else s in
      invoke_later initialize_env (with_request (on_message_begin v.request) v)

  abbrev pub update_upgrade_status : Bool → Connection P R → Connection P R
  update_upgrade_status upgrade s = record s { is_upgrade = if upgrade then true else s.is_upgrade }

  unfoldable pub on_message_complete : Connection P R → Connection P R
  on_message_complete s = if s.is_upgrade then s else invoke_later app_get_response s

  abbrev pub request_completed : Connection P R → Connection P R
  request_completed s = record s { request = record s.request { handling_request = false } }

  -- The functions that the main thread calls when R has answered.
  abbrev pub response_scheduled : Connection P R → Connection P R
  response_scheduled s = record s { request = record s.request { response_scheduled = true } }

  unfoldable pub schedule_on_headers_complete_complete : Option R → Connection P R → Connection P R
  schedule_on_headers_complete_complete none s = push (headers_complete_complete none) s
  schedule_on_headers_complete_complete (some response) s =
      push (headers_complete_complete (some response)) (response_scheduled s)

  unfoldable pub schedule_on_body_error : R → Connection P R → Connection P R
  schedule_on_body_error response s = push (body_error response) (response_scheduled s)

  unfoldable pub schedule_on_message_complete_complete : Option R → Connection P R → Connection P R
  schedule_on_message_complete_complete response s =
      push (message_complete_complete response) (response_scheduled s)

  unfoldable pub schedule_close : Connection P R → Connection P R
  schedule_close s = push close_request s

  -- `_call_r_on_ws_open` after the R code.
  unfoldable pub on_ws_open : Connection P R → Connection P R
  on_ws_open s =
      if s.has_ws then record (push (read_rest s.request_buffer) s) { request_buffer = [] } else s

-- The constructor, with the WebSocketConnection that createHttpRequest adds, for a new parser.
abbrev pub new_connection : {P R : Type 0} → P → Connection P R
new_connection p = record {
  request = record {
    url = [];
    headers = [];
    last_header_field = [];
    last_header_state = start;
    handling_request = false;
    response_scheduled = false;
    is_closing = false;
  };
  parser = p;
  protocol = http;
  ignore_new_data = false;
  is_upgrade = false;
  request_buffer = [];
  has_ws = true;
  later = [];
  background = [];
  calls = [];
  received = [];
  taken = [];
}

-- The parser, the static files, and accept with handshake.
pub record Surroundings (P R : Type 0) : Type 0 where
  pub parser : HttpParser P
  pub static_file_response : HttpRequest → Option R
  pub switch : RequestHeaders → Bytes → Option Bytes
