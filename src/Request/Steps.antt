-- ===== src/Request/Steps.antt =====
-- The stages of a request that run on the background thread, and what may happen to a connection.
use httpuv.Base.{
  ℕ, ◌<◌, ◌≡◌, Bool, true, false, ◌||◌, not, List, [], ◌∷◌, ◌++◌, Bytes, bytes, ltb, if◌then◌else◌,
  length, take, drop, Option, none, some,
}
use httpuv.Incoming.{on_url, on_header_field, on_header_value}
use httpuv.Request.{
  http, web_sockets, is_web_sockets, ParserCall, message_begin, url, header_field, header_value,
  headers_complete, body, message_complete, uv_read_stop, write_response, write_continue,
  write_switching_protocols, read_web_socket, Later, app_on_headers, app_on_body_data,
  call_r_on_ws_open, Task, headers_complete_complete, body_error, message_complete_complete,
  read_rest, close_request, Connection, call, invoke_later, push, with_request, stop_reading,
  request_has_header, request_has_value, close_request_now, on_closed, new_request,
  update_upgrade_status, on_message_complete, schedule_on_headers_complete_complete,
  schedule_on_body_error, schedule_on_message_complete_complete, schedule_close, on_ws_open,
  request_completed, Surroundings,
}

module _ {P R : Type 0} (around : Surroundings P R) where
  -- `_on_headers_complete`.
  unfoldable pub on_headers_complete : Bool → Connection P R → Connection P R
  on_headers_complete upgrade s =
      let v = update_upgrade_status upgrade s in
      elim (around.static_file_response v.request) [
        | some response ↦ push (headers_complete_complete (some response)) v
        | none ↦ invoke_later app_on_headers v
      ]

  unfoldable pub on_parser_call : ParserCall → Connection P R → Connection P R
  unfolding on_headers_complete new_request on_message_complete
  on_parser_call message_begin s = new_request s
  on_parser_call (url piece) s = with_request (on_url s.request piece) s
  on_parser_call (header_field piece) s = with_request (on_header_field s.request piece) s
  on_parser_call (header_value piece) s = with_request (on_header_value s.request piece) s
  on_parser_call (headers_complete upgrade) s = on_headers_complete upgrade s
  on_parser_call (body piece) s = invoke_later (app_on_body_data piece) s
  on_parser_call message_complete s = on_message_complete s

  unfoldable pub on_parser_calls : List ParserCall → Connection P R → Connection P R
  unfolding on_parser_call
  on_parser_calls [] s = s
  on_parser_calls (c ∷ cs) s = on_parser_calls cs (on_parser_call c s)

  -- The part of `_parse_http_data` under `isUpgrade`, with the data that the parser left.
  unfoldable pub upgrade_with : Bytes → Connection P R → Connection P R
  unfolding close_request_now
  upgrade_with rest s = if not s.has_ws then s else elim (around.switch s.request.headers rest) [
    | some left ↦ invoke_later call_r_on_ws_open (record (call write_switching_protocols s) {
      protocol = web_sockets;
      request_buffer = s.request_buffer ++ left;
    })
    | none ↦ if is_web_sockets s.protocol then s else close_request_now s
  ]

  -- What `_parse_http_data` does after the parser ran and took `parsed` bytes of the buffer.
  unfoldable pub after_execute : ℕ → Bytes → Connection P R → Connection P R
  unfolding upgrade_with close_request_now
  after_execute parsed buffer s =
      if around.parser.waiting_for_headers_completed s.parser
      then record s { request_buffer = s.request_buffer ++ drop parsed buffer }
      else if s.is_upgrade
      then upgrade_with (drop parsed buffer) s
      else if ltb parsed (length buffer)
      then (if s.ignore_new_data then s else close_request_now (call uv_read_stop s))
      else s

  unfoldable pub parse_http_data : Bytes → Connection P R → Connection P R
  unfolding on_parser_calls after_execute
  parse_http_data buffer s =
      let e = around.parser.execute s.parser buffer in
      after_execute e.parsed buffer (
        on_parser_calls e.parser_calls
          (record s { parser = e.parser; taken = s.taken ++ take e.parsed buffer }))

  unfoldable pub parse_http_data_from_buffer : Connection P R → Connection P R
  unfolding parse_http_data
  parse_http_data_from_buffer s =
      parse_http_data s.request_buffer (record s { request_buffer = [] })

  unfoldable pub on_headers_complete_complete : Option R → Connection P R → Connection P R
  unfolding parse_http_data_from_buffer
  on_headers_complete_complete (some response) s =
      let body_expected =
        request_has_header (bytes "Content-Length") s
        || request_has_header (bytes "Transfer-Encoding") s in
      let closing = body_expected || not (around.parser.should_keep_alive s.parser) in
      let v = call (write_response closing response) (if closing then stop_reading s else s) in
      parse_http_data_from_buffer (record v { parser = around.parser.headers_completed v.parser 3 })
  on_headers_complete_complete none s =
      let v =
        if request_has_value (bytes "Expect") (bytes "100-continue") s
        then call write_continue s
        else s in
      parse_http_data_from_buffer (record v { parser = around.parser.headers_completed v.parser 0 })

  unfoldable pub on_body_error : R → Connection P R → Connection P R
  on_body_error response s =
      call (write_response true response)
        (stop_reading (record s { parser = around.parser.pause s.parser }))

  unfoldable pub on_message_complete_complete : Option R → Connection P R → Connection P R
  on_message_complete_complete none s = s
  on_message_complete_complete (some response) s =
      let keep_alive = around.parser.should_keep_alive s.parser in
      if s.request.is_closing
      then s
      else call (write_response (not keep_alive) response)
          (if keep_alive then s else stop_reading s)

  -- `_on_request_read` with data.
  unfoldable pub on_request_read : Bytes → Connection P R → Connection P R
  unfolding parse_http_data
  on_request_read buf s =
      let v = record s { received = s.received ++ buf } in
      if v.ignore_new_data then v else elim v.protocol [
        | http ↦ parse_http_data buf v
        | web_sockets ↦ if v.has_ws then call (read_web_socket buf) v else v
      ]

  -- `_on_request_read` with an error. Without data and error it does nothing.
  abbrev pub on_read_error : Connection P R → Connection P R
  on_read_error s = close_request_now s

  unfoldable pub run_task : Task R → Connection P R → Connection P R
  unfolding on_headers_complete_complete on_body_error on_message_complete_complete
      close_request_now
  run_task (headers_complete_complete response) s = on_headers_complete_complete response s
  run_task (body_error response) s = on_body_error response s
  run_task (message_complete_complete response) s = on_message_complete_complete response s
  run_task (read_rest rest) s = call (read_web_socket rest) s
  run_task close_request s = close_request_now s

  -- What may happen. `close` is also called when a WebSocket connection or a written response wants
  -- it, and by the socket; `requestCompleted` when a response is written. After `uv_close` nothing more is read, and `_on_closed` is called. The main
  -- thread takes its tasks in order, R answers with any response or none, and a response may also
  -- come later. A task of the background thread is a step, and so is one of the main thread;
  -- `_call_r_on_ws_open` is one that is scheduled with the switch of the protocol.
  pub data Step (s t : Connection P R) : Type 0 where
    reads :
        (buf : Bytes)
        → 0 < length buf
        → s.request.is_closing ≡ false
        → t ≡ on_request_read buf s
        → Step s t
    read_fails : s.request.is_closing ≡ false → t ≡ on_read_error s → Step s t
    closes : t ≡ close_request_now s → Step s t
    completes : t ≡ request_completed s → Step s t
    closed : s.request.is_closing ≡ true → t ≡ on_closed s → Step s t
    runs :
        (task : Task R) (tasks : List (Task R))
        → s.background ≡ task ∷ tasks
        → t ≡ run_task task (record s { background = tasks })
        → Step s t
    main_takes :
        (task : Later) (tasks : List Later)
        → s.later ≡ task ∷ tasks
        → t ≡ record s { later = tasks }
        → Step s t
    answers_headers :
        (response : Option R) → t ≡ schedule_on_headers_complete_complete response s → Step s t
    answers_body : (response : R) → t ≡ schedule_on_body_error response s → Step s t
    answers_request :
        (response : Option R) → t ≡ schedule_on_message_complete_complete response s → Step s t
    asks_to_close : t ≡ schedule_close s → Step s t
    opens : s.protocol ≡ web_sockets → t ≡ on_ws_open s → Step s t

  pub data Reach (start : Connection P R) : Connection P R → Type 0 where
    at_start : {s : Connection P R} → s ≡ start → Reach start s
    later_on : {s t : Connection P R} → Reach start s → Step s t → Reach start t
