-- ===== src/Request/Closed.antt =====
-- A connection is closed once.
use httpuv.Base.{
  ℕ, ◌+◌, ◌≡◌, refl, sym, ap, ◌∙◌, arith, Bool, true, false, ◌||◌, not, List, [], ◌∷◌, ◌++◌, Bytes,
  bytes, ltb, length, take, drop, if◌then◌else◌, Option, none, some,
}
use httpuv.Incoming.{
  HttpRequest, LastHeaderState, start, field_state, value_state, on_message_begin, on_url,
  on_header_field, on_header_value,
}
use httpuv.Request.{
  invoke_later, initialize_env, with_request, Protocol, is_web_sockets, http, web_sockets,
  ParserCall, message_begin, url, header_field, header_value, headers_complete, body,
  message_complete, Call, uv_close, uv_read_stop, remove_connection, mark_closed, write_response,
  write_continue, write_switching_protocols, read_web_socket, Task, headers_complete_complete,
  body_error, message_complete_complete, read_rest, close_request, Connection, call, stop_reading,
  request_has_header, request_has_value, close_request_now, on_closed, new_request,
  on_message_complete, schedule_on_headers_complete_complete, schedule_on_body_error,
  schedule_on_message_complete_complete, schedule_close, on_ws_open, new_connection, Surroundings,
}
use httpuv.Request.Steps.{
  on_headers_complete, on_parser_call, on_parser_calls, upgrade_with, after_execute,
  parse_http_data, parse_http_data_from_buffer, on_headers_complete_complete, on_body_error,
  on_message_complete_complete, on_request_read, run_task, Step, reads, read_fails, closes,
  completes, closed, runs, main_takes, answers_headers, answers_body, answers_request,
  asks_to_close, opens, Reach, at_start, later_on,
}

abbrev pub is_uv_close : {R : Type 0} → Call R → Bool
is_uv_close uv_close = true
is_uv_close uv_read_stop = false
is_uv_close remove_connection = false
is_uv_close mark_closed = false
is_uv_close (write_response close response) = false
is_uv_close write_continue = false
is_uv_close write_switching_protocols = false
is_uv_close (read_web_socket buf) = false

abbrev pub is_remove_connection : {R : Type 0} → Call R → Bool
is_remove_connection uv_close = false
is_remove_connection uv_read_stop = false
is_remove_connection remove_connection = true
is_remove_connection mark_closed = false
is_remove_connection (write_response close response) = false
is_remove_connection write_continue = false
is_remove_connection write_switching_protocols = false
is_remove_connection (read_web_socket buf) = false

pub count : {R : Type 0} → (Call R → Bool) → List (Call R) → ℕ
count test [] = 0
count test (c ∷ cs) = (if test c then 1 else 0) + count test cs

abbrev pub bit : Bool → ℕ
bit true = 1
bit false = 0

-- `close` has called `uv_close`, and has taken the connection off the socket's list, once if the
-- connection is closing, and else not at all.
pub record IsClosedOnce {P R : Type 0} (s : Connection P R) : Type 0 where
  pub closed_once : count is_uv_close s.calls ≡ bit s.request.is_closing
  pub removed_once : count is_remove_connection s.calls ≡ bit s.request.is_closing

pub if-holds {ℓ} :
    {A : Type 0} (K : A → Type ℓ) (b : Bool) {x y : A}
    → (b ≡ true → K x)
    → (b ≡ false → K y)
    → K (if b then x else y)
if-holds K true f g = f refl
if-holds K false f g = g refl

pub option-holds {ℓ} :
    {A B : Type 0} (K : A → Type ℓ) (o : Option B) {x : A} {f : B → A}
    → K x
    → ((b : B) → K (f b))
    → K (elim o [ some b ↦ f b | none ↦ x ])
option-holds K none k h = k
option-holds K (some b) k h = h b

header_state-holds {ℓ} :
    {A : Type 0} (K : A → Type ℓ) (state : LastHeaderState) {x y z : A}
    → K x
    → K y
    → K z
    → K (elim state [ start ↦ x | field_state ↦ y | value_state ↦ z ])
header_state-holds K start f g h = f
header_state-holds K field_state f g h = g
header_state-holds K value_state f g h = h

pub is_closing-on_header_field :
    (r : HttpRequest) (piece : Bytes) → (on_header_field r piece).is_closing ≡ r.is_closing
unfolding on_header_field
is_closing-on_header_field r piece =
    header_state-holds {A = HttpRequest} (λ t. t.is_closing ≡ r.is_closing) r.last_header_state refl
      refl refl

pub is_closing-on_header_value :
    (r : HttpRequest) (piece : Bytes) → (on_header_value r piece).is_closing ≡ r.is_closing
unfolding on_header_value
is_closing-on_header_value r piece =
    header_state-holds {A = HttpRequest} (λ t. t.is_closing ≡ r.is_closing) r.last_header_state refl
      refl refl

count-append :
    {R : Type 0} (test : Call R → Bool) (s t : List (Call R))
    → count test (s ++ t) ≡ count test s + count test t
unfolding count
count-append test [] t = omega arith
count-append test (c ∷ s) t = omega (arith, count-append test s t)

module _ {P R : Type 0} where
  call-IsClosedOnce :
      (c : Call R) (s : Connection P R)
      → is_uv_close c ≡ false
      → is_remove_connection c ≡ false
      → IsClosedOnce s
      → IsClosedOnce (call c s)
  unfolding count
  call-IsClosedOnce c s e f inv = record {
    closed_once =
        rw (count-append is_uv_close s.calls (c ∷ []), e) (omega (arith, inv.closed_once));
    removed_once =
        rw (count-append is_remove_connection s.calls (c ∷ []), f)
          (omega (arith, inv.removed_once));
  }

  -- What is not of the log or the flag may change.
  moved :
      (s t : Connection P R)
      → t.calls ≡ s.calls
      → t.request.is_closing ≡ s.request.is_closing
      → IsClosedOnce s
      → IsClosedOnce t
  moved s t e f inv = record {
    closed_once = ap (count is_uv_close) e ∙ (inv.closed_once ∙ ap bit (sym f));
    removed_once = ap (count is_remove_connection) e ∙ (inv.removed_once ∙ ap bit (sym f));
  }

  close-IsClosedOnce : (s : Connection P R) → IsClosedOnce s → IsClosedOnce (close_request_now s)
  unfolding close_request_now count
  close-IsClosedOnce s inv =
      if-holds IsClosedOnce s.request.is_closing (λ e. inv)
        (λ e. record {
          closed_once =
              rw (count-append is_uv_close s.calls (remove_connection ∷ uv_close ∷ []))
                (omega (arith, inv.closed_once, ap bit e));
          removed_once =
              rw (count-append is_remove_connection s.calls (remove_connection ∷ uv_close ∷ []))
                (omega (arith, inv.removed_once, ap bit e));
        })

  on_closed-IsClosedOnce : (s : Connection P R) → IsClosedOnce s → IsClosedOnce (on_closed s)
  unfolding on_closed
  on_closed-IsClosedOnce s inv =
      if-holds IsClosedOnce s.has_ws
        (λ e.
          moved (call mark_closed s) _ refl refl (call-IsClosedOnce mark_closed s refl refl inv))
        (λ e. inv)

  stop_reading-IsClosedOnce : (s : Connection P R) → IsClosedOnce s → IsClosedOnce (stop_reading s)
  stop_reading-IsClosedOnce s inv =
      moved (call uv_read_stop s) _ refl refl (call-IsClosedOnce uv_read_stop s refl refl inv)

  close-is_closing : (s : Connection P R) → (close_request_now s).request.is_closing ≡ true
  unfolding close_request_now
  close-is_closing s =
      if-holds {A = Connection P R} (λ t. t.request.is_closing ≡ true) s.request.is_closing (λ e. e)
        (λ e. refl)

  begun-IsClosedOnce :
      (v : Connection P R)
      → IsClosedOnce v
      → (v.request.handling_request ≡ true → v.request.is_closing ≡ true)
      → IsClosedOnce (invoke_later initialize_env (with_request (on_message_begin v.request) v))
  unfolding on_message_begin
  begun-IsClosedOnce v inv h =
      moved v _ refl
        (if-holds (λ b. b ≡ v.request.is_closing) v.request.handling_request (λ e. sym (h e))
          (λ e. refl))
        inv

  new_request-IsClosedOnce : (s : Connection P R) → IsClosedOnce s → IsClosedOnce (new_request s)
  unfolding new_request
  new_request-IsClosedOnce s inv =
      let (v_inv, h) =
        if-holds {A = Connection P R}
          (λ v. IsClosedOnce v × (v.request.handling_request ≡ true → v.request.is_closing ≡ true))
          s.request.handling_request {x = close_request_now s} {y = s}
          (λ e. (close-IsClosedOnce s inv, λ _. close-is_closing s))
          (λ e. (inv, λ f. absurd (ground (arith, e, f)))) in
      begun-IsClosedOnce _ v_inv h

module _ {P R : Type 0} (around : Surroundings P R) where
  on_headers_complete-IsClosedOnce :
      (upgrade : Bool) (s : Connection P R)
      → IsClosedOnce s
      → IsClosedOnce (on_headers_complete around upgrade s)
  unfolding on_headers_complete
  on_headers_complete-IsClosedOnce upgrade s inv =
      option-holds IsClosedOnce (around.static_file_response s.request) (moved s _ refl refl inv)
        (λ response. moved s _ refl refl inv)

  on_parser_call-IsClosedOnce :
      (c : ParserCall) (s : Connection P R)
      → IsClosedOnce s
      → IsClosedOnce (on_parser_call around c s)
  unfolding on_parser_call on_url on_header_field on_header_value on_message_complete
  on_parser_call-IsClosedOnce message_begin s inv = new_request-IsClosedOnce s inv
  on_parser_call-IsClosedOnce (url piece) s inv = moved s _ refl refl inv
  on_parser_call-IsClosedOnce (header_field piece) s inv =
      moved s _ refl (is_closing-on_header_field s.request piece) inv
  on_parser_call-IsClosedOnce (header_value piece) s inv =
      moved s _ refl (is_closing-on_header_value s.request piece) inv
  on_parser_call-IsClosedOnce (headers_complete upgrade) s inv =
      on_headers_complete-IsClosedOnce upgrade s inv
  on_parser_call-IsClosedOnce (body piece) s inv = moved s _ refl refl inv
  on_parser_call-IsClosedOnce message_complete s inv =
      if-holds IsClosedOnce s.is_upgrade (λ e. inv) (λ e. moved s _ refl refl inv)

  on_parser_calls-IsClosedOnce :
      (cs : List ParserCall) (s : Connection P R)
      → IsClosedOnce s
      → IsClosedOnce (on_parser_calls around cs s)
  unfolding on_parser_calls
  on_parser_calls-IsClosedOnce [] s inv = inv
  on_parser_calls-IsClosedOnce (c ∷ cs) s inv =
      on_parser_calls-IsClosedOnce cs (on_parser_call around c s)
        (on_parser_call-IsClosedOnce c s inv)

  upgrade_with-IsClosedOnce :
      (rest : Bytes) (s : Connection P R)
      → IsClosedOnce s
      → IsClosedOnce (upgrade_with around rest s)
  unfolding upgrade_with
  upgrade_with-IsClosedOnce rest s inv =
      if-holds IsClosedOnce (not s.has_ws) (λ e. inv)
        (λ e.
          option-holds IsClosedOnce (around.switch s.request.headers rest)
            (if-holds IsClosedOnce (is_web_sockets s.protocol) (λ e. inv)
              (λ e. close-IsClosedOnce s inv))
            (λ left.
              moved (call write_switching_protocols s) _ refl refl
                (call-IsClosedOnce write_switching_protocols s refl refl inv)))

  after_execute-IsClosedOnce :
      (parsed : ℕ) (buffer : Bytes) (s : Connection P R)
      → IsClosedOnce s
      → IsClosedOnce (after_execute around parsed buffer s)
  unfolding after_execute
  after_execute-IsClosedOnce parsed buffer s inv =
      if-holds IsClosedOnce (around.parser.waiting_for_headers_completed s.parser)
        (λ e. moved s _ refl refl inv)
        (λ e.
          if-holds IsClosedOnce s.is_upgrade
            (λ e. upgrade_with-IsClosedOnce (drop parsed buffer) s inv)
            (λ e.
              if-holds IsClosedOnce (ltb parsed (length buffer))
                (λ e.
                  if-holds IsClosedOnce s.ignore_new_data (λ e. inv)
                    (λ e. close-IsClosedOnce _ (call-IsClosedOnce uv_read_stop s refl refl inv)))
                (λ e. inv)))

  parse-IsClosedOnce :
      (buffer : Bytes) (s : Connection P R)
      → IsClosedOnce s
      → IsClosedOnce (parse_http_data around buffer s)
  unfolding parse_http_data
  parse-IsClosedOnce buffer s inv =
      let e = around.parser.execute s.parser buffer in
      let v : Connection P R = record s {
        parser = e.parser;
        taken = s.taken ++ take e.parsed buffer;
      } in
      after_execute-IsClosedOnce e.parsed buffer (on_parser_calls around e.parser_calls v)
        (on_parser_calls-IsClosedOnce e.parser_calls v (moved s v refl refl inv))

  parse_buffer-IsClosedOnce :
      (s : Connection P R) → IsClosedOnce s → IsClosedOnce (parse_http_data_from_buffer around s)
  unfolding parse_http_data_from_buffer
  parse_buffer-IsClosedOnce s inv =
      let v : Connection P R = record s { request_buffer = [] } in
      parse-IsClosedOnce s.request_buffer v (moved s v refl refl inv)

  headers_done-IsClosedOnce :
      (response : Option R) (s : Connection P R)
      → IsClosedOnce s
      → IsClosedOnce (on_headers_complete_complete around response s)
  unfolding on_headers_complete_complete
  headers_done-IsClosedOnce none s inv =
      let v : Connection P R =
        if request_has_value (bytes "Expect") (bytes "100-continue") s
        then call write_continue s
        else s in
      let v_inv =
        if-holds IsClosedOnce (request_has_value (bytes "Expect") (bytes "100-continue") s)
          (λ e. call-IsClosedOnce write_continue s refl refl inv) (λ e. inv) in
      let w : Connection P R = record v { parser = around.parser.headers_completed v.parser 0 } in
      parse_buffer-IsClosedOnce w (moved v w refl refl v_inv)
  headers_done-IsClosedOnce (some response) s inv =
      let closing =
        (request_has_header (bytes "Content-Length") s
          || request_has_header (bytes "Transfer-Encoding") s)
        || not (around.parser.should_keep_alive s.parser) in
      let u : Connection P R = if closing then stop_reading s else s in
      let u_inv = if-holds IsClosedOnce closing (λ e. stop_reading-IsClosedOnce s inv) (λ e. inv) in
      let v = call (write_response closing response) u in
      let w : Connection P R = record v { parser = around.parser.headers_completed v.parser 3 } in
      parse_buffer-IsClosedOnce w (
        moved v w refl refl (call-IsClosedOnce (write_response closing response) u refl refl u_inv))

  run_task-IsClosedOnce :
      (task : Task R) (s : Connection P R) → IsClosedOnce s → IsClosedOnce (run_task around task s)
  unfolding run_task on_body_error on_message_complete_complete
  run_task-IsClosedOnce (headers_complete_complete response) s inv =
      headers_done-IsClosedOnce response s inv
  run_task-IsClosedOnce (body_error response) s inv =
      let v : Connection P R = record s { parser = around.parser.pause s.parser } in
      call-IsClosedOnce (write_response true response) (stop_reading v) refl refl
        (stop_reading-IsClosedOnce v (moved s v refl refl inv))
  run_task-IsClosedOnce (message_complete_complete none) s inv = inv
  run_task-IsClosedOnce (message_complete_complete (some response)) s inv =
      let keep_alive = around.parser.should_keep_alive s.parser in
      if-holds IsClosedOnce s.request.is_closing (λ e. inv)
        (λ e.
          call-IsClosedOnce (write_response (not keep_alive) response) _ refl refl
            (if-holds IsClosedOnce keep_alive (λ e. inv) (λ e. stop_reading-IsClosedOnce s inv)))
  run_task-IsClosedOnce (read_rest rest) s inv =
      call-IsClosedOnce (read_web_socket rest) s refl refl inv
  run_task-IsClosedOnce close_request s inv = close-IsClosedOnce s inv

  protocol-holds :
      (p : Protocol) {x y : Connection P R}
      → IsClosedOnce x
      → IsClosedOnce y
      → IsClosedOnce (elim p [ http ↦ x | web_sockets ↦ y ])
  protocol-holds http f g = f
  protocol-holds web_sockets f g = g

  read-IsClosedOnce :
      (buf : Bytes) (s : Connection P R)
      → IsClosedOnce s
      → IsClosedOnce (on_request_read around buf s)
  unfolding on_request_read
  read-IsClosedOnce buf s inv =
      let v : Connection P R = record s { received = s.received ++ buf } in
      let v_inv = moved s v refl refl inv in
      if-holds IsClosedOnce s.ignore_new_data (λ e. v_inv)
        (λ e. protocol-holds s.protocol (parse-IsClosedOnce buf v v_inv) (
          if-holds IsClosedOnce s.has_ws
            (λ e. call-IsClosedOnce (read_web_socket buf) v refl refl v_inv) (λ e. v_inv)))

  Step-IsClosedOnce : {s t : Connection P R} → Step around s t → IsClosedOnce s → IsClosedOnce t
  unfolding schedule_on_headers_complete_complete schedule_on_body_error
      schedule_on_message_complete_complete schedule_close on_ws_open
  Step-IsClosedOnce {s} (reads buf some_data o e) inv = rw e (read-IsClosedOnce buf s inv)
  Step-IsClosedOnce {s} (read_fails o e) inv = rw e (close-IsClosedOnce s inv)
  Step-IsClosedOnce {s} (closes e) inv = rw e (close-IsClosedOnce s inv)
  Step-IsClosedOnce {s} (completes e) inv = rw e (moved s _ refl refl inv)
  Step-IsClosedOnce {s} (closed o e) inv = rw e (on_closed-IsClosedOnce s inv)
  Step-IsClosedOnce {s} (runs task tasks o e) inv =
      let v : Connection P R = record s { background = tasks } in
      rw e (run_task-IsClosedOnce task v (moved s v refl refl inv))
  Step-IsClosedOnce {s} (main_takes task tasks o e) inv = rw e (moved s _ refl refl inv)
  Step-IsClosedOnce {s} (answers_headers none e) inv = rw e (moved s _ refl refl inv)
  Step-IsClosedOnce {s} (answers_headers (some response) e) inv = rw e (moved s _ refl refl inv)
  Step-IsClosedOnce {s} (answers_body response e) inv = rw e (moved s _ refl refl inv)
  Step-IsClosedOnce {s} (answers_request response e) inv = rw e (moved s _ refl refl inv)
  Step-IsClosedOnce {s} (asks_to_close e) inv = rw e (moved s _ refl refl inv)
  Step-IsClosedOnce {s} (opens o e) inv =
      rw e (if-holds IsClosedOnce s.has_ws (λ e. moved s _ refl refl inv) (λ e. inv))

  Reach-from :
      {first s : Connection P R} → IsClosedOnce first → Reach around first s → IsClosedOnce s
  Reach-from inv (at_start e) = rw e inv
  Reach-from inv (later_on r step) = Step-IsClosedOnce step (Reach-from inv r)

  -- Whatever the parser, R and the client do, and in whatever order the threads run: in every state
  -- that a new connection can reach, it has been closed with `uv_close` and taken off its socket's
  -- list once when it is closing, and not at all when it is not.
  pub Reach-IsClosedOnce :
      {p : P} {s : Connection P R} → Reach around (new_connection p) s → IsClosedOnce s
  unfolding count
  Reach-IsClosedOnce r = Reach-from (record { closed_once = refl; removed_once = refl }) r
