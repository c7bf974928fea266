-- ===== src/Request/InOrder.antt =====
-- No byte of the HTTP data is lost or read twice, and the parser gets them in order.
use httpuv.Base.{
  ◌<◌, length, ◌≡◌, refl, sym, ap, ◌∙◌, arith, true, false, ◌||◌, not, [], ◌∷◌, ◌++◌, append-nil,
  Bytes, bytes, if◌then◌else◌, Option, none, some,
}
use httpuv.Request.{
  Protocol, is_web_sockets, http, web_sockets, write_response, write_continue, read_web_socket,
  Task, headers_complete_complete, body_error, message_complete_complete, read_rest, close_request,
  Connection, call, stop_reading, request_has_header, request_has_value, on_closed,
  schedule_on_headers_complete_complete, schedule_on_body_error,
  schedule_on_message_complete_complete, schedule_close, on_ws_open, new_connection, Surroundings,
}
use httpuv.Request.Steps.{
  parse_http_data, on_headers_complete_complete, on_body_error, on_message_complete_complete,
  on_request_read, run_task, Step, reads, read_fails, closes, completes, closed, runs, main_takes,
  answers_headers, answers_body, answers_request, asks_to_close, opens, Reach, at_start, later_on,
}
use httpuv.Request.Closed.{if-holds}
use httpuv.Request.Frame.{Waits, frame, OpenOrdered, more}
use httpuv.Request.Parsing.{close_any-OpenOrdered, parse-OpenOrdered, buffer-OpenOrdered}

module _ {P R : Type 0} (around : Surroundings P R) where
  -- A change of what is neither in the frame nor the flag.
  moved :
      (s t : Connection P R)
      → frame t ≡ frame s
      → t.request.is_closing ≡ s.request.is_closing
      → OpenOrdered around [] s
      → OpenOrdered around [] t
  moved s t e f inv o = rw e (inv (sym f ∙ o))

  ignoring-OpenOrdered : (s : Connection P R) → s.ignore_new_data ≡ true → OpenOrdered around [] s
  ignoring-OpenOrdered s e o = record { ordered = λ i w. absurd (ground (arith, e, i)) }

  headers_done-OpenOrdered :
      Waits around.parser
      → (response : Option R) (s : Connection P R) → OpenOrdered around [] s
      → OpenOrdered around [] (on_headers_complete_complete around response s)
  unfolding on_headers_complete_complete
  headers_done-OpenOrdered waits none s inv =
      let v : Connection P R =
        if request_has_value (bytes "Expect") (bytes "100-continue") s
        then call write_continue s
        else s in
      let v_inv =
        if-holds (OpenOrdered around [])
          (request_has_value (bytes "Expect") (bytes "100-continue") s) {x = call write_continue s}
          {y = s} (λ e. moved s (call write_continue s) refl refl inv) (λ e. inv) in
      buffer-OpenOrdered around waits v (around.parser.headers_completed v.parser 0)
        (waits.waits_no_more v.parser 0) v_inv
  headers_done-OpenOrdered waits (some response) s inv =
      let closing =
        (request_has_header (bytes "Content-Length") s
          || request_has_header (bytes "Transfer-Encoding") s)
        || not (around.parser.should_keep_alive s.parser) in
      let u : Connection P R = if closing then stop_reading s else s in
      let u_inv =
        if-holds (OpenOrdered around []) closing {x = stop_reading s} {y = s}
          (λ e. ignoring-OpenOrdered (stop_reading s) refl) (λ e. inv) in
      let v = call (write_response closing response) u in
      buffer-OpenOrdered around waits v (around.parser.headers_completed v.parser 3)
        (waits.waits_no_more v.parser 3) (moved u v refl refl u_inv)

  run_task-OpenOrdered :
      Waits around.parser
      → (task : Task R) (s : Connection P R) → OpenOrdered around [] s
      → OpenOrdered around [] (run_task around task s)
  unfolding run_task on_body_error on_message_complete_complete
  run_task-OpenOrdered waits (headers_complete_complete response) s inv =
      headers_done-OpenOrdered waits response s inv
  run_task-OpenOrdered waits (body_error response) s inv =
      ignoring-OpenOrdered
        (call (write_response true response)
          (stop_reading (record s { parser = around.parser.pause s.parser })))
        refl
  run_task-OpenOrdered waits (message_complete_complete none) s inv = inv
  run_task-OpenOrdered waits (message_complete_complete (some response)) s inv =
      let keep_alive = around.parser.should_keep_alive s.parser in
      let u : Connection P R = if keep_alive then s else stop_reading s in
      let u_inv =
        if-holds (OpenOrdered around []) keep_alive {x = s} {y = stop_reading s} (λ e. inv)
          (λ e. ignoring-OpenOrdered (stop_reading s) refl) in
      if-holds (OpenOrdered around []) s.request.is_closing (λ e. inv)
        (λ e. moved u (call (write_response (not keep_alive) response) u) refl refl u_inv)
  run_task-OpenOrdered waits (read_rest rest) s inv =
      moved s (call (read_web_socket rest) s) refl refl inv
  run_task-OpenOrdered waits close_request s inv = close_any-OpenOrdered around s

  protocol-OpenOrdered :
      (p : Protocol) (x y : Connection P R)
      → (p ≡ http → OpenOrdered around [] x)
      → (p ≡ web_sockets → OpenOrdered around [] y)
      → OpenOrdered around [] (elim p [ http ↦ x | web_sockets ↦ y ])
  protocol-OpenOrdered http x y f g = f refl
  protocol-OpenOrdered web_sockets x y f g = g refl

  web_sockets-OpenOrdered :
      (s : Connection P R) → s.protocol ≡ web_sockets → OpenOrdered around [] s
  web_sockets-OpenOrdered s e o = record {
    ordered = λ i w. absurd (ground (arith, ap is_web_sockets e, w));
  }

  read-OpenOrdered :
      Waits around.parser
      → (buf : Bytes) (s : Connection P R) → 0 < length buf
      → OpenOrdered around [] s
      → OpenOrdered around [] (on_request_read around buf s)
  unfolding on_request_read
  read-OpenOrdered waits buf s some_data inv =
      let v : Connection P R = record s { received = s.received ++ buf } in
      if-holds (OpenOrdered around []) s.ignore_new_data (λ e. ignoring-OpenOrdered v e)
        (λ e.
          protocol-OpenOrdered s.protocol (parse_http_data around buf v)
            (if s.has_ws then call (read_web_socket buf) v else v)
            (λ _.
              parse-OpenOrdered around waits buf v (λ _. some_data)
                (λ o. record {
                  ordered = λ i w.
                      let (ws, t, nothing) = (inv o).ordered i w in
                      (ws, more s.taken s.request_buffer s.received buf t, nothing);
                }))
            (λ h.
              if-holds (OpenOrdered around []) s.has_ws
                (λ _. web_sockets-OpenOrdered (call (read_web_socket buf) v) h)
                (λ _. web_sockets-OpenOrdered v h)))

  moved_to :
      (s u t : Connection P R)
      → t ≡ u
      → frame u ≡ frame s
      → u.request.is_closing ≡ s.request.is_closing
      → OpenOrdered around [] s
      → OpenOrdered around [] t
  moved_to s u t m e f inv = rw m (moved s u e f inv)

  is_closing-on_closed :
      (s : Connection P R) → (on_closed s).request.is_closing ≡ s.request.is_closing
  unfolding on_closed
  is_closing-on_closed s =
      if-holds {A = Connection P R} (λ v. v.request.is_closing ≡ s.request.is_closing) s.has_ws
        (λ e. refl) (λ e. refl)

  on_closed-OpenOrdered :
      (s : Connection P R) → s.request.is_closing ≡ true → OpenOrdered around [] (on_closed s)
  on_closed-OpenOrdered s e o = absurd (ground (arith, e, is_closing-on_closed s, o))

  Step-OpenOrdered :
      {s t : Connection P R}
      → Waits around.parser
      → Step around s t
      → OpenOrdered around [] s
      → OpenOrdered around [] t
  unfolding schedule_on_headers_complete_complete schedule_on_body_error
      schedule_on_message_complete_complete schedule_close on_ws_open
  Step-OpenOrdered {s} {t} waits (reads buf some_data o e) inv =
      rw e (read-OpenOrdered waits buf s some_data inv)
  Step-OpenOrdered {s} {t} waits (read_fails o e) inv = rw e (close_any-OpenOrdered around s)
  Step-OpenOrdered {s} {t} waits (closes e) inv = rw e (close_any-OpenOrdered around s)
  Step-OpenOrdered {s} {t} waits (completes e) inv = moved_to s _ t e refl refl inv
  Step-OpenOrdered {s} {t} waits (closed o e) inv = rw e (on_closed-OpenOrdered s o)
  Step-OpenOrdered {s} {t} waits (runs task tasks o e) inv =
      let v : Connection P R = record s { background = tasks } in
      rw e (run_task-OpenOrdered waits task v (moved s v refl refl inv))
  Step-OpenOrdered {s} {t} waits (main_takes task tasks o e) inv = moved_to s _ t e refl refl inv
  Step-OpenOrdered {s} {t} waits (answers_headers none e) inv = moved_to s _ t e refl refl inv
  Step-OpenOrdered {s} {t} waits (answers_headers (some response) e) inv =
      moved_to s _ t e refl refl inv
  Step-OpenOrdered {s} {t} waits (answers_body response e) inv = moved_to s _ t e refl refl inv
  Step-OpenOrdered {s} {t} waits (answers_request response e) inv = moved_to s _ t e refl refl inv
  Step-OpenOrdered {s} {t} waits (asks_to_close e) inv = moved_to s _ t e refl refl inv
  Step-OpenOrdered {s} {t} waits (opens o e) inv = rw e (
      if-holds (OpenOrdered around []) s.has_ws
        (λ _.
          web_sockets-OpenOrdered
            (record s {
              background = s.background ++ read_rest s.request_buffer ∷ [];
              request_buffer = [];
            })
            o)
        (λ _. web_sockets-OpenOrdered s o))

  Reach-OpenOrdered :
      {first s : Connection P R}
      → Waits around.parser
      → OpenOrdered around [] first
      → Reach around first s
      → OpenOrdered around [] s
  Reach-OpenOrdered waits inv (at_start e) = rw e inv
  Reach-OpenOrdered waits inv (later_on r step) =
      Step-OpenOrdered waits step (Reach-OpenOrdered waits inv r)

  -- When the parser, while it waits for the answer to the headers, takes nothing of a buffer with data
  -- and goes on to wait, and does not wait once it was told the answer, and whatever else it, R and the client do, in whatever order the threads run: as long as a
  -- connection is open, speaks HTTP and does not ignore its data, what the parser took and then what
  -- is in the request buffer are the bytes that were read, in order, and the buffer is empty
  -- unless the parser waits.
  pub Reach-taken :
      {p : P} {s : Connection P R}
      → Waits around.parser
      → Reach around (new_connection p) s
      → s.request.is_closing ≡ false
      → s.ignore_new_data ≡ false
      → s.protocol ≡ http
      → (s.taken ++ s.request_buffer ≡ s.received)
        × (around.parser.waiting_for_headers_completed s.parser ≡ false → s.request_buffer ≡ [])
  Reach-taken {p} {s} waits r o i w =
      let first : OpenOrdered around [] (new_connection p) =
        λ _. record { ordered = λ _ _. (refl, refl, λ _. refl) } in
      let (ws, t, nothing) = (Reach-OpenOrdered waits first r o).ordered i (ap is_web_sockets w) in
      (rw (append-nil s.request_buffer) at t, nothing)
