-- ===== src/Tests/Request.antt =====
-- A connection with a parser that takes one byte as the headers and then waits, and returns 1 on an
-- empty buffer, as http-parser does; a response is a
-- number.
use httpuv.Base.{some, ◌<◌, length, ℕ, ◌≡◌, ◌++◌, refl, arith, Bool, true, false, [], ◌∷◌, none}
use httpuv.Request.{
  http, write_switching_protocols, message_begin, headers_complete, HttpParser, read_web_socket,
  read_rest, Connection, close_request_now, new_request, on_ws_open, new_connection, Surroundings,
}
use httpuv.Incoming.{on_message_begin}
use httpuv.Request.Steps.{
  upgrade_with, on_headers_complete, on_parser_call, on_parser_calls, after_execute,
  parse_http_data, on_request_read, reads, read_fails, Reach, at_start, later_on,
}
use httpuv.Request.Closed.{IsClosedOnce, Reach-IsClosedOnce}
use httpuv.Request.Frame.{Waits}
use httpuv.Request.InOrder.{Reach-taken}

abbrev one_byte : HttpParser Bool
one_byte = record {
  execute = λ p buffer. elim p [
    | true ↦ record {
      parser = true;
      parsed = elim buffer [ [] ↦ 1 | c ∷ cs ↦ 0 ];
      parser_calls = [];
    }
    | false ↦ record {
      parser = true;
      parsed = 1;
      parser_calls = message_begin ∷ headers_complete false ∷ [];
    }
  ];
  waiting_for_headers_completed = λ p. p;
  should_keep_alive = λ p. true;
  headers_completed = λ p result. false;
  pause = λ p. p;
}

abbrev around : Surroundings Bool ℕ
around = record {
  parser = one_byte;
  static_file_response = λ r. none;
  switch = λ headers rest. none;
}

one_byte-Waits : Waits one_byte
one_byte-Waits = record {
  takes_nothing = λ p buffer e h.
      elim p as (λ q. q ≡ true → (one_byte.execute q buffer).parsed ≡ 0) [
        | true ↦ λ _.
            elim buffer as (λ b. 0 < length b → (one_byte.execute true b).parsed ≡ 0) [
              | [] ↦ λ empty. absurd (omega (arith, empty))
              | c ∷ cs ↦ λ _. refl
            ]
              h
        | false ↦ λ f. absurd (ground (arith, f))
      ]
        e;
  still_waits = λ p buffer e _.
      elim p as (λ q. q ≡ true → (one_byte.execute q buffer).parser ≡ true) [
        | true ↦ λ _. refl
        | false ↦ λ f. absurd (ground (arith, f))
      ]
        e;
  waits_no_more = λ p result. refl;
}

abbrev one_read : Connection Bool ℕ
one_read = on_request_read around (7 ∷ 8 ∷ []) (new_connection false)

abbrev two_reads : Connection Bool ℕ
two_reads = on_request_read around (9 ∷ []) one_read

one_read-open : one_read.request.is_closing ≡ false
unfolding on_request_read parse_http_data on_parser_calls on_parser_call new_request
    on_message_begin on_headers_complete after_execute
one_read-open = refl

two_reads-open :
    (two_reads.request.is_closing ≡ false)
    × (two_reads.ignore_new_data ≡ false)
    × (two_reads.protocol ≡ http)
unfolding on_request_read parse_http_data on_parser_calls on_parser_call new_request
    on_message_begin on_headers_complete after_execute
two_reads-open = (refl, refl, refl)

two_reads-Reach : Reach around (new_connection false) two_reads
two_reads-Reach =
    later_on (later_on (at_start refl) (reads (7 ∷ 8 ∷ []) (omega arith) refl refl))
      (reads (9 ∷ []) (omega arith) one_read-open refl)

Reach-taken_example :
    (two_reads.taken ++ two_reads.request_buffer ≡ two_reads.received)
    × (two_reads.parser ≡ false → two_reads.request_buffer ≡ [])
Reach-taken_example =
    Reach-taken around one_byte-Waits two_reads-Reach two_reads-open.0 two_reads-open.1
      two_reads-open.2

-- What these fields are.
two_reads-buffer :
    (two_reads.taken ≡ 7 ∷ [])
    × (two_reads.request_buffer ≡ 8 ∷ 9 ∷ [])
    × (two_reads.received ≡ 7 ∷ 8 ∷ 9 ∷ [])
unfolding on_request_read parse_http_data on_parser_calls on_parser_call new_request
    on_message_begin on_headers_complete after_execute
two_reads-buffer = (refl, refl, refl)

abbrev hung_up : Connection Bool ℕ
hung_up = close_request_now two_reads

Reach-IsClosedOnce_example : IsClosedOnce hung_up
Reach-IsClosedOnce_example =
    Reach-IsClosedOnce around (later_on two_reads-Reach (read_fails two_reads-open.0 refl))

-- A parser that takes one byte as the headers of an upgrade, with a byte of WebSocket data behind.
abbrev upgrading : Surroundings Bool ℕ
upgrading = record {
  parser = record one_byte {
    execute = λ p buffer. record {
      parser = false;
      parsed = 1;
      parser_calls = message_begin ∷ headers_complete true ∷ [];
    };
  };
  static_file_response = λ r. none;
  switch = λ headers rest. some rest;
}

abbrev late : Connection Bool ℕ
late = on_ws_open (
    on_request_read upgrading (2 ∷ [])
      (on_request_read upgrading (7 ∷ 1 ∷ []) (new_connection false)))

-- The byte 2, which came later, has been read; the byte 1 is in a task.
late-read :
    (late.calls ≡ write_switching_protocols ∷ read_web_socket (2 ∷ []) ∷ [])
    × (late.background ≡ read_rest (1 ∷ []) ∷ [])
unfolding on_request_read parse_http_data on_parser_calls on_parser_call new_request
    on_message_begin on_headers_complete after_execute upgrade_with on_ws_open
late-read = (refl, refl)
