-- ===== src/Request/Parsing.antt =====
-- The data of one call of _parse_http_data.
use httpuv.Base.{
  ℕ, ◌<◌, ◌≡◌, refl, arith, true, false, not, [], ◌++◌, append_assoc, append-nil, take-append-drop,
  Bytes, ltb, length, take, drop, Bool-cases, inl, inr,
}
use httpuv.Request.{is_web_sockets, uv_read_stop, Connection, call, close_request_now, Surroundings}
use httpuv.Request.Steps.{
  on_parser_calls, upgrade_with, after_execute, parse_http_data, parse_http_data_from_buffer,
}
use httpuv.Request.Closed.{if-holds, option-holds}
use httpuv.Request.Frame.{Waits, drop_all, OpenOrdered, Keeps-Ordered, on_parser_calls-Keeps}

module _ {P R : Type 0} (around : Surroundings P R) where
  close-OpenOrdered :
      (s : Connection P R)
      → (s.request.is_closing ≡ true → OpenOrdered around [] s)
      → OpenOrdered around [] (close_request_now s)
  unfolding close_request_now
  close-OpenOrdered s inv =
      if-holds (OpenOrdered around []) s.request.is_closing (λ e. inv e)
        (λ e o. absurd (ground (arith, o)))

  pub close_any-OpenOrdered : (s : Connection P R) → OpenOrdered around [] (close_request_now s)
  close_any-OpenOrdered s = close-OpenOrdered s (λ e o. absurd (ground (arith, e, o)))

  upgrade_with-OpenOrdered :
      (rest : Bytes) (s : Connection P R)
      → OpenOrdered around rest s
      → OpenOrdered around [] (upgrade_with around rest s)
  unfolding upgrade_with
  upgrade_with-OpenOrdered rest s inv =
      if-holds (OpenOrdered around []) (not s.has_ws)
        (λ e o. record { ordered = λ i w. absurd (ground (arith, e, ((inv o).ordered i w).0)) })
        (λ e.
          option-holds (OpenOrdered around []) (around.switch s.request.headers rest)
            (if-holds (OpenOrdered around []) (is_web_sockets s.protocol)
              (λ e o. record { ordered = λ i w. absurd (ground (arith, e, w)) })
              (λ e. close_any-OpenOrdered s))
            (λ left o. record { ordered = λ i w. absurd (ground (arith, w)) }))

  after_execute-OpenOrdered :
      (parsed : ℕ) (buffer : Bytes) (s : Connection P R)
      → OpenOrdered around (drop parsed buffer) s
      → OpenOrdered around [] (after_execute around parsed buffer s)
  unfolding after_execute
  after_execute-OpenOrdered parsed buffer s inv =
      let rest = drop parsed buffer in
      if-holds (OpenOrdered around []) (around.parser.waiting_for_headers_completed s.parser)
        (λ e o. record {
          ordered = λ i w.
              let (ws, t, nothing) = (inv o).ordered i w in
              (
                ws,
                rw (append-nil (s.request_buffer ++ rest)) t,
                λ f. absurd (ground (arith, e, f)),
              );
        })
        (λ e.
          if-holds (OpenOrdered around []) s.is_upgrade (λ _. upgrade_with-OpenOrdered rest s inv)
            (λ _.
              if-holds (OpenOrdered around []) (ltb parsed (length buffer))
                (λ _.
                  if-holds (OpenOrdered around []) s.ignore_new_data
                    (λ g o. record { ordered = λ i w. absurd (ground (arith, g, i)) })
                    (λ _. close_any-OpenOrdered (call uv_read_stop s)))
                (λ g o. rw (← drop_all buffer parsed (ground (arith, g))) (inv o))))

  executed :
      Waits around.parser
      → (p : P) (took held got buffer : Bytes)
      → (around.parser.waiting_for_headers_completed p ≡ true → 0 < length buffer)
      → took ++ (held ++ buffer) ≡ got
      → (around.parser.waiting_for_headers_completed p ≡ false → held ≡ [])
      → let e = around.parser.execute p buffer in
        ((took ++ take e.parsed buffer) ++ (held ++ drop e.parsed buffer) ≡ got)
        × (around.parser.waiting_for_headers_completed e.parser ≡ false → held ≡ [])
  executed waits p took held got buffer some_data t nothing =
      elim (Bool-cases (around.parser.waiting_for_headers_completed p)) [
        | inl waiting ↦ (
          rw (waits.takes_nothing p buffer waiting (some_data waiting), append-nil took) t,
          λ f. absurd (ground (arith, waits.still_waits p buffer waiting (some_data waiting), f)),
        )
        | inr ready ↦
            let e = around.parser.execute p buffer in
            (
              rw
                  (
                    nothing ready,
                    append_assoc took (take e.parsed buffer) (drop e.parsed buffer),
                    take-append-drop e.parsed buffer,
                  )
                  (rw (nothing ready) at t),
              λ f. nothing ready,
            )
      ]

  pub parse-OpenOrdered :
      Waits around.parser
      → (buffer : Bytes) (s : Connection P R)
      → (around.parser.waiting_for_headers_completed s.parser ≡ true → 0 < length buffer)
      → OpenOrdered around buffer s
      → OpenOrdered around [] (parse_http_data around buffer s)
  unfolding parse_http_data
  parse-OpenOrdered waits buffer s some_data inv =
      let e = around.parser.execute s.parser buffer in
      let v : Connection P R = record s {
        parser = e.parser;
        taken = s.taken ++ take e.parsed buffer;
      } in
      let v_inv : OpenOrdered around (drop e.parsed buffer) v = λ o. record {
        ordered = λ i w.
            let (ws, t, nothing) = (inv o).ordered i w in
            let (t', nothing') =
              executed waits s.parser s.taken s.request_buffer s.received buffer some_data t
                nothing in
            (ws, t', nothing');
      } in
      after_execute-OpenOrdered e.parsed buffer (on_parser_calls around e.parser_calls v)
        (Keeps-Ordered around v _ (on_parser_calls-Keeps around e.parser_calls v) v_inv)

  pub buffer-OpenOrdered :
      Waits around.parser
      → (s : Connection P R) (p : P) → around.parser.waiting_for_headers_completed p ≡ false
      → OpenOrdered around [] s
      → OpenOrdered around [] (parse_http_data_from_buffer around (record s { parser = p }))
  unfolding parse_http_data_from_buffer
  buffer-OpenOrdered waits s p ready inv =
      let v : Connection P R = record s { parser = p; request_buffer = [] } in
      parse-OpenOrdered waits s.request_buffer v (λ e. absurd (ground (arith, ready, e)))
        (λ o. record {
          ordered = λ i w.
              let (ws, t, nothing) = (inv o).ordered i w in
              (ws, rw (← append-nil s.request_buffer) t, λ f. refl);
        })
