-- ===== src/Request/Frame.antt =====
-- What the parser's calls leave of a connection as it is.
use httpuv.Base.{
  ℕ, zero, suc, ◌≤◌, ◌<◌, ◌≡◌, refl, sym, ap, ◌∙◌, arith, Bool, true, false, List, [], ◌∷◌, ◌++◌,
  append_assoc, append-nil, Bytes, length, drop, if◌then◌else◌,
}
use httpuv.Incoming.{HttpRequest, on_message_begin, on_url}
use httpuv.Request.{
  Protocol, is_web_sockets, ParserCall, message_begin, url, header_field, header_value,
  headers_complete, body, message_complete, HttpParser, Connection, close_request_now, new_request,
  on_message_complete, Surroundings,
}
use httpuv.Request.Steps.{on_headers_complete, on_parser_call, on_parser_calls}
use httpuv.Request.Closed.{
  if-holds, option-holds, is_closing-on_header_field, is_closing-on_header_value,
}

-- While it waits for http_parser_headers_completed, the parser takes nothing of a buffer with data
-- and goes on to wait; after that call it does not wait.
pub record Waits {P : Type 0} (parser : HttpParser P) : Type 0 where
  pub takes_nothing :
      (p : P) (buffer : Bytes)
      → parser.waiting_for_headers_completed p ≡ true
      → 0 < length buffer
      → (parser.execute p buffer).parsed ≡ 0
  pub still_waits :
      (p : P) (buffer : Bytes)
      → parser.waiting_for_headers_completed p ≡ true
      → 0 < length buffer
      → parser.waiting_for_headers_completed (parser.execute p buffer).parser ≡ true
  pub waits_no_more :
      (p : P) (result : ℕ)
      → parser.waiting_for_headers_completed (parser.headers_completed p result) ≡ false

-- The parts of a connection that say which bytes were read.
pub record Frame (P : Type 0) : Type 0 where
  pub ignoring : Bool
  pub of_protocol : Protocol
  pub with_ws : Bool
  pub took : Bytes
  pub buffered : Bytes
  pub got : Bytes
  pub state : P

abbrev pub frame : {P R : Type 0} → Connection P R → Frame P
frame s = record {
  ignoring = s.ignore_new_data;
  of_protocol = s.protocol;
  with_ws = s.has_ws;
  took = s.taken;
  buffered = s.request_buffer;
  got = s.received;
  state = s.parser;
}

drop_nil : (j : ℕ) → drop {A = ℕ} j [] ≡ []
drop_nil zero = refl
drop_nil (suc j) = refl

pub drop_all : (s : Bytes) (i : ℕ) → length s ≤ i → drop i s ≡ []
drop_all [] i h = drop_nil i
drop_all (b ∷ s) zero h = absurd (omega arith)
drop_all (b ∷ s) (suc i) h = drop_all s i (omega arith)

pub more :
    (took held got buf : Bytes) → took ++ (held ++ []) ≡ got → took ++ (held ++ buf) ≡ got ++ buf
more took held got buf t =
    sym (append_assoc took held buf)
    ∙ ap (λ r. r ++ buf) (ap (λ r. took ++ r) (sym (append-nil held)) ∙ t)

module _ {P R : Type 0} (around : Surroundings P R) where
  -- As long as the data is HTTP and not ignored: what the parser took, what is in the buffer and
  -- `rest` are what was read, and nothing is in the buffer unless the parser waits.
  pub record Ordered (rest : Bytes) (f : Frame P) : Type 0 where
    pub ordered :
        f.ignoring ≡ false
        → is_web_sockets f.of_protocol ≡ false
        → (f.with_ws ≡ true)
          × (f.took ++ (f.buffered ++ rest) ≡ f.got)
          × (around.parser.waiting_for_headers_completed f.state ≡ false → f.buffered ≡ [])

  abbrev pub OpenOrdered : Bytes → Connection P R → Type 0
  OpenOrdered rest s = s.request.is_closing ≡ false → Ordered rest (frame s)

  -- The parser's calls leave these parts as they are, and never open a connection again.
  pub record Keeps (s t : Connection P R) : Type 0 where
    pub same : frame t ≡ frame s
    pub open_before : t.request.is_closing ≡ false → s.request.is_closing ≡ false

  pub Keeps-Ordered :
      {rest : Bytes} (s t : Connection P R) → Keeps s t → OpenOrdered rest s → OpenOrdered rest t
  Keeps-Ordered s t k inv o = rw k.same (inv (k.open_before o))

  close-Keeps : (s : Connection P R) → Keeps s (close_request_now s)
  unfolding close_request_now
  close-Keeps s =
      if-holds (Keeps s) s.request.is_closing (λ e. record { same = refl; open_before = λ o. o })
        (λ e. record { same = refl; open_before = λ o. e })

  begin-open : (r : HttpRequest) → (on_message_begin r).is_closing ≡ false → r.is_closing ≡ false
  unfolding on_message_begin
  begin-open r =
      if-holds {A = Bool} (λ b. b ≡ false → r.is_closing ≡ false) r.handling_request
        (λ e o. absurd (ground (arith, o))) (λ e o. o)

  new_request-Keeps : (s : Connection P R) → Keeps s (new_request s)
  unfolding new_request
  new_request-Keeps s =
      let v : Connection P R = if s.request.handling_request then close_request_now s else s in
      let k : Keeps s v =
        if-holds (Keeps s) s.request.handling_request (λ e. close-Keeps s)
          (λ e. record { same = refl; open_before = λ o. o }) in
      record { same = k.same; open_before = λ o. k.open_before (begin-open v.request o) }

  on_parser_call-Keeps : (c : ParserCall) (s : Connection P R) → Keeps s (on_parser_call around c s)
  unfolding on_parser_call on_headers_complete on_message_complete on_url
  on_parser_call-Keeps message_begin s = new_request-Keeps s
  on_parser_call-Keeps (url piece) s = record { same = refl; open_before = λ o. o }
  on_parser_call-Keeps (header_field piece) s = record {
    same = refl;
    open_before = λ o. sym (is_closing-on_header_field s.request piece) ∙ o;
  }
  on_parser_call-Keeps (header_value piece) s = record {
    same = refl;
    open_before = λ o. sym (is_closing-on_header_value s.request piece) ∙ o;
  }
  on_parser_call-Keeps (headers_complete upgrade) s =
      option-holds (Keeps s) (around.static_file_response s.request)
        (record { same = refl; open_before = λ o. o })
        (λ r. record { same = refl; open_before = λ o. o })
  on_parser_call-Keeps (body piece) s = record { same = refl; open_before = λ o. o }
  on_parser_call-Keeps message_complete s =
      if-holds (Keeps s) s.is_upgrade (λ e. record { same = refl; open_before = λ o. o })
        (λ e. record { same = refl; open_before = λ o. o })

  pub on_parser_calls-Keeps :
      (cs : List ParserCall) (s : Connection P R) → Keeps s (on_parser_calls around cs s)
  unfolding on_parser_calls
  on_parser_calls-Keeps [] s = record { same = refl; open_before = λ o. o }
  on_parser_calls-Keeps (c ∷ cs) s =
      let first = on_parser_call-Keeps c s in
      let rest = on_parser_calls-Keeps cs (on_parser_call around c s) in
      record {
        same = rest.same ∙ first.same;
        open_before = λ o. first.open_before (rest.open_before o);
      }
