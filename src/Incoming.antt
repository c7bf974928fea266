-- ===== src/Incoming.antt =====
-- The headers of a request as they come in: the callbacks `_on_message_begin`, `_on_url`,
-- `_on_header_field` and `_on_header_value` of HttpRequest (src/httprequest.cpp), which http-parser
-- calls with the pieces that it meets.
pub mod Fields
pub mod Commas
use httpuv.Base.{
  Bool, true, false, List, [], ◌∷◌, ◌++◌, Bytes, bytes, bytes_eq, if◌then◌else◌, find, Option, none,
  some,
}
use httpuv.Headers.{RequestHeaders, same_ci}

pub data LastHeaderState : Type 0 where
  start field_state value_state : LastHeaderState

-- The members that these callbacks use, but for the environment of R.
pub record HttpRequest : Type 0 where
  pub url : Bytes
  pub headers : RequestHeaders
  pub last_header_field : Bytes
  pub last_header_state : LastHeaderState
  pub handling_request : Bool
  pub response_scheduled : Bool
  pub is_closing : Bool

-- The second request of a pipeline closes the connection, which of these members sets only
-- `is_closing`, and is taken in nevertheless.
unfoldable pub on_message_begin : HttpRequest → HttpRequest
on_message_begin r = record r {
  is_closing = if r.handling_request then true else r.is_closing;
  handling_request = true;
  headers = [];
  response_scheduled = false;
  last_header_state = start;
}

unfoldable pub on_url : HttpRequest → Bytes → HttpRequest
on_url r piece = record r { url = piece }

unfoldable pub on_header_field : HttpRequest → Bytes → HttpRequest
on_header_field r piece = elim r.last_header_state [
  | start ↦ record r { last_header_state = field_state; last_header_field = piece }
  | field_state ↦ record r { last_header_field = r.last_header_field ++ piece }
  | value_state ↦ record r { last_header_state = field_state; last_header_field = piece }
]

-- `_headers[name] = value`. The key of an entry that is there stays as it is.
unfoldable pub put : Bytes → Bytes → RequestHeaders → RequestHeaders
put name value [] = (name, value) ∷ []
put name value ((n, v) ∷ headers) =
    if same_ci name n then (n, value) ∷ headers else (n, v) ∷ put name value headers

-- The value of a field that comes again.
unfoldable pub combined : Option Bytes → Bytes → Bytes
combined none value = value
combined (some old) value =
    if bytes_eq old []
    then value
    else if bytes_eq value []
    then old
    else old ++ (bytes "," ++ value)

-- `_headers[name]`, which is empty where there is none.
unfoldable pub at_name : Bytes → RequestHeaders → Bytes
at_name name headers = elim (find same_ci name headers) [ none ↦ [] | some value ↦ value ]

unfoldable pub on_header_value : HttpRequest → Bytes → HttpRequest
unfolding put combined at_name
on_header_value r piece =
    let name = r.last_header_field in
    let first = record r {
      last_header_state = value_state;
      headers = put name (combined (find same_ci name r.headers) piece) r.headers;
    } in
    elim r.last_header_state [
      | start ↦ first
      | field_state ↦ first
      | value_state ↦ record r { headers = put name (at_name name r.headers ++ piece) r.headers }
    ]
