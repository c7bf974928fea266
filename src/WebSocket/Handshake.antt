-- ===== src/WebSocket/Handshake.antt =====
-- The opening handshake: `canHandle` and `handshake` of both protocols (src/websockets-ietf.cpp,
-- src/websockets-hybi03.cpp), and WebSocketConnection::accept, which chooses one
-- (src/websockets.cpp). The digests SHA-1 and MD5 are arguments. An exception or a failed assertion
-- is `none`.
pub mod Accepted
use httpuv.Base.{
  ℕ, suc, ◌+◌, ◌-◌, ◌*◌, ◌/◌, ◌%◌, ◌^◌, Bool, true, false, ◌&&◌, not, List, [], ◌∷◌, ◌++◌, Bytes,
  bytes, ltb, leb, ◌==◌, if◌then◌else◌, length, take, drop, Option, none, some,
}
use httpuv.Headers.{RequestHeaders, ResponseHeaders, same_ci, at_header, trim}
use httpuv.Base64.{b64encode}
use httpuv.WebSocket.Frame.{in_memory, swap_byte_order}
use httpuv.WebSocket.Connection.{WsConnState, is_closed}

abbrev pub is_some {ℓ} : {A : Type ℓ} → Option A → Bool
is_some none = false
is_some (some _) = true

-- `strcasecmp(headers.at("upgrade"), "websocket") == 0`, if there is one.
upgrades : RequestHeaders → Bool
unfolding same_ci
upgrades headers = elim (at_header (bytes "upgrade") headers) [
  | none ↦ false
  | some value ↦ same_ci value (bytes "websocket")
]

unfoldable pub can_handle_ietf : RequestHeaders → Bool
unfolding upgrades
can_handle_ietf headers =
    upgrades headers && is_some (at_header (bytes "sec-websocket-key") headers)

-- What a protocol's `handshake` leaves: the data not used up, the headers and body of the response.
pub record Handshake : Type 0 where
  pub unread : Bytes
  pub response_headers : ResponseHeaders
  pub response : Bytes

abbrev pub accept_guid : Bytes
accept_guid = bytes "258EAFA5-E914-47DA-95CA-C5AB0DC85B11"

unfoldable pub handshake_ietf : (Bytes → Bytes) → RequestHeaders → Bytes → Option Handshake
handshake_ietf sha1 headers input = elim (at_header (bytes "sec-websocket-key") headers) [
  | none ↦ none
  | some key ↦ some (record {
    unread = input;
    response_headers =
        (bytes "Connection", bytes "Upgrade")
        ∷ (bytes "Upgrade", bytes "websocket")
        ∷ (bytes "Sec-WebSocket-Accept", b64encode (sha1 (trim key ++ accept_guid)))
        ∷ [];
    response = [];
  })
]

-- The loop over the trimmed key: the digits as a number, and the spaces, both of 32 bits.
key_loop : Bytes → ℕ → ℕ → ℕ × ℕ
key_loop [] value spaces = (value, spaces)
key_loop (c ∷ s) value spaces =
    if c == b' '
    then key_loop s value ((spaces + 1) % 2 ^ 32)
    else if leb b'0' c && leb c b'9'
    then key_loop s ((value * 10 % 2 ^ 32 + (c - b'0')) % 2 ^ 32) spaces
    else key_loop s value spaces

-- `none` is the result `false`.
unfoldable pub calculate_key_value : Bytes → Option ℕ
unfolding key_loop
calculate_key_value key =
    let (value, spaces) = key_loop (trim key) 0 0 in
    if spaces == 0 then none else some (value / spaces)

-- The key value of a header that is there; else, or where the key has no value, `none`.
unfoldable pub key_of : Bytes → RequestHeaders → Option ℕ
key_of name headers = elim (at_header name headers) [
  | none ↦ none
  | some key ↦ calculate_key_value key
]

unfoldable pub can_handle_hybi03 : RequestHeaders → ℕ → Bool
unfolding upgrades
can_handle_hybi03 headers len =
    if not (len == 8)
    then false
    else if not (is_some (key_of (bytes "sec-websocket-key1") headers))
    then false
    else if not (is_some (key_of (bytes "sec-websocket-key2") headers))
    then false
    else if not (is_some (at_header (bytes "host") headers))
    then false
    else upgrades headers

unfoldable pub origin_of : RequestHeaders → Bytes
origin_of headers = elim (at_header (bytes "sec-websocket-origin") headers) [
  | some origin ↦ origin
  | none ↦ elim (at_header (bytes "origin") headers) [ some origin ↦ origin | none ↦ [] ]
]

-- A key value of four bytes in network order.
network_order : Bool → ℕ → Bytes
unfolding swap_byte_order
network_order big_endian key =
    let memory = in_memory big_endian 4 key in if big_endian then memory else swap_byte_order memory

hybi03_response :
    (Bytes → Bytes) → Bool → Bytes → RequestHeaders → Bytes → ℕ → ℕ → Bytes → Handshake
unfolding network_order
hybi03_response md5 big_endian url headers input key1 key2 host = record {
  unread = drop 8 input;
  response_headers =
      (bytes "Connection", bytes "Upgrade")
      ∷ (bytes "Upgrade", bytes "WebSocket")
      ∷ (bytes "Sec-WebSocket-Origin", origin_of headers)
      ∷ (bytes "Sec-WebSocket-Location", bytes "ws://" ++ (host ++ url))
      ∷ [];
  response = md5 (network_order big_endian key1 ++ (network_order big_endian key2 ++ take 8 input));
}

-- Without a value for a key the source reads an integer that nothing has set; that is `none` too.
unfoldable pub handshake_hybi03 :
    (Bytes → Bytes) → Bool → Bytes → RequestHeaders → Bytes → Option Handshake
unfolding hybi03_response
handshake_hybi03 md5 big_endian url headers input =
    if ltb (length input) 8 then none else elim (key_of (bytes "sec-websocket-key1") headers) [
      | none ↦ none
      | some key1 ↦ elim (key_of (bytes "sec-websocket-key2") headers) [
        | none ↦ none
        | some key2 ↦ elim (at_header (bytes "host") headers) [
          | none ↦ none
          | some host ↦ some (hybi03_response md5 big_endian url headers input key1 key2 host)
        ]
      ]
    ]

-- The parser that `accept` makes.
pub data Parser : Type 0 where
  hybi_parser hixie76_parser : Parser

unfoldable pub accept : WsConnState → RequestHeaders → ℕ → Option Parser
accept state headers len =
    if is_closed state
    then none
    else if can_handle_ietf headers
    then some hybi_parser
    else if can_handle_hybi03 headers len
    then some hixie76_parser
    else none

-- WSParser::handshake of the chosen parser.
unfoldable pub handshake :
    (Bytes → Bytes)
    → (Bytes → Bytes)
    → Bool
    → Parser
    → Bytes
    → RequestHeaders
    → Bytes
    → Option Handshake
handshake sha1 md5 big_endian hybi_parser url headers input = handshake_ietf sha1 headers input
handshake sha1 md5 big_endian hixie76_parser url headers input =
    handshake_hybi03 md5 big_endian url headers input
