-- ===== src/Tests/Handshake.antt =====
-- The opening handshake at concrete inputs.
use httpuv.Base.{◌≡◌, refl, arith, true, false, [], ◌∷◌, ◌++◌, Bytes, bytes, length, some, find}
use httpuv.Headers.{RequestHeaders, at_header, trim, same_ci}
use httpuv.Base64.Decode.{decoded}
use httpuv.WebSocket.Connection.{ws_open}
use httpuv.WebSocket.Handshake.{
  Handshake, hybi_parser, hixie76_parser, accept, handshake, can_handle_ietf, can_handle_hybi03,
  key_of, calculate_key_value,
}
use httpuv.WebSocket.Handshake.Accepted.{accept-handshake, handshake-decoded}

-- A digest of two bytes.
abbrev digest : Bytes → Bytes
digest s = 7 ∷ 8 ∷ []

abbrev old_request : RequestHeaders
old_request =
    (bytes "Host", bytes "a")
    ∷ (bytes "Upgrade", bytes "WebSocket")
    ∷ (bytes "Sec-WebSocket-Key1", bytes " 4 2x ")
    ∷ (bytes "Sec-WebSocket-Key2", bytes "1 2 3")
    ∷ []

abbrev eight_bytes : Bytes
eight_bytes = bytes "abcdefgh"

old_request-accepted : accept ws_open old_request (length eight_bytes) ≡ some hixie76_parser
unfolding accept can_handle_ietf can_handle_hybi03 key_of calculate_key_value trim find same_ci
old_request-accepted = refl

accept-handshake_example :
    (h : Handshake) × (handshake digest digest false hixie76_parser
        (bytes "/")
        old_request
        eight_bytes
      ≡ some h)
accept-handshake_example =
    accept-handshake digest digest false (bytes "/") old_request eight_bytes ws_open hixie76_parser
      old_request-accepted

abbrev request : RequestHeaders
request = (bytes "Upgrade", bytes "websocket") ∷ (bytes "SEC-WEBSOCKET-KEY", bytes " x= ") ∷ []

request-handled : can_handle_ietf request ≡ true
unfolding can_handle_ietf find same_ci
request-handled = refl

handshake-decoded_example :
    (h : Handshake) × (key value : Bytes) × (handshake digest digest false hybi_parser
        (bytes "/")
        request
        []
      ≡ some h)
    × (at_header (bytes "sec-websocket-key") request ≡ some key)
    × (at_header (bytes "connection") h.response_headers ≡ some (bytes "Upgrade"))
    × (at_header (bytes "upgrade") h.response_headers ≡ some (bytes "websocket"))
    × (at_header (bytes "sec-websocket-accept") h.response_headers ≡ some value)
    × (decoded value ≡ digest (trim key ++ bytes "258EAFA5-E914-47DA-95CA-C5AB0DC85B11"))
    × (h.unread ≡ [])
    × (h.response ≡ [])
handshake-decoded_example =
    handshake-decoded digest digest false (bytes "/") request [] request-handled
      (λ s. (omega arith, (omega arith, tt)))
