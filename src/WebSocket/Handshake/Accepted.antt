-- ===== src/WebSocket/Handshake/Accepted.antt =====
-- What `accept` promises to `handshake`.
use httpuv.Base.{
  [], ◌≡◌, refl, arith, Bool, true, false, ◌++◌, Bytes, bytes, ltb, length, Option, none, some, All,
  IsByte, find,
}
use httpuv.Headers.{RequestHeaders, at_header, trim, same_ci}
use httpuv.Base64.Decode.{decoded, decoded-b64encode}
use httpuv.WebSocket.Connection.{WsConnState}
use httpuv.WebSocket.Handshake.{
  is_some, can_handle_ietf, Handshake, handshake_ietf, key_of, can_handle_hybi03, handshake_hybi03,
  Parser, hybi_parser, hixie76_parser, accept, handshake,
}

some_of {ℓ} : {A : Type ℓ} (o : Option A) → is_some o ≡ true → (a : A) × (o ≡ some a)
some_of none e = absurd (ground arith)
some_of (some a) e = (a, refl)

module _ (sha1 md5 : Bytes → Bytes) (big_endian : Bool) (url : Bytes) (headers : RequestHeaders)
    (input : Bytes) where
  can_handle_ietf-handshake :
      can_handle_ietf headers ≡ true
      → (h : Handshake) × (handshake_ietf sha1 headers input ≡ some h)
  unfolding can_handle_ietf handshake_ietf
  can_handle_ietf-handshake e =
      let (key, found) =
        some_of (at_header (bytes "sec-websocket-key") headers) (ground (arith, e)) in
      rw (found, handshake_ietf) (_, refl)

  can_handle_hybi03-handshake :
      can_handle_hybi03 headers (length input) ≡ true
      → (h : Handshake) × (handshake_hybi03 md5 big_endian url headers input ≡ some h)
  unfolding can_handle_hybi03 handshake_hybi03
  can_handle_hybi03-handshake e =
      let long : ltb (length input) 8 ≡ false = ground (arith, e) in
      let (key1, found1) =
        some_of (key_of (bytes "sec-websocket-key1") headers) (ground (arith, e)) in
      let (key2, found2) =
        some_of (key_of (bytes "sec-websocket-key2") headers) (ground (arith, e)) in
      let (host, found) = some_of (at_header (bytes "host") headers) (ground (arith, e)) in
      rw (handshake_hybi03, long, found1, found2, found) (_, refl)

  -- When `accept` has chosen a parser for a request and the data behind it, the handshake of that
  -- parser succeeds on them: no header that it asks for is missing, no key is without a value, and
  -- the data is long enough. It holds for all digests.
  pub accept-handshake :
      (state : WsConnState) (parser : Parser)
      → accept state headers (length input) ≡ some parser
      → (h : Handshake) × (handshake sha1 md5 big_endian parser url headers input ≡ some h)
  unfolding accept handshake
  accept-handshake state hybi_parser e = can_handle_ietf-handshake (ground (arith, e))
  accept-handshake state hixie76_parser e = can_handle_hybi03-handshake (ground (arith, e))

  -- For a request that `canHandle` of the IETF protocol takes, and a digest made of bytes: there is a
  -- Sec-WebSocket-Key, and the handshake answers with "Connection: Upgrade", "Upgrade: websocket"
  -- and a Sec-WebSocket-Accept, which decodes as base64 (RFC 4648) to the digest of the trimmed key
  -- with the GUID of RFC 6455 behind it; it uses up none of the data and writes no body.
  pub handshake-decoded :
      can_handle_ietf headers ≡ true
      → ((s : Bytes) → All IsByte (sha1 s))
      → (h : Handshake) × (key value : Bytes) × (handshake sha1 md5 big_endian hybi_parser url
            headers input
          ≡ some h)
        × (at_header (bytes "sec-websocket-key") headers ≡ some key)
        × (at_header (bytes "connection") h.response_headers ≡ some (bytes "Upgrade"))
        × (at_header (bytes "upgrade") h.response_headers ≡ some (bytes "websocket"))
        × (at_header (bytes "sec-websocket-accept") h.response_headers ≡ some value)
        × (decoded value ≡ sha1 (trim key ++ bytes "258EAFA5-E914-47DA-95CA-C5AB0DC85B11"))
        × (h.unread ≡ input)
        × (h.response ≡ [])
  unfolding handshake handshake_ietf can_handle_ietf find same_ci
  handshake-decoded e digest =
      let (key, found) =
        some_of (at_header (bytes "sec-websocket-key") headers) (ground (arith, e)) in
      rw (handshake_ietf, found)
        (_, key, _, refl, refl, refl, refl, refl, decoded-b64encode _ (digest _), refl, refl)
