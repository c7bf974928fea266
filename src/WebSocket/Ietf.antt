-- ===== src/WebSocket/Ietf.antt =====
-- The protocol of RFC 6455 (src/websockets-ietf.cpp).
use httpuv.Base.{ℕ, ◌<◌, ◌≡◌, refl, arith, ◌==◌, if◌then◌else◌, not}
use httpuv.WebSocket.Proto.{
  Opcode, continuation, text, binary, close, ping, pong, reserved, WebSocketProto, IsCodec,
}

abbrev pub decode_opcode : ℕ → Opcode
decode_opcode raw_code =
    if raw_code == 0
    then continuation
    else if raw_code == 1
    then text
    else if raw_code == 2
    then binary
    else if raw_code == 8
    then close
    else if raw_code == 9
    then ping
    else if raw_code == 0xA
    then pong
    else reserved

abbrev pub encode_opcode : Opcode → ℕ
encode_opcode continuation = 0
encode_opcode text = 1
encode_opcode binary = 2
encode_opcode close = 8
encode_opcode ping = 9
encode_opcode pong = 0xA
encode_opcode reserved = 0xF

abbrev pub ietf : WebSocketProto
ietf = record {
  is_fin = λ first_bit. not (first_bit == 0);
  to_fin = λ is_fin. if is_fin then 1 else 0;
  decode_opcode = decode_opcode;
  encode_opcode = encode_opcode;
}

code_bits : (op : Opcode) → encode_opcode op < 16
code_bits op = ground arith

decode-encode : (op : Opcode) → decode_opcode (encode_opcode op) ≡ op
decode-encode op = ground arith

-- The codes fit four bits, and decoding gives back the opcode that was encoded.
pub ietf-IsCodec : IsCodec ietf
ietf-IsCodec = record {
  fin_bit = omega arith;
  is_fin-to_fin = refl;
  code_bits = code_bits;
  decode-encode = decode-encode;
}
