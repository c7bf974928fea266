-- ===== src/WebSocket/HyBi03.antt =====
-- The protocol HyBi-03 (src/websockets-hybi03.cpp).
use httpuv.Base.{ℕ, ◌<◌, ◌≡◌, refl, arith, ◌==◌, if◌then◌else◌}
use httpuv.WebSocket.Proto.{
  Opcode, continuation, text, binary, close, ping, pong, reserved, WebSocketProto, IsCodec,
}

abbrev pub decode_opcode : ℕ → Opcode
decode_opcode raw_code =
    if raw_code == 0
    then continuation
    else if raw_code == 1
    then close
    else if raw_code == 2
    then ping
    else if raw_code == 3
    then pong
    else if raw_code == 4
    then text
    else if raw_code == 5
    then binary
    else reserved

abbrev pub encode_opcode : Opcode → ℕ
encode_opcode continuation = 0
encode_opcode close = 1
encode_opcode ping = 2
encode_opcode pong = 3
encode_opcode text = 4
encode_opcode binary = 5
encode_opcode reserved = 6

abbrev pub hybi03 : WebSocketProto
hybi03 = record {
  is_fin = λ first_bit. first_bit == 0;
  to_fin = λ is_fin. if is_fin then 0 else 1;
  decode_opcode = decode_opcode;
  encode_opcode = encode_opcode;
}

code_bits : (op : Opcode) → encode_opcode op < 16
code_bits op = ground arith

decode-encode : (op : Opcode) → decode_opcode (encode_opcode op) ≡ op
decode-encode op = ground arith

-- The codes fit four bits, and decoding gives back the opcode that was encoded.
pub hybi03-IsCodec : IsCodec hybi03
hybi03-IsCodec = record {
  fin_bit = omega arith;
  is_fin-to_fin = refl;
  code_bits = code_bits;
  decode-encode = decode-encode;
}
