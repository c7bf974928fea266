-- ===== src/WebSocket/Frame/Opcodes.antt =====
-- The opcode of a written header, on every machine.
use Prim.Native.Nat.{bit_or}
use httpuv.Base.{ℕ, ◌+◌, ◌*◌, ◌%◌, ◌≡◌, Bool, true, ◌∷◌, Bytes, drop, arith}
use httpuv.WebSocket.Proto.{Opcode, WebSocketProto, IsCodec}
use httpuv.WebSocket.Frame.{create_frame_header, opcode}
use httpuv.WebSocket.Frame.Prefix.{frame}
use httpuv.WebSocket.Frame.Bits.{bit_or_first, read_opcode_first}

starts_with :
    (proto : WebSocketProto) (big_endian : Bool) (op : Opcode) (mask : Bool) (size key : ℕ)
    → (r : Bytes) × (create_frame_header proto big_endian op mask size key
        ≡ bit_or (proto.to_fin true * 128) (proto.encode_opcode op) ∷ r)
unfolding create_frame_header
starts_with proto big_endian op mask size key =
    (drop 1 (create_frame_header proto big_endian op mask size key), ground arith)

opcode_first :
    (proto : WebSocketProto) (op : Opcode) (r : Bytes)
    → IsCodec proto
    → opcode (frame proto (bit_or (proto.to_fin true * 128) (proto.encode_opcode op) ∷ r)) ≡ op
unfolding opcode
opcode_first proto op r laws =
    let a = proto.to_fin true * 128 + proto.encode_opcode op in
    let low : a % 16 ≡ proto.encode_opcode op = omega (arith, laws.fin_bit, laws.code_bits op) in
    rw
      (
        bit_or_first (proto.to_fin true) (proto.encode_opcode op) laws.fin_bit (laws.code_bits op),
        read_opcode_first proto a r (omega (arith, laws.fin_bit, laws.code_bits op)),
        low,
      )
      (laws.decode-encode op)

pub opcode-create_frame_header :
    (proto : WebSocketProto) (big_endian : Bool) (op : Opcode) (mask : Bool) (size key : ℕ)
    → IsCodec proto
    → opcode (frame proto (create_frame_header proto big_endian op mask size key)) ≡ op
opcode-create_frame_header proto big_endian op mask size key laws =
    let (r, e) = starts_with proto big_endian op mask size key in
    rw e (opcode_first proto op r laws)
