-- ===== src/WebSocket/Proto.antt =====
-- Opcodes (src/constants.h) and the protocol interface (src/websockets-base.h): a class derived
-- from WebSocketProto is a value of the record.
use httpuv.Base.{ℕ, ◌<◌, ◌≡◌, Bool, true}

pub data Opcode : Type 0 where
  continuation text binary close ping pong reserved : Opcode

pub record WebSocketProto : Type 0 where
  pub is_fin : ℕ → Bool
  pub to_fin : Bool → ℕ
  pub decode_opcode : ℕ → Opcode
  pub encode_opcode : Opcode → ℕ

-- What a protocol owes its frames: the codes fit their bits, and decoding undoes encoding.
pub record IsCodec (proto : WebSocketProto) : Type 0 where
  pub fin_bit : proto.to_fin true < 2
  pub is_fin-to_fin : proto.is_fin (proto.to_fin true) ≡ true
  pub code_bits : (op : Opcode) → proto.encode_opcode op < 16
  pub decode-encode : (op : Opcode) → proto.decode_opcode (proto.encode_opcode op) ≡ op
