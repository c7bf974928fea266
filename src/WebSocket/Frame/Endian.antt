-- ===== src/WebSocket/Frame/Endian.antt =====
-- The 16-bit length field on a big-endian machine.
use httpuv.Base.{
  ℕ, ◌+◌, ◌*◌, ◌≤◌, ◌<◌, ◌≡◌, refl, Bool, true, false, [], ◌∷◌, ◌++◌, Bytes, if◌then◌else◌, arith,
}
use httpuv.WebSocket.Proto.{Opcode, WebSocketProto, IsCodec}
use httpuv.WebSocket.Frame.{create_frame_header, be_bytes, payload_length, read, read64}
use httpuv.WebSocket.Frame.Prefix.{frame}
use httpuv.WebSocket.Frame.Bits.{bit_or_first, bit_or_second}

mask_bit : Bool → ℕ
mask_bit mask = if mask then 128 else 0

-- memcpy takes the first two bytes of the 64-bit size, which are its two highest ones there.
header_medium :
    (proto : WebSocketProto) (op : Opcode) (mask : Bool) (size key : ℕ)
    → IsCodec proto
    → 125 < size
    → size ≤ 65535
    → create_frame_header proto true op mask size key
      ≡ (proto.to_fin true * 128 + proto.encode_opcode op)
        ∷ (mask_bit mask + 126)
        ∷ 0
        ∷ 0
        ∷ (if mask then be_bytes 4 key else [])
unfolding create_frame_header mask_bit
header_medium proto op mask size key laws lo hi = ground (
  arith,
  bit_or_first (proto.to_fin true) (proto.encode_opcode op) laws.fin_bit (laws.code_bits op),
  bit_or_second mask 126,
)

length_zero :
    (proto : WebSocketProto) (a : ℕ) (mask : Bool) (r : Bytes)
    → payload_length (frame proto (a ∷ (mask_bit mask + 126) ∷ 0 ∷ 0 ∷ r)) ≡ 0
unfolding payload_length mask_bit read read64
length_zero proto a true r = refl
length_zero proto a false r = refl

-- On a big-endian machine the size of a payload of 126 to 65535 bytes is lost: the header that
-- createFrameHeader writes for it is read as that of an empty payload. It holds for every protocol
-- whose codes fit and decode.
pub big_endian_length_lost :
    (proto : WebSocketProto) (op : Opcode) (mask : Bool) (size key : ℕ) (rest : Bytes)
    → IsCodec proto
    → 125 < size
    → size ≤ 65535
    → payload_length (frame proto (create_frame_header proto true op mask size key ++ rest)) ≡ 0
big_endian_length_lost proto op mask size key rest laws lo hi =
    rw (header_medium proto op mask size key laws lo hi) (length_zero proto _ mask _)
