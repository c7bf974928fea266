-- ===== src/WebSocket/Frame.antt =====
-- Frame headers: WebSocketProto::createFrameHeader (src/websockets-base.cpp) writes one, and
-- WSHyBiFrameHeader (src/websockets.cpp) reads one.
pub mod Bits
pub mod Prefix
pub mod RoundTrip
pub mod Written
pub mod Endian
pub mod Opcodes
use Prim.Native.Nat.{bit_and, bit_or}
use httpuv.Base.{
  ℕ, zero, suc, ◌+◌, ◌-◌, ◌*◌, ◌/◌, ◌%◌, ◌^◌, Bool, true, false, not, List, [], ◌∷◌, ◌++◌, Bytes,
  ltb, leb, ◌==◌, if◌then◌else◌, length, take, get_or, set,
}
use httpuv.WebSocket.Proto.{Opcode, WebSocketProto}

pub record WsFrameHeaderInfo : Type 0 where
  pub fin : Bool
  pub opcode : Opcode
  pub masked : Bool
  pub masking_key : Bytes
  pub has_length : Bool
  pub payload_length : ℕ

abbrev pub max_header_bytes : ℕ
max_header_bytes = 14

abbrev pub max_footer_bytes : ℕ
max_footer_bytes = 1

-- The lowest `n` bytes of a number, lowest first.
abbrev pub le_bytes : ℕ → ℕ → Bytes
le_bytes zero v = []
le_bytes (suc n) v = (v % 256) ∷ le_bytes n (v / 256)

-- The same, highest first.
abbrev pub be_bytes : ℕ → ℕ → Bytes
be_bytes zero v = []
be_bytes (suc n) v = be_bytes n (v / 256) ++ (v % 256) ∷ []

-- An unsigned number of `n` bytes as it lies in memory; `big_endian` is the machine's answer to
-- isBigEndian.
abbrev pub in_memory : Bool → ℕ → ℕ → Bytes
in_memory big_endian n v = if big_endian then be_bytes n v else le_bytes n v

-- The loop of swapByteOrder over the inclusive indices; the fuel bounds its rounds.
swap_loop : ℕ → ℕ → ℕ → Bytes → Bytes
swap_loop zero start end range = range
swap_loop (suc fuel) start end range =
    let tmp = get_or range start 0 in
    let rest =
      swap_loop fuel (start + 1) (end - 1) (set (set range start (get_or range end 0)) end tmp) in
    if ltb start end then rest else range

-- Each round brings the ends closer, so the length of the range is fuel enough.
unfoldable pub swap_byte_order : Bytes → Bytes
unfolding swap_loop
swap_byte_order range = swap_loop (length range) 0 (length range - 1) range

-- The first `n` bytes of the 64-bit payload size as memcpy copies them, swapped on a machine that
-- is not big-endian.
length_field : Bool → ℕ → ℕ → Bytes
unfolding swap_byte_order
length_field big_endian n payload_size =
    let copied = take n (in_memory big_endian 8 payload_size) in
    if big_endian then copied else swap_byte_order copied

-- The bytes that createFrameHeader writes; their number is `*pLen`.
unfoldable pub create_frame_header : WebSocketProto → Bool → Opcode → Bool → ℕ → ℕ → Bytes
unfolding length_field
create_frame_header proto big_endian opcode mask payload_size masking_key =
    let first = bit_or (proto.to_fin true * 2 ^ 7) (proto.encode_opcode opcode) in
    let second = if mask then 2 ^ 7 else 0 in
    let key = if mask then in_memory big_endian 4 masking_key else [] in
    if leb payload_size 125
    then first ∷ bit_or second payload_size ∷ key
    else if leb payload_size 65535
    then first ∷ bit_or second 126 ∷ length_field big_endian 2 payload_size ++ key
    else first ∷ bit_or second 127 ∷ length_field big_endian 8 payload_size ++ key

-- WSHyBiFrameHeader: its `_data` and `_pProto`.
pub record WsHyBiFrameHeader : Type 0 where
  pub proto : WebSocketProto
  pub content : Bytes

-- The constructor copies at most 14 bytes.
abbrev pub frame_header : WebSocketProto → Bytes → WsHyBiFrameHeader
frame_header proto buffer = record { proto = proto; content = take max_header_bytes buffer }

-- Some bits of one byte. An offset behind the content, which the source asserts away, reads 0.
unfoldable pub read : WsHyBiFrameHeader → ℕ → ℕ → ℕ
read f bit_offset bit_width =
    let mask = 0xFF * 2 ^ (8 - bit_width) % 2 ^ 8 / 2 ^ (bit_offset % 8) in
    bit_and (get_or f.content (bit_offset / 8) 0) mask / 2 ^ (8 - bit_width - bit_offset % 8)

-- `byte_width` rounds of the loop from byte `at` on.
read64_loop : Bytes → ℕ → ℕ → ℕ → ℕ
read64_loop content zero at result = result
read64_loop content (suc byte_width) at result =
    read64_loop content byte_width (suc at)
      ((result * 2 ^ 8 % 2 ^ 64 + get_or content at 0) % 2 ^ 64)

unfoldable pub read64 : WsHyBiFrameHeader → ℕ → ℕ → ℕ
unfolding read64_loop
read64 f bit_offset bit_width = read64_loop f.content (bit_width / 8) (bit_offset / 8) 0

unfoldable pub fin : WsHyBiFrameHeader → Bool
fin f = f.proto.is_fin (read f 0 1)

unfoldable pub opcode : WsHyBiFrameHeader → Opcode
opcode f = f.proto.decode_opcode (read f 4 4)

unfoldable pub masked : WsHyBiFrameHeader → Bool
masked f = not (read f 8 1 == 0)

unfoldable pub payload_length : WsHyBiFrameHeader → ℕ
payload_length f =
    let pl = read f 9 7 in
    if pl == 126 then read64 f 16 16 else if pl == 127 then read64 f 16 64 else pl

unfoldable pub payload_length_length : WsHyBiFrameHeader → ℕ
payload_length_length f =
    let pll = read f 9 7 in if pll == 126 then 7 + 16 else if pll == 127 then 7 + 64 else 7

unfoldable pub masking_key_length : WsHyBiFrameHeader → ℕ
unfolding masked
masking_key_length f = if masked f then 32 else 0

unfoldable pub header_length : WsHyBiFrameHeader → ℕ
unfolding payload_length_length masking_key_length
header_length f = (9 + payload_length_length f + masking_key_length f) / 8

unfoldable pub masking_key : WsHyBiFrameHeader → Bytes
masking_key f =
    let start = 9 + payload_length_length f in
    if masked f
    then read f start 8 ∷ read f (start + 8) 8 ∷ read f (start + 16) 8 ∷ read f (start + 24) 8 ∷ []
    else 0 ∷ 0 ∷ 0 ∷ 0 ∷ []

unfoldable pub is_header_complete : WsHyBiFrameHeader → Bool
is_header_complete f =
    if ltb (length f.content) 2 then false else leb (header_length f) (length f.content)

-- Without a mask the key stays the empty vector.
unfoldable pub info : WsHyBiFrameHeader → WsFrameHeaderInfo
info f = record {
  fin = fin f;
  opcode = opcode f;
  masked = masked f;
  masking_key = if masked f then masking_key f else [];
  has_length = true;
  payload_length = payload_length f;
}
