-- ===== src/WebSocket/Frame/RoundTrip.antt =====
-- A header that createFrameHeader wrote on a little-endian machine is read back field by field.
use httpuv.Base.{
  ℕ, ◌+◌, ◌*◌, ◌/◌, ◌%◌, ◌^◌, ◌<◌, ◌≡◌, refl, Bool, true, [], ◌∷◌, Bytes, ◌==◌, if◌then◌else◌,
  arith,
}
use httpuv.WebSocket.Proto.{Opcode, WebSocketProto, IsCodec}
use httpuv.WebSocket.Frame.{
  swap_byte_order, le_bytes, header_length, info, masking_key, read, read64, masked, payload_length,
  opcode, fin, payload_length_length, masking_key_length, WsHyBiFrameHeader,
}
use httpuv.WebSocket.Frame.Prefix.{frame}
use httpuv.WebSocket.Frame.Bits.{read_fin, read_opcode, read_mask, read_length}

-- swapByteOrder reverses the two and the eight bytes of a length.
pub swap_two : (a b : ℕ) → swap_byte_order (a ∷ b ∷ []) ≡ b ∷ a ∷ []
unfolding swap_byte_order
swap_two a b = refl

pub swap_eight :
    (a b c d e f g h : ℕ)
    → swap_byte_order (a ∷ b ∷ c ∷ d ∷ e ∷ f ∷ g ∷ h ∷ []) ≡ h ∷ g ∷ f ∷ e ∷ d ∷ c ∷ b ∷ a ∷ []
unfolding swap_byte_order
swap_eight a b c d e f g h = refl

abbrev pub mask_bit : Bool → ℕ
mask_bit mask = if mask then 128 else 0

abbrev pub key_bytes : Bool → ℕ → Bytes
key_bytes mask key = if mask then le_bytes 4 key else []

-- The fields of a header by its first two bytes.
module _ (proto : WebSocketProto) (laws : IsCodec proto) (op : Opcode) (mask : Bool) (n : ℕ)
    (r : Bytes) (le : n < 128) where
  abbrev pub first : ℕ
  first = proto.to_fin true * 128 + proto.encode_opcode op

  abbrev f : WsHyBiFrameHeader
  f = frame proto (first ∷ (mask_bit mask + n) ∷ r)

  first_byte : first < 256
  first_byte = omega (arith, laws.fin_bit, laws.code_bits op)

  second_byte : mask_bit mask + n < 256
  second_byte = ground arith

  fin_written : fin f ≡ true
  unfolding fin
  fin_written =
      let top : first / 128 ≡ proto.to_fin true = omega (arith, laws.fin_bit, laws.code_bits op) in
      rw (read_fin proto first _ r first_byte, top) laws.is_fin-to_fin

  opcode_written : opcode f ≡ op
  unfolding opcode
  opcode_written =
      let low : first % 16 ≡ proto.encode_opcode op =
        omega (arith, laws.fin_bit, laws.code_bits op) in
      rw (read_opcode proto first _ r first_byte, low) (laws.decode-encode op)

  pub masked_written : masked f ≡ mask
  unfolding masked
  masked_written = rw (read_mask proto first _ r second_byte) (ground arith)

  pub length_written : read f 9 7 ≡ n
  length_written = rw (read_length proto first _ r second_byte) (ground arith)

  -- The whole information, once its two longer fields are known.
  pub info_written :
      (key : Bytes) (size : ℕ)
      → payload_length f ≡ size
      → (if mask then masking_key f else []) ≡ key
      → info f ≡ record {
        fin = true;
        opcode = op;
        masked = mask;
        masking_key = key;
        has_length = true;
        payload_length = size;
      }
  unfolding info
  info_written key size l k = rw (fin_written, opcode_written, masked_written, l, k)

  -- The number of bits in front of the key, less the first nine.
  pub payload_length_length_written :
      payload_length_length f ≡ (if n == 126 then 7 + 16 else if n == 127 then 7 + 64 else 7)
  unfolding payload_length_length
  payload_length_length_written = rw length_written

  pub header_length_written :
      header_length f
      ≡ (if n == 126 then 4 else if n == 127 then 10 else 2) + (if mask then 4 else 0)
  unfolding header_length masking_key_length payload_length_length
  header_length_written = rw (masked_written, length_written) (ground arith)

-- Two bytes, and eight, are read as the number that they were written for.
pub read_two :
    (proto : WebSocketProto) (a b : ℕ) (r : Bytes) (size : ℕ)
    → size < 2 ^ 16
    → read64 (frame proto (a ∷ b ∷ (size / 256 % 256) ∷ (size % 256) ∷ r)) 16 16 ≡ size
unfolding read64
read_two proto a b r size h = omega arith

pub read_eight :
    (proto : WebSocketProto) (a b : ℕ) (r : Bytes) (size : ℕ)
    → size < 2 ^ 64
    → let s1 = size / 256 in
      let s2 = s1 / 256 in
      let s3 = s2 / 256 in
      let s4 = s3 / 256 in
      let s5 = s4 / 256 in
      let s6 = s5 / 256 in
      let s7 = s6 / 256 in
      read64
        (frame proto (
          a
          ∷ b
          ∷ (s7 % 256)
          ∷ (s6 % 256)
          ∷ (s5 % 256)
          ∷ (s4 % 256)
          ∷ (s3 % 256)
          ∷ (s2 % 256)
          ∷ (s1 % 256)
          ∷ (size % 256)
          ∷ r))
        16
        64
      ≡ size
unfolding read64
read_eight proto a b r size h = omega arith
