-- ===== src/WebSocket/Frame/Written.antt =====
-- createFrameHeader against WSHyBiFrameHeader: what is written is read.
use Prim.Native.Nat.{bit_and}
use httpuv.Base.{
  ℕ, ◌+◌, ◌*◌, ◌/◌, ◌%◌, ◌^◌, ◌≤◌, ◌<◌, ◌≡◌, refl, ap, ◌∙◌, Bool, true, false, [], ◌∷◌, ◌++◌, Bytes,
  leb, ◌==◌, if◌then◌else◌, length, arith, Bool-cases, inl, inr,
}
use httpuv.WebSocket.Proto.{Opcode, WebSocketProto, IsCodec}
use httpuv.WebSocket.Frame.{
  create_frame_header, header_length, info, masking_key, read, read64, masked, payload_length,
  payload_length_length, WsFrameHeaderInfo, WsHyBiFrameHeader,
}
use httpuv.WebSocket.Frame.Prefix.{frame}
use httpuv.WebSocket.Frame.Bits.{bit_or_first, bit_or_second, and_byte}
use httpuv.WebSocket.Frame.RoundTrip.{
  mask_bit, key_bytes, swap_two, info_written, header_length_written, masked_written,
  length_written, payload_length_length_written, read_two, read_eight,
}

-- What the reader makes of a header that the writer made.
abbrev pub written_info : Opcode → Bool → ℕ → ℕ → WsFrameHeaderInfo
written_info op mask size key = record {
  fin = true;
  opcode = op;
  masked = mask;
  masking_key = key_bytes mask key;
  has_length = true;
  payload_length = size;
}

byte_of : (x : ℕ) → bit_and (x % 256) 255 / 1 ≡ x % 256
byte_of x = and_byte (x % 256) (omega arith)

-- The key stands behind the two bytes and the length field.
key_read :
    (f : WsHyBiFrameHeader) (start : ℕ) {a b c d : ℕ}
    → masked f ≡ true
    → 9 + payload_length_length f ≡ start
    → (read f start 8 ≡ a)
      × (read f (start + 8) 8 ≡ b)
      × (read f (start + 16) 8 ≡ c)
      × (read f (start + 24) 8 ≡ d)
    → masking_key f ≡ a ∷ b ∷ c ∷ d ∷ []
unfolding masking_key
key_read f start m e (a, b, c, d) = rw (m, e, a, b, c, d)

module _ (proto : WebSocketProto) (laws : IsCodec proto) (op : Opcode) (mask : Bool)
    (size key : ℕ) where
  abbrev first_byte : ℕ
  first_byte = proto.to_fin true * 128 + proto.encode_opcode op

  abbrev Reads : Bytes → Bytes → Type 0
  Reads header rest =
      (info (frame proto (header ++ rest)) ≡ written_info op mask size key)
      × (header_length (frame proto (header ++ rest)) ≡ length header)

  abbrev header : Bytes
  header = create_frame_header proto false op mask size key

  header_small : size ≤ 125 → header ≡ first_byte ∷ (mask_bit mask + size) ∷ key_bytes mask key
  unfolding create_frame_header
  header_small h = ground (
    arith,
    bit_or_first (proto.to_fin true) (proto.encode_opcode op) laws.fin_bit (laws.code_bits op),
    bit_or_second mask size,
  )

  header_medium :
      125 < size
      → size ≤ 65535
      → header
        ≡ first_byte
          ∷ (mask_bit mask + 126)
          ∷ (size / 256 % 256)
          ∷ (size % 256)
          ∷ key_bytes mask key
  unfolding create_frame_header
  header_medium lo hi = ground (
    arith,
    bit_or_first (proto.to_fin true) (proto.encode_opcode op) laws.fin_bit (laws.code_bits op),
    bit_or_second mask 126,
    swap_two (size % 256) (size / 256 % 256),
  )

  header_large :
      65535 < size
      → let s1 = size / 256 in
        let s2 = s1 / 256 in
        let s3 = s2 / 256 in
        let s4 = s3 / 256 in
        let s5 = s4 / 256 in
        let s6 = s5 / 256 in
        let s7 = s6 / 256 in
        header
        ≡ first_byte
          ∷ (mask_bit mask + 127)
          ∷ (s7 % 256)
          ∷ (s6 % 256)
          ∷ (s5 % 256)
          ∷ (s4 % 256)
          ∷ (s3 % 256)
          ∷ (s2 % 256)
          ∷ (s1 % 256)
          ∷ (size % 256)
          ∷ key_bytes mask key
  unfolding create_frame_header
  header_large lo = ground (
    arith,
    bit_or_first (proto.to_fin true) (proto.encode_opcode op) laws.fin_bit (laws.code_bits op),
    bit_or_second mask 127,
  )

  abbrev KeyAt : ℕ → Bytes → Type 0
  KeyAt n field =
      (rest : Bytes)
      → (if mask
          then masking_key
              (frame proto (first_byte ∷ (mask_bit mask + n) ∷ field ++ key_bytes mask key ++ rest))
          else [])
        ≡ key_bytes mask key

key_small :
    (proto : WebSocketProto) (laws : IsCodec proto) (op : Opcode) (mask : Bool) (size key : ℕ)
    → size ≤ 125
    → KeyAt proto laws op mask size key size []
key_small proto laws op false size key le rest = refl
key_small proto laws op true size key le rest =
    let r = key_bytes true key ++ rest in
    let e : 9
          + payload_length_length
              (frame proto (first_byte proto laws op true size key ∷ (128 + size) ∷ r))
        ≡ 16 =
      rw (payload_length_length_written proto laws op true size r (omega arith)) (ground arith) in
    key_read _ 16 (masked_written proto laws op true size r (omega arith)) e
      (unfold read in (byte_of _, byte_of _, byte_of _, byte_of _))

key_medium :
    (proto : WebSocketProto) (laws : IsCodec proto) (op : Opcode) (mask : Bool) (size key h l : ℕ)
    → KeyAt proto laws op mask size key 126 (h ∷ l ∷ [])
key_medium proto laws op false size key h l rest = refl
key_medium proto laws op true size key h l rest =
    let r = h ∷ l ∷ key_bytes true key ++ rest in
    key_read _ 32 (masked_written proto laws op true 126 r (omega arith))
      (ap (λ t. 9 + t) (payload_length_length_written proto laws op true 126 r (omega arith)))
      (unfold read in (byte_of _, byte_of _, byte_of _, byte_of _))

key_large :
    (proto : WebSocketProto) (laws : IsCodec proto) (op : Opcode) (mask : Bool)
    (size key a b c d e f g h : ℕ)
    → KeyAt proto laws op mask size key 127 (a ∷ b ∷ c ∷ d ∷ e ∷ f ∷ g ∷ h ∷ [])
key_large proto laws op false size key a b c d e f g h rest = refl
key_large proto laws op true size key a b c d e f g h rest =
    let r = a ∷ b ∷ c ∷ d ∷ e ∷ f ∷ g ∷ h ∷ key_bytes true key ++ rest in
    key_read _ 80 (masked_written proto laws op true 127 r (omega arith))
      (ap (λ t. 9 + t) (payload_length_length_written proto laws op true 127 r (omega arith)))
      (unfold read in (byte_of _, byte_of _, byte_of _, byte_of _))

length-key_bytes : (mask : Bool) (key : ℕ) → length (key_bytes mask key) ≡ (if mask then 4 else 0)
length-key_bytes true key = refl
length-key_bytes false key = refl

length_read :
    (f : WsHyBiFrameHeader) {n : ℕ}
    → read f 9 7 ≡ n
    → payload_length f
      ≡ (if n == 126 then read64 f 16 16 else if n == 127 then read64 f 16 64 else n)
unfolding payload_length
length_read f e = rw e

module _ (proto : WebSocketProto) (laws : IsCodec proto) (op : Opcode) (mask : Bool) (size key : ℕ)
    (rest : Bytes) where
  Reads-small :
      size ≤ 125 → Reads proto laws op mask size key (header proto laws op mask size key) rest
  Reads-small le =
      let r = key_bytes mask key ++ rest in
      let pl = length_read _ (length_written proto laws op mask size r (omega arith)) in
      rw (header_small proto laws op mask size key le) (
        info_written proto laws op mask size r (omega arith) _ size (pl ∙ ground arith)
            (key_small proto laws op mask size key le rest),
        header_length_written proto laws op mask size r (omega arith)
            ∙ rw length-key_bytes (ground arith),
      )

  Reads-medium :
      125 < size
      → size ≤ 65535
      → Reads proto laws op mask size key (header proto laws op mask size key) rest
  Reads-medium lo hi =
      let r = (size / 256 % 256) ∷ (size % 256) ∷ key_bytes mask key ++ rest in
      let pl = length_read _ (length_written proto laws op mask 126 r (omega arith)) in
      rw (header_medium proto laws op mask size key lo hi) (
        info_written proto laws op mask 126 r (omega arith) _ size
            (pl ∙ read_two proto _ _ (key_bytes mask key ++ rest) size (omega arith))
            (key_medium proto laws op mask size key _ _ rest),
        header_length_written proto laws op mask 126 r (omega arith)
            ∙ rw length-key_bytes (ground arith),
      )

  Reads-large :
      65535 < size
      → size < 2 ^ 64
      → Reads proto laws op mask size key (header proto laws op mask size key) rest
  Reads-large lo hi =
      let s1 = size / 256 in
      let s2 = s1 / 256 in
      let s3 = s2 / 256 in
      let s4 = s3 / 256 in
      let s5 = s4 / 256 in
      let s6 = s5 / 256 in
      let s7 = s6 / 256 in
      let r =
        (s7 % 256)
          ∷ (s6 % 256)
          ∷ (s5 % 256)
          ∷ (s4 % 256)
          ∷ (s3 % 256)
          ∷ (s2 % 256)
          ∷ (s1 % 256)
          ∷ (size % 256)
          ∷ key_bytes mask key
        ++ rest in
      let pl = length_read _ (length_written proto laws op mask 127 r (omega arith)) in
      rw (header_large proto laws op mask size key lo) (
        info_written proto laws op mask 127 r (omega arith) _ size
            (pl ∙ read_eight proto _ _ (key_bytes mask key ++ rest) size hi)
            (key_large proto laws op mask size key _ _ _ _ _ _ _ _ rest),
        header_length_written proto laws op mask 127 r (omega arith)
            ∙ rw length-key_bytes (ground arith),
      )

-- On a little-endian machine, what createFrameHeader writes for a payload size below 2^64 is read
-- back by WSHyBiFrameHeader, whatever bytes follow: a final frame, the opcode, the mask with the
-- four bytes of its key, and the size; and the header is exactly as long as the reader says. It
-- holds for every protocol whose codes fit and decode.
pub info-create_frame_header :
    (proto : WebSocketProto) (op : Opcode) (mask : Bool) (size key : ℕ) (rest : Bytes)
    → IsCodec proto
    → size < 2 ^ 64
    → let written = create_frame_header proto false op mask size key in
      (info (frame proto (written ++ rest)) ≡ written_info op mask size key)
      × (header_length (frame proto (written ++ rest)) ≡ length written)
info-create_frame_header proto op mask size key rest laws h = elim (Bool-cases (leb size 125)) [
  | inl small ↦ Reads-small proto laws op mask size key rest (ground arith)
  | inr more ↦ elim (Bool-cases (leb size 65535)) [
    | inl medium ↦ Reads-medium proto laws op mask size key rest (ground arith) (ground arith)
    | inr large ↦ Reads-large proto laws op mask size key rest (ground arith) h
  ]
]
