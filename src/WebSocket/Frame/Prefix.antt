-- ===== src/WebSocket/Frame/Prefix.antt =====
-- A header is read from its own bytes alone: bytes that follow it change nothing.
use httpuv.Base.{
  ℕ, zero, suc, ◌+◌, ◌/◌, ◌≤◌, ◌<◌, ◌≡◌, refl, true, [], ◌∷◌, ◌++◌, Bytes, length, get_or, arith,
}
use httpuv.WebSocket.Proto.{WebSocketProto}
use httpuv.WebSocket.Frame.{
  WsHyBiFrameHeader, read64_loop, read, read64, fin, opcode, masked, payload_length,
  payload_length_length, masking_key_length, header_length, masking_key, info,
}

get_or-append : (r s : Bytes) (i : ℕ) → i < length r → get_or (r ++ s) i 0 ≡ get_or r i 0
get_or-append [] s i h = absurd (omega arith)
get_or-append (x ∷ r) s zero h = refl
get_or-append (x ∷ r) s (suc i) h = get_or-append r s i (omega arith)

abbrev pub frame : WebSocketProto → Bytes → WsHyBiFrameHeader
frame proto content = record { proto = proto; content = content }

read-append :
    (proto : WebSocketProto) (d s : Bytes) (offset width : ℕ)
    → offset / 8 < length d
    → read (frame proto (d ++ s)) offset width ≡ read (frame proto d) offset width
unfolding read
read-append proto d s offset width h = rw (get_or-append d s (offset / 8) h)

read64_loop-append :
    (d s : Bytes) (n at result : ℕ)
    → at + n ≤ length d
    → read64_loop (d ++ s) n at result ≡ read64_loop d n at result
unfolding read64_loop
read64_loop-append d s zero at result h = refl
read64_loop-append d s (suc n) at result h =
    rw (get_or-append d s at (omega arith)) (read64_loop-append d s n (suc at) _ (omega arith))

read64-append :
    (proto : WebSocketProto) (d s : Bytes) (offset width : ℕ)
    → offset / 8 + width / 8 ≤ length d
    → read64 (frame proto (d ++ s)) offset width ≡ read64 (frame proto d) offset width
unfolding read64
read64-append proto d s offset width h = read64_loop-append d s (width / 8) (offset / 8) 0 h

-- The length of a header stands in its second byte.
pub header_length_of_two :
    (proto : WebSocketProto) (a b : ℕ) (r s : Bytes)
    → header_length (frame proto (a ∷ b ∷ r)) ≡ header_length (frame proto (a ∷ b ∷ s))
unfolding header_length read
header_length_of_two proto a b r s = refl

-- It is 2 to 14 bytes.
pub header_length_bounds : (f : WsHyBiFrameHeader) → (2 ≤ header_length f) × (header_length f ≤ 14)
unfolding header_length payload_length_length masking_key_length
header_length_bounds f = ground arith

pub payload_length-append :
    (proto : WebSocketProto) (d s : Bytes)
    → 2 ≤ length d
    → header_length (frame proto d) ≤ length d
    → payload_length (frame proto (d ++ s)) ≡ payload_length (frame proto d)
unfolding header_length payload_length
payload_length-append proto d s two h =
    ground (
      arith,
      read-append proto d s 9 7,
      read64-append proto d s 16 16,
      read64-append proto d s 16 64,
    )

masking_key-append :
    (proto : WebSocketProto) (d s : Bytes)
    → 2 ≤ length d
    → masked (frame proto d) ≡ true
    → header_length (frame proto d) ≤ length d
    → masking_key (frame proto (d ++ s)) ≡ masking_key (frame proto d)
unfolding header_length masking_key
masking_key-append proto d s two m h = ground (
  arith,
  read-append proto d s 9 7,
  read-append proto d s 8 1,
  read-append proto d s 16 8,
  read-append proto d s 24 8,
  read-append proto d s 32 8,
  read-append proto d s 40 8,
  read-append proto d s 48 8,
  read-append proto d s 56 8,
  read-append proto d s 80 8,
  read-append proto d s 88 8,
  read-append proto d s 96 8,
  read-append proto d s 104 8,
)

first_bytes-append :
    (proto : WebSocketProto) (d s : Bytes)
    → 2 ≤ length d
    → (fin (frame proto (d ++ s)) ≡ fin (frame proto d))
      × (opcode (frame proto (d ++ s)) ≡ opcode (frame proto d))
      × (masked (frame proto (d ++ s)) ≡ masked (frame proto d))
unfolding fin opcode masked
first_bytes-append proto d s two = (
  rw (read-append proto d s 0 1 (omega arith)),
  rw (read-append proto d s 4 4 (omega arith)),
  rw (read-append proto d s 8 1 (omega arith)),
)

-- The information in a whole header is the same when more bytes follow.
pub info-append :
    (proto : WebSocketProto) (d s : Bytes)
    → 2 ≤ length d
    → header_length (frame proto d) ≤ length d
    → info (frame proto (d ++ s)) ≡ info (frame proto d)
unfolding info
info-append proto d s two h =
    let (same_fin, same_opcode, same_masked) = first_bytes-append proto d s two in
    ground (
      arith,
      same_fin,
      same_opcode,
      same_masked,
      masking_key-append proto d s two,
      payload_length-append proto d s two h,
    )
