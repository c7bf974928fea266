-- ===== src/WebSocket/Connection/Payload.antt =====
-- Payload bytes: unmasking, and payloads in pieces.
use Prim.Native.Nat.{bit_xor}
use httpuv.Base.{
  ℕ, zero, suc, ◌+◌, ◌%◌, ◌<◌, ◌≡◌, refl, ap, Bool, true, [], ◌∷◌, ◌++◌, Bytes, IsByte, All, ◌==◌,
  length, get_or, arith, append_assoc, append-nil, length-append, holds_below, holds_at, ==_iff,
}
use httpuv.WebSocket.Connection.{WebSocketConnection, unmask, on_payload}

xor_row : ℕ → Bool
xor_row k = holds_below 256 (λ b. bit_xor (bit_xor b k) k == b)

xor_table : holds_below 256 xor_row ≡ true
unfolding holds_below xor_row
xor_table = refl

-- Exclusive or with the same byte twice changes nothing.
xor_twice : (b k : ℕ) → b < 256 → k < 256 → bit_xor (bit_xor b k) k ≡ b
unfolding xor_row
xor_twice b k hb hk = (==_iff _ b).0 (holds_at 256 _ b (holds_at 256 xor_row k xor_table hk) hb)

get_or-IsByte : (key : Bytes) (i : ℕ) → All IsByte key → get_or key i 0 < 256
get_or-IsByte [] i h = omega arith
get_or-IsByte (k ∷ key) zero (h, hs) = h
get_or-IsByte (k ∷ key) (suc i) (h, hs) = get_or-IsByte key i hs

-- Masking a payload twice with one key, from the same position, gives it back.
pub unmask-unmask :
    (key : Bytes) (i : ℕ) (content : Bytes)
    → All IsByte key
    → All IsByte content
    → unmask key i (unmask key i content) ≡ content
unfolding unmask
unmask-unmask key i [] hk hc = refl
unmask-unmask key i (b ∷ content) hk (h, hs) = rw (
  xor_twice b (get_or key (i % 4) 0) h (get_or-IsByte key (i % 4) hk),
  unmask-unmask key (i + 1) content hk hs,
)

unmask-append :
    (key : Bytes) (i : ℕ) (s t : Bytes)
    → unmask key i (s ++ t) ≡ unmask key i s ++ unmask key (i + length s) t
unfolding unmask
unmask-append key i [] t = let e : i + 0 ≡ i = omega arith in rw e
unmask-append key i (b ∷ s) t =
    let e : i + 1 + length s ≡ i + suc (length s) = omega arith in
    rw (unmask-append key (i + 1) s t, e)

pub length-unmask : (key : Bytes) (i : ℕ) (s : Bytes) → length (unmask key i s) ≡ length s
unfolding unmask
length-unmask key i [] = refl
length-unmask key i (b ∷ s) = ap suc (length-unmask key (i + 1) s)

-- A payload in two pieces has the effect of the payload in one.
pub on_payload-append :
    (c : WebSocketConnection) (s t : Bytes) → on_payload c (s ++ t) ≡ on_payload (on_payload c s) t
unfolding on_payload
on_payload-append c s t = ground (
  arith,
  unmask-append c.header.masking_key (length c.payload_so_far) s t,
  length-append c.payload_so_far (unmask c.header.masking_key (length c.payload_so_far) s),
  length-unmask c.header.masking_key (length c.payload_so_far) s,
  append_assoc c.payload_so_far (unmask c.header.masking_key (length c.payload_so_far) s)
      (unmask c.header.masking_key (length c.payload_so_far + length s) t),
  append_assoc c.payload_so_far s t,
)

pub on_payload_nil : (c : WebSocketConnection) → on_payload c [] ≡ c
unfolding on_payload unmask
on_payload_nil c = ground (arith, append-nil c.payload_so_far)
