-- ===== src/WebSocket/Parser/Header.antt =====
-- How the bytes of a header add up to a whole one.
use httpuv.Base.{
  ℕ, zero, suc, ◌+◌, ◌-◌, ◌≤◌, ◌<◌, ◌≡◌, refl, ap, Bool, true, false, [], ◌∷◌, ◌++◌, Bytes, ltb,
  leb, if◌then◌else◌, length, take, length-append, arith,
}
use httpuv.WebSocket.Proto.{WebSocketProto}
use httpuv.WebSocket.Frame.{frame_header, is_header_complete, info, header_length, payload_length}
use httpuv.WebSocket.Frame.Prefix.{
  frame, header_length_of_two, header_length_bounds, info-append, payload_length-append,
}
use httpuv.WebSocket.Parser.{min}

abbrev pub complete : WebSocketProto → Bytes → Bool
complete proto h = is_header_complete (frame_header proto h)

-- What the parser's `_header` holds after the copy of a piece.
abbrev pub accumulated : Bytes → Bytes → Bytes
accumulated h input = h ++ take (min (length input) (14 - length h)) input

take_all : (n : ℕ) (s : Bytes) → length s ≤ n → take n s ≡ s
take_all zero [] h = refl
take_all zero (x ∷ s) h = absurd (omega arith)
take_all (suc n) [] h = refl
take_all (suc n) (x ∷ s) h = ap (λ t. x ∷ t) (take_all n s (omega arith))

pub frame_header_short :
    (proto : WebSocketProto) (h : Bytes) → length h ≤ 14 → frame_header proto h ≡ frame proto h
frame_header_short proto h le = rw (take_all 14 h le)

pub complete_short :
    (proto : WebSocketProto) (h : Bytes)
    → length h ≤ 14
    → complete proto h
      ≡ (if ltb (length h) 2 then false else leb (header_length (frame proto h)) (length h))
unfolding is_header_complete
complete_short proto h le = rw (take_all 14 h le)

header_length-append :
    (proto : WebSocketProto) (h s : Bytes)
    → 2 ≤ length h
    → header_length (frame proto (h ++ s)) ≡ header_length (frame proto h)
header_length-append proto [] s two = absurd (omega arith)
header_length-append proto (a ∷ []) s two = absurd (omega arith)
header_length-append proto (a ∷ b ∷ h) s two = header_length_of_two proto a b (h ++ s) h

length-take_le : (n : ℕ) (s : Bytes) → length (take n s) ≤ n
length-take_le zero s = omega arith
length-take_le (suc n) [] = omega arith
length-take_le (suc n) (x ∷ s) = omega (arith, length-take_le n s)

length-take_full : (n : ℕ) (s : Bytes) → length (take n s) < n → length s ≡ length (take n s)
length-take_full zero s h = absurd (omega arith)
length-take_full (suc n) [] h = refl
length-take_full (suc n) (x ∷ s) h = ap suc (length-take_full n s (omega arith))

pub empty-incomplete : (proto : WebSocketProto) → complete proto [] ≡ false
unfolding is_header_complete
empty-incomplete proto = refl

-- A header that is not whole is shorter than 14 bytes.
pub incomplete-short :
    (proto : WebSocketProto) (h : Bytes) → complete proto h ≡ false → length h < 14
unfolding is_header_complete
incomplete-short proto h e =
    ground (arith, header_length_bounds (frame_header proto h), length-take_full 14 h)

pub length-accumulated : (h input : Bytes) → length h ≤ 14 → length (accumulated h input) ≤ 14
length-accumulated h input le =
    rw length-append
      (ground (arith, length-take_le (length input) input, length-take_le (14 - length h) input))

-- A header's bytes go on past the ones that were not enough.
incomplete-lt-header_length :
    (proto : WebSocketProto) (h s : Bytes)
    → complete proto h ≡ false
    → length h < header_length (frame proto (h ++ s))
incomplete-lt-header_length proto h s e = ground (
  arith,
  incomplete-short proto h e,
  complete_short proto h,
  header_length_bounds (frame proto (h ++ s)),
  header_length-append proto h s,
)

pub header_goes_on :
    (proto : WebSocketProto) (h s : Bytes)
    → complete proto h ≡ false
    → length (h ++ s) ≤ 14
    → length h < header_length (frame_header proto (h ++ s))
header_goes_on proto h s e le =
    rw (frame_header_short proto (h ++ s) le) (incomplete-lt-header_length proto h s e)

-- Once whole, a header stays so, and its length, payload length and information stay too.
module _ (proto : WebSocketProto) (h s : Bytes) (le : length (h ++ s) ≤ 14)
    (e : complete proto h ≡ true) where
  short : length h ≤ 14
  short = omega (arith, le, length-append h s)

  whole : (2 ≤ length h) × (header_length (frame proto h) ≤ length h)
  whole = ground (arith, complete_short proto h short, e)

  pub complete-append : complete proto (h ++ s) ≡ true
  complete-append =
      rw (complete_short proto (h ++ s) le, header_length-append proto h s whole.0)
        (ground (arith, whole, length-append h s))

  pub same_header_length :
      header_length (frame_header proto (h ++ s)) ≡ header_length (frame_header proto h)
  same_header_length =
      rw (frame_header_short proto (h ++ s) le, frame_header_short proto h short)
        (header_length-append proto h s whole.0)

  pub same_payload_length :
      payload_length (frame_header proto (h ++ s)) ≡ payload_length (frame_header proto h)
  same_payload_length =
      rw (frame_header_short proto (h ++ s) le, frame_header_short proto h short)
        (payload_length-append proto h s whole.0 whole.1)

  pub same_info : info (frame_header proto (h ++ s)) ≡ info (frame_header proto h)
  same_info =
      rw (frame_header_short proto (h ++ s) le, frame_header_short proto h short)
        (info-append proto h s whole.0 whole.1)

-- The byte that makes a header whole is its last.
pub last_header_byte :
    (proto : WebSocketProto) (h : Bytes) (b : ℕ)
    → complete proto h ≡ false
    → complete proto (h ++ b ∷ []) ≡ true
    → header_length (frame_header proto (h ++ b ∷ [])) ≡ length h + 1
last_header_byte proto h b e c =
    let le : length (h ++ b ∷ []) ≤ 14 =
      omega (arith, incomplete-short proto h e, length-append h (b ∷ [])) in
    rw (frame_header_short proto (h ++ b ∷ []) le) (
      ground (
        arith,
        incomplete-lt-header_length proto h (b ∷ []) e,
        complete_short proto (h ++ b ∷ []) le,
        length-append h (b ∷ []),
      ))
