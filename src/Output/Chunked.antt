-- ===== src/Output/Chunked.antt =====
-- The chunked coding of HTTP: a decoder of it, for what ExtendedWrite writes.
use httpuv.Base.{
  ℕ, zero, suc, ◌+◌, ◌-◌, ◌*◌, ◌/◌, ◌%◌, ◌^◌, ◌≤◌, ◌<◌, ◌≡◌, refl, ap, ◌∙◌, arith, Bool, true,
  false, [], ◌∷◌, ◌++◌, Bytes, ltb, leb, ◌==◌, if◌then◌else◌, length, take, drop, length-append,
  Option, none, some, ◌>>=◌, hex_digit, hexadecimal_loop, hexadecimal, Bool-cases, inl, inr,
  append_assoc,
}
use httpuv.Output.{prefix_of, suffix_of}

-- The value of a hexadecimal digit.
digit_value : ℕ → ℕ
digit_value c = if leb c b'9' then c - b'0' else c - b'A' + 10

-- The number that the digits before a carriage return continue, and what is left behind it.
size_line : ℕ → Bytes → Option (ℕ × Bytes)
unfolding digit_value
size_line n [] = none
size_line n (c ∷ s) = if c == 13 then some (n, s) else size_line (n * 16 + digit_value c) s

unfoldable pub line_feed : Bytes → Option Bytes
line_feed [] = none
line_feed (c ∷ s) = if c == 10 then some s else none

-- A carriage return and a line feed.
unfoldable pub line_end : Bytes → Option Bytes
unfolding line_feed
line_end [] = none
line_end (c ∷ s) = if c == 13 then line_feed s else none

-- Chunks up to the one of size 0; the fuel is the number of chunks. Nothing may follow.
pub dechunked : ℕ → Bytes → Option Bytes
unfolding size_line line_feed line_end
dechunked zero s = none
dechunked (suc fuel) s = do
  (size, s) ← size_line 0 s
  s ← line_feed s
  rest ← line_end (drop size s)
  (let later = dechunked fuel rest in
      if size == 0
      then (if length rest == 0 then some [] else none)
      else if ltb (length s) size
      then none
      else later >>= λ more. some (take size s ++ more))

hex_value :
    (v n : ℕ) (s : Bytes) → v < 16 → size_line n (hex_digit v ∷ s) ≡ size_line (n * 16 + v) s
unfolding size_line digit_value hex_digit
hex_value v n s h = ground arith

size_line-loop :
    (fuel n : ℕ) (behind : Bytes)
    → n < 16 ^ fuel
    → size_line 0 (hexadecimal_loop fuel n behind) ≡ size_line n behind
unfolding hexadecimal_loop
size_line-loop zero n behind h = let z : n ≡ 0 = omega arith in rw z
size_line-loop (suc fuel) n behind h = elim (Bool-cases (ltb n 16)) [
  | inl small ↦
      let none_before : 0 * 16 + n ≡ n = omega arith in
      rw small (hex_value n 0 behind (ground arith) ∙ rw none_before)
  | inr large ↦
      let back : n / 16 * 16 + n % 16 ≡ n = omega arith in
      rw large (
        size_line-loop fuel (n / 16) (hex_digit (n % 16) ∷ behind) (smaller fuel n h)
        ∙ (hex_value (n % 16) (n / 16) behind (omega arith) ∙ rw back))
]
  where
    smaller : (fuel n : ℕ) → n < 16 ^ suc fuel → n / 16 < 16 ^ fuel
    smaller fuel n h = omega arith

loop-append :
    (fuel n : ℕ) (behind t : Bytes)
    → hexadecimal_loop fuel n behind ++ t ≡ hexadecimal_loop fuel n (behind ++ t)
unfolding hexadecimal_loop
loop-append zero n behind t = refl
loop-append (suc fuel) n behind t = elim (Bool-cases (ltb n 16)) [
  | inl small ↦ rw small
  | inr large ↦ rw large (loop-append fuel (n / 16) (hex_digit (n % 16) ∷ behind) t)
]

size_line-hexadecimal :
    (n : ℕ) (t : Bytes) → n ≤ 65536 → size_line 0 (hexadecimal n ++ 13 ∷ t) ≡ some (n, t)
unfolding hexadecimal size_line
size_line-hexadecimal n t h =
    ap (size_line 0) (loop-append 16 n [] (13 ∷ t)) ∙ size_line-loop 16 n (13 ∷ t) (omega arith)

-- The bytes of one write of ExtendedWrite, in the order of its buffers.
abbrev pub chunk : Bool → Bytes → Bytes
chunk chunked buf = prefix_of chunked buf ++ (buf ++ suffix_of chunked buf)

drop_front : (s t : Bytes) → drop (length s) (s ++ t) ≡ t
drop_front [] t = refl
drop_front (b ∷ s) t = drop_front s t

take_front : (s t : Bytes) → take (length s) (s ++ t) ≡ s
take_front [] t = refl
take_front (b ∷ s) t = ap (λ r. b ∷ r) (take_front s t)

pub dechunked-chunk :
    (fuel : ℕ) (p rest whole : Bytes)
    → 0 < length p
    → length p ≤ 65536
    → dechunked fuel rest ≡ some whole
    → dechunked (suc fuel) (chunk true p ++ rest) ≡ some (p ++ whole)
unfolding dechunked prefix_of suffix_of
dechunked-chunk fuel p rest whole h le e =
    let some_bytes : (length p == 0) ≡ false = ground arith in
    let long : ltb (length (p ++ (13 ∷ 10 ∷ rest))) (length p) ≡ false =
      ground (arith, length-append p (13 ∷ 10 ∷ rest)) in
    rw (
      some_bytes,
      append_assoc,
      append_assoc,
      append_assoc,
      size_line-hexadecimal (length p) (10 ∷ (p ++ (13 ∷ 10 ∷ rest))) le,
      some_bytes,
      drop_front p (13 ∷ 10 ∷ rest),
      take_front p (13 ∷ 10 ∷ rest),
      long,
      e,
    )

pub dechunked-last : (n : ℕ) → dechunked (suc n) (chunk true []) ≡ some []
unfolding dechunked prefix_of suffix_of
dechunked-last n = refl
