-- ===== src/Base64/Decode.antt =====
-- A decoder from the definition of base64 in RFC 4648, and the round trip through it.
use Prim.Native.Nat.{bit_and, bit_or}
use httpuv.Base.{
  ℕ, ◌+◌, ◌-◌, ◌&&◌, leb, ◌*◌, ◌/◌, ◌%◌, ◌<◌, ◌≡◌, refl, Bool, true, false, [], ◌∷◌, ◌++◌, Bytes,
  IsByte, All, ◌==◌, ==_iff, if◌then◌else◌, get_or, length, ◌∙◌, arith, holds_below, holds_at,
}
use httpuv.Base64.{
  cb64, first_index, second_index, third_index, fourth_index, encodeblock, b64encode,
}

-- The value of a character (RFC 4648, table 1): 26 capital letters, 26 small ones, 10 digits, `+` and
-- `/`. 64 for any other.
value : ℕ → ℕ
value c =
    if leb b'A' c && leb c b'Z'
    then c - b'A'
    else if leb b'a' c && leb c b'z'
    then 26 + (c - b'a')
    else if leb b'0' c && leb c b'9'
    then 52 + (c - b'0')
    else if c == b'+'
    then 62
    else if c == b'/'
    then 63
    else 64

-- Four characters are 24 bits: three bytes, or fewer where `=` fills up.
pub quad : ℕ → ℕ → ℕ → ℕ → Bytes
unfolding value
quad c d e f =
    let first = value c * 4 + value d / 16 in
    let second = value d % 16 * 16 + value e / 4 in
    let third = value e % 4 * 64 + value f in
    if e == b'='
    then first ∷ []
    else if f == b'='
    then first ∷ second ∷ []
    else first ∷ second ∷ third ∷ []

pub decoded : Bytes → Bytes
unfolding quad
decoded (c ∷ d ∷ e ∷ f ∷ s) = quad c d e f ++ decoded s
decoded _ = []

-- A character of the table has its index, and is not `=`.
good_index : ℕ → Bool
good_index i = if get_or cb64 i 0 == b'=' then false else value (get_or cb64 i 0) == i

index_table : holds_below 64 good_index ≡ true
unfolding holds_below good_index value cb64
index_table = refl

char-value : (i : ℕ) → i < 64 → (value (get_or cb64 i 0) ≡ i) × ((get_or cb64 i 0 == b'=') ≡ false)
unfolding good_index
char-value i h = ground (arith, holds_at 64 good_index i index_table h)

same_below : ℕ → (ℕ → ℕ) → (ℕ → ℕ) → Bool
same_below n f g = holds_below n (λ x. f x == g x)

same_at : (n : ℕ) (f g : ℕ → ℕ) (x : ℕ) → same_below n f g ≡ true → x < n → f x ≡ g x
unfolding same_below
same_at n f g x table h = (==_iff (f x) (g x)).0 (holds_at n (λ x. f x == g x) x table h)

or_sixteen : (x y : ℕ) → x < 4 → y < 16 → bit_or (x * 16) y ≡ x * 16 + y
unfolding holds_below
or_sixteen x y hx hy = (==_iff _ _).0 (
    holds_at 16 (λ y. bit_or (x * 16) y == x * 16 + y) y
      (holds_at 4 (λ x. holds_below 16 (λ y. bit_or (x * 16) y == x * 16 + y)) x refl hx) hy)

or_four : (x y : ℕ) → x < 16 → y < 4 → bit_or (x * 4) y ≡ x * 4 + y
unfolding holds_below
or_four x y hx hy = (==_iff _ _).0 (
    holds_at 4 (λ y. bit_or (x * 4) y == x * 4 + y) y
      (holds_at 16 (λ x. holds_below 4 (λ y. bit_or (x * 4) y == x * 4 + y)) x refl hx) hy)

second_index_lem : (a b : ℕ) → a < 256 → b < 256 → second_index a b ≡ a % 4 * 16 + b / 16
unfolding second_index same_below holds_below
second_index_lem a b ha hb =
    rw
      (
        same_at 256 (λ a. bit_and a 0x03) (λ a. a % 4) a refl ha,
        same_at 256 (λ b. bit_and b 0xf0 / 16) (λ b. b / 16) b refl hb,
      )
      (or_sixteen (a % 4) (b / 16) (omega arith) (omega arith))

third_index_lem : (b c : ℕ) → b < 256 → c < 256 → third_index b c ≡ b % 16 * 4 + c / 64
unfolding third_index same_below holds_below
third_index_lem b c hb hc =
    rw
      (
        same_at 256 (λ b. bit_and b 0x0f) (λ b. b % 16) b refl hb,
        same_at 256 (λ c. bit_and c 0xc0 / 64) (λ c. c / 64) c refl hc,
      )
      (or_four (b % 16) (c / 64) (omega arith) (omega arith))

fourth_index_lem : (c : ℕ) → c < 256 → fourth_index c ≡ c % 64
unfolding fourth_index same_below holds_below
fourth_index_lem c hc = same_at 256 (λ c. bit_and c 0x3f) (λ c. c % 64) c refl hc

-- What three bytes are encoded to, with the indices as numbers.
module _ (a b c : ℕ) (ha : a < 256) (hb : b < 256) (hc : c < 256) where
  abbrev first : value (get_or cb64 (first_index a) 0) ≡ a / 4
  first = unfold first_index in (char-value (a / 4) (omega arith)).0

  second : value (get_or cb64 (second_index a b) 0) ≡ a % 4 * 16 + b / 16
  second = rw (second_index_lem a b ha hb) ((char-value (a % 4 * 16 + b / 16) (omega arith)).0)

  third :
      (value (get_or cb64 (third_index b c) 0) ≡ b % 16 * 4 + c / 64)
      × ((get_or cb64 (third_index b c) 0 == b'=') ≡ false)
  third = rw (third_index_lem b c hb hc) (char-value (b % 16 * 4 + c / 64) (omega arith))

  fourth :
      (value (get_or cb64 (fourth_index c) 0) ≡ c % 64)
      × ((get_or cb64 (fourth_index c) 0 == b'=') ≡ false)
  fourth = rw (fourth_index_lem c hc) (char-value (c % 64) (omega arith))

  high : a / 4 * 4 + (a % 4 * 16 + b / 16) / 16 ≡ a
  high = omega arith

  middle : (a % 4 * 16 + b / 16) % 16 * 16 + (b % 16 * 4 + c / 64) / 4 ≡ b
  middle = omega arith

  low : (b % 16 * 4 + c / 64) % 4 * 64 + c % 64 ≡ c
  low = omega arith

  decoded-three : (s : Bytes) → decoded (encodeblock a b c 3 ++ s) ≡ a ∷ b ∷ c ∷ decoded s
  unfolding decoded encodeblock
  decoded-three s = rw (third.1, fourth.1, first, second, third.0, fourth.0, high, middle, low)

  decoded-two : decoded (encodeblock a b c 2) ≡ a ∷ b ∷ []
  unfolding decoded encodeblock
  decoded-two = rw (third.1, first, second, third.0, high, middle)

  decoded-one : decoded (encodeblock a b c 1) ≡ a ∷ []
  unfolding decoded encodeblock
  decoded-one = rw (first, second, high)

-- Decoding with the alphabet of RFC 4648 undoes the encoding of every text of bytes.
pub decoded-b64encode : (s : Bytes) → All IsByte s → decoded (b64encode s) ≡ s
unfolding b64encode
decoded-b64encode [] h = unfold decoded in refl
decoded-b64encode (a ∷ []) (ha, _) = decoded-one a 0 0 ha (omega arith) (omega arith)
decoded-b64encode (a ∷ b ∷ []) (ha, (hb, _)) = decoded-two a b 0 ha hb (omega arith)
decoded-b64encode (a ∷ b ∷ c ∷ s) (ha, (hb, (hc, hs))) =
    decoded-three a b c ha hb hc (b64encode s) ∙ rw (decoded-b64encode s hs)

-- Four characters stand for three bytes, the last of them counted whole.
pub length-b64encode : (s : Bytes) → length (b64encode s) ≡ (length s + 2) / 3 * 4
unfolding b64encode encodeblock
length-b64encode [] = omega arith
length-b64encode (a ∷ []) = omega arith
length-b64encode (a ∷ b ∷ []) = omega arith
length-b64encode (a ∷ b ∷ c ∷ s) = omega (arith, length-b64encode s)
