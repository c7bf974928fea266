-- ===== src/Uri/Encode.antt =====
-- What the encoders write: bytes of the list `allowed` and percent signs, at a known length.
use httpuv.Base.{
  hex_digit, ℕ, ◌+◌, ◌*◌, ◌/◌, ◌%◌, ◌<◌, ◌≡◌, refl, Bool, true, false, ◌&&◌, ◌||◌, not, [], ◌∷◌,
  Bytes, IsByte, All, All-append, ◌==◌, if◌then◌else◌, holds_below, holds_at, Bool-cases, inl, inr,
  length, arith,
}
use httpuv.Uri.{allowed, is_reserved_url_char, needs_escape, escape, do_encode_uri}

contains : Bytes → ℕ → Bool
contains [] c = false
contains (d ∷ s) c = c == d || contains s c

-- A byte that may stand in an encoded text: a percent sign, or a byte of the list `allowed` that is
-- not reserved where the reserved ones are encoded too.
pub is_url_byte : Bool → ℕ → Bool
unfolding contains is_reserved_url_char allowed
is_url_byte encode_reserved c =
    c == b'%'
    || contains allowed c && (if is_reserved_url_char c then not encode_reserved else true)

abbrev pub IsUrlByte : Bool → ℕ → Type 0
IsUrlByte encode_reserved c = is_url_byte encode_reserved c ≡ true

abbrev good_byte : Bool → ℕ → Bool
good_byte r c = if needs_escape c r then true else is_url_byte r c

bytes_table : (r : Bool) → holds_below 256 (good_byte r) ≡ true
unfolding holds_below needs_escape is_url_byte
bytes_table true = refl
bytes_table false = refl

digits_table : (r : Bool) → holds_below 16 (λ n. is_url_byte r (hex_digit n)) ≡ true
unfolding holds_below hex_digit is_url_byte
digits_table true = refl
digits_table false = refl

plain-IsUrlByte : (c : ℕ) (r : Bool) → c < 256 → needs_escape c r ≡ false → IsUrlByte r c
plain-IsUrlByte c r b h = ground (arith, holds_at 256 (good_byte r) c (bytes_table r) b)

escape-IsUrlByte : (c : ℕ) (r : Bool) → c < 256 → All (IsUrlByte r) (escape c)
unfolding escape is_url_byte
escape-IsUrlByte c r b = (
  refl,
  (
    holds_at 16 _ (c / 16) (digits_table r) (omega arith),
    (holds_at 16 _ (c % 16) (digits_table r) (omega arith), tt),
  ),
)

-- Every byte that an encoder writes for a text of bytes is a percent sign or one of the list
-- `allowed`; with `encode_reserved` it is no reserved one.
pub do_encode_uri-IsUrlByte :
    (value : Bytes) (encode_reserved : Bool)
    → All IsByte value
    → All (IsUrlByte encode_reserved) (do_encode_uri value encode_reserved)
unfolding do_encode_uri
do_encode_uri-IsUrlByte [] r b = tt
do_encode_uri-IsUrlByte (c ∷ value) r (b, bs) = elim (Bool-cases (needs_escape c r)) [
  | inl h ↦ rw h (
      All-append (IsUrlByte r) (escape c) _ (escape-IsUrlByte c r b)
        (do_encode_uri-IsUrlByte value r bs))
  | inr h ↦ rw h (plain-IsUrlByte c r b h, do_encode_uri-IsUrlByte value r bs)
]

-- How many bytes of a text an encoder escapes.
pub count_escaped : Bytes → Bool → ℕ
count_escaped [] r = 0
count_escaped (c ∷ value) r = (if needs_escape c r then 1 else 0) + count_escaped value r

-- An encoded text is longer than the text by two bytes for each escaped byte.
pub length-do_encode_uri :
    (value : Bytes) (encode_reserved : Bool)
    → length (do_encode_uri value encode_reserved)
      ≡ length value + 2 * count_escaped value encode_reserved
unfolding do_encode_uri count_escaped escape
length-do_encode_uri [] r = refl
length-do_encode_uri (c ∷ value) r = ground (arith, length-do_encode_uri value r)
