-- ===== src/Uri.antt =====
-- URI encoding and decoding: `doEncodeURI`, `doDecodeURI` and their helpers (src/httpuv.cpp).
-- The loops over the iterator are recursions on the bytes that it has not reached.
pub mod Chars
pub mod Encode
pub mod Decode
use httpuv.Base.{
  ℕ, suc, ◌+◌, ◌-◌, ◌*◌, ◌/◌, ◌%◌, Bool, true, false, ◌&&◌, ◌||◌, List, [], ◌∷◌, ◌++◌, Bytes, bytes,
  ltb, leb, ◌==◌, hex_digit, if◌then◌else◌, Option, none, some,
}

-- The bytes of a URL that need no escape, as the source lists them.
unfoldable pub allowed : Bytes
allowed = bytes ";,/?:@&=+$abcdefghijklmnopqrstuvwxyzABCDEFGHIJKLMNOPQRSTUVWXYZ1234567890-_.!~*'()"

unfoldable pub is_reserved_url_char : ℕ → Bool
is_reserved_url_char c =
    c == b';'
    || c == b','
    || c == b'/'
    || c == b'?'
    || c == b':'
    || c == b'@'
    || c == b'&'
    || c == b'='
    || c == b'+'
    || c == b'$'

unfoldable pub needs_escape : ℕ → Bool → Bool
unfolding is_reserved_url_char
needs_escape c encode_reserved =
    if leb b'a' c && leb c b'z'
    then false
    else if leb b'A' c && leb c b'Z'
    then false
    else if leb b'0' c && leb c b'9'
    then false
    else if is_reserved_url_char c
    then encode_reserved
    else if c == b'-'
        || c == b'_'
        || c == b'.'
        || c == b'!'
        || c == b'~'
        || c == b'*'
        || c == 39
        || c == b'('
        || c == b')'
    then false
    else true

-- `%`, then the byte in two hexadecimal digits, filled up with zeros.
unfoldable pub escape : ℕ → Bytes
unfolding hex_digit
escape c = b'%' ∷ hex_digit (c / 16) ∷ hex_digit (c % 16) ∷ []

unfoldable pub do_encode_uri : Bytes → Bool → Bytes
do_encode_uri [] encode_reserved = []
do_encode_uri (c ∷ value) encode_reserved =
    (if needs_escape c encode_reserved then escape c else c ∷ [])
    ++ do_encode_uri value encode_reserved

-- `none` stands for the result -1.
unfoldable pub hex_to_int : ℕ → Option ℕ
hex_to_int c =
    if c == b'0'
    then some 0
    else if c == b'1'
    then some 1
    else if c == b'2'
    then some 2
    else if c == b'3'
    then some 3
    else if c == b'4'
    then some 4
    else if c == b'5'
    then some 5
    else if c == b'6'
    then some 6
    else if c == b'7'
    then some 7
    else if c == b'8'
    then some 8
    else if c == b'9'
    then some 9
    else if c == b'A' || c == b'a'
    then some 10
    else if c == b'B' || c == b'b'
    then some 11
    else if c == b'C' || c == b'c'
    then some 12
    else if c == b'D' || c == b'd'
    then some 13
    else if c == b'E' || c == b'e'
    then some 14
    else if c == b'F' || c == b'f'
    then some 15
    else none

-- What the sequence `%`, `hi`, `lo` writes; the arguments behind it are the two digits' values.
unfoldable pub unescape_with : ℕ → ℕ → Bool → Option ℕ → Option ℕ → Bytes
unescape_with hi lo component (some i_hi) (some i_lo) =
    let c = i_hi * 16 + i_lo in
    if (if component then false else is_reserved_url_char c) then b'%' ∷ hi ∷ lo ∷ [] else c ∷ []
unescape_with hi lo component _ _ = b'%' ∷ hi ∷ lo ∷ []

unfoldable pub unescape : ℕ → ℕ → Bool → Bytes
unfolding unescape_with
unescape hi lo component = unescape_with hi lo component (hex_to_int hi) (hex_to_int lo)

-- With fewer than three bytes left there is no escape sequence, and the bytes are copied.
unfoldable pub do_decode_uri : Bytes → Bool → Bytes
do_decode_uri [] component = []
do_decode_uri (c ∷ []) component = c ∷ []
do_decode_uri (c ∷ d ∷ []) component = c ∷ d ∷ []
do_decode_uri (c ∷ hi ∷ lo ∷ value) component = elim (c == b'%') [
  | true ↦ unescape hi lo component ++ do_decode_uri value component
  | false ↦ c ∷ do_decode_uri (hi ∷ lo ∷ value) component
]
