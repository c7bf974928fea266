-- ===== src/Uri/Decode.antt =====
-- What decoding keeps: an encoded text, and, for `decodeURI`, the reserved characters.
use httpuv.Base.{
  hex_digit, ℕ, ◌+◌, ◌*◌, ◌/◌, ◌%◌, ◌<◌, ◌≡◌, refl, ◌⊎◌, Bool, true, false, [], ◌∷◌, ◌++◌, Bytes,
  IsByte, All, ◌==◌, if◌then◌else◌, arith,
}
use httpuv.Uri.{is_reserved_url_char, needs_escape, escape, do_encode_uri, unescape, do_decode_uri}
use httpuv.Uri.Chars.{hex_to_int-hex_digit, plain-ne-percent, escaped-not_reserved}

decode_plain :
    (c : ℕ) (s : Bytes) (component : Bool)
    → (c == b'%') ≡ false
    → do_decode_uri (c ∷ s) component ≡ c ∷ do_decode_uri s component
unfolding do_decode_uri
decode_plain c [] component h = refl
decode_plain c (d ∷ []) component h = refl
decode_plain c (d ∷ e ∷ s) component h = rw (h, do_decode_uri)

decode_percent :
    (hi lo : ℕ) (s : Bytes) (component : Bool)
    → do_decode_uri (b'%' ∷ hi ∷ lo ∷ s) component
      ≡ unescape hi lo component ++ do_decode_uri s component
unfolding do_decode_uri
decode_percent hi lo s component = refl

-- Which pairs of an encoder and a decoder belong together: `decodeURIComponent` reads both
-- encodings, `decodeURI` the one of `encodeURI`.
unescape_digits :
    (c : ℕ) (component encode_reserved : Bool)
    → c < 256
    → (component ≡ true) ⊎ (encode_reserved ≡ false)
    → needs_escape c encode_reserved ≡ true
    → unescape (hex_digit (c / 16)) (hex_digit (c % 16)) component ≡ c ∷ []
unfolding unescape
unescape_digits c component encode_reserved b k n =
    let value : c / 16 * 16 + c % 16 ≡ c = omega arith in
    rw
      (
        hex_to_int-hex_digit (c / 16) (omega arith),
        hex_to_int-hex_digit (c % 16) (omega arith),
        value,
      )
      (ground (arith, escaped-not_reserved c))

-- Decoding an escape that the encoder wrote.
decode_escape :
    (c : ℕ) (s : Bytes) (component encode_reserved : Bool)
    → c < 256
    → (component ≡ true) ⊎ (encode_reserved ≡ false)
    → needs_escape c encode_reserved ≡ true
    → do_decode_uri (escape c ++ s) component ≡ c ∷ do_decode_uri s component
unfolding escape
decode_escape c s component encode_reserved b k n =
    rw (decode_percent, unescape_digits c component encode_reserved b k n)

-- Decoding gives back the text that was encoded: `decodeURIComponent` after either encoder, and
-- `decodeURI` after `encodeURI`, on every text of bytes.
pub decode-encode :
    (value : Bytes) (component encode_reserved : Bool)
    → All IsByte value
    → (component ≡ true) ⊎ (encode_reserved ≡ false)
    → do_decode_uri (do_encode_uri value encode_reserved) component ≡ value
unfolding do_encode_uri
decode-encode [] component encode_reserved b k = unfold do_decode_uri in refl
decode-encode (c ∷ value) component encode_reserved (b, bs) k = ground (
  arith,
  decode_escape c (do_encode_uri value encode_reserved) component encode_reserved b k,
  decode_plain c (do_encode_uri value encode_reserved) component,
  plain-ne-percent c encode_reserved,
  decode-encode value component encode_reserved bs k,
)

-- The reserved bytes of a text, in order.
pub reserved : Bytes → Bytes
reserved [] = []
reserved (c ∷ s) = if is_reserved_url_char c then c ∷ reserved s else reserved s
