-- ===== src/Tests/Base64.antt =====
-- Base64 at concrete inputs.
use httpuv.Base.{◌≡◌, refl, arith, [], ◌∷◌, Bytes, bytes}
use httpuv.Base64.{
  cb64, encodeblock, b64encode, first_index, second_index, third_index, fourth_index,
}
use httpuv.Base64.Decode.{decoded, decoded-b64encode}

abbrev four_bytes : Bytes
four_bytes = 77 ∷ 97 ∷ 110 ∷ 77 ∷ []

four_bytes-encoded : b64encode four_bytes ≡ bytes "TWFuTQ=="
unfolding b64encode encodeblock first_index second_index third_index fourth_index cb64
four_bytes-encoded = refl

decoded-b64encode_example : decoded (b64encode four_bytes) ≡ four_bytes
decoded-b64encode_example =
    decoded-b64encode four_bytes (omega arith, (omega arith, (omega arith, (omega arith, tt))))
