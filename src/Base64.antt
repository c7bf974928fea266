-- ===== src/Base64.antt =====
-- Base64 (src/base64/base64.hpp, src/base64/base64.cpp).
pub mod Decode
use Prim.Native.Nat.{bit_and, bit_or}
use httpuv.Base.{
  ℕ, suc, ◌+◌, ◌*◌, ◌/◌, ◌^◌, List, [], ◌∷◌, ◌++◌, Bytes, bytes, ltb, if◌then◌else◌, get_or,
}

-- The translation table.
unfoldable pub cb64 : Bytes
cb64 = bytes "ABCDEFGHIJKLMNOPQRSTUVWXYZabcdefghijklmnopqrstuvwxyz0123456789+/"

-- The four indices into the table, from the shifts and masks of `encodeblock`.
unfoldable pub first_index : ℕ → ℕ
first_index a = a / 2 ^ 2

unfoldable pub second_index : ℕ → ℕ → ℕ
second_index a b = bit_or (bit_and a 0x03 * 2 ^ 4) (bit_and b 0xf0 / 2 ^ 4)

unfoldable pub third_index : ℕ → ℕ → ℕ
third_index b c = bit_or (bit_and b 0x0f * 2 ^ 2) (bit_and c 0xc0 / 2 ^ 6)

unfoldable pub fourth_index : ℕ → ℕ
fourth_index c = bit_and c 0x3f

unfoldable pub encodeblock : ℕ → ℕ → ℕ → ℕ → Bytes
unfolding first_index second_index third_index fourth_index
encodeblock a b c len =
    get_or cb64 (first_index a) 0
    ∷ get_or cb64 (second_index a b) 0
    ∷ (if ltb 1 len then get_or cb64 (third_index b c) 0 else b'=')
    ∷ (if ltb 2 len then get_or cb64 (fourth_index c) 0 else b'=')
    ∷ []

-- Three bytes a round; bytes that are missing count as 0.
unfoldable pub b64encode : Bytes → Bytes
b64encode [] = []
b64encode (a ∷ []) = encodeblock a 0 0 1
b64encode (a ∷ b ∷ []) = encodeblock a b 0 2
b64encode (a ∷ b ∷ c ∷ s) = encodeblock a b c 3 ++ b64encode s
