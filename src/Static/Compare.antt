-- ===== src/Static/Compare.antt =====
-- `constant_time_compare` and the validation of request headers.
use Prim.Native.Nat.{bit_or, bit_xor}
use httpuv.Base.{
  ℕ, ◌<◌, ◌≡◌, refl, arith, Bool, true, false, ◌&&◌, not, [], ◌∷◌, Bytes, bytes, bytes_eq,
  bytes_eq_iff, ltb, ◌==◌, if◌then◌else◌, length, Option, none, some, find, inl, inr, ◌↔◌,
  Bool-cases, Option-cases, All, IsByte, holds_below, holds_at,
}
use httpuv.Headers.{RequestHeaders, same_ci}
use httpuv.Static.Options.{
  StaticPathOptions, compare_loop, constant_time_compare, validate_request_headers,
}

-- Whether both are zero, or one is not.
both_zero : ℕ → ℕ → Bool
both_zero x y =
    ltb (bit_or x y) 256
    && (if bit_or x y == 0 then x == 0 && y == 0 else if x == 0 then not (y == 0) else true)

or_row : ℕ → Bool
or_row x = holds_below 256 (both_zero x)

or_table : holds_below 256 or_row ≡ true
unfolding holds_below or_row both_zero
or_table = refl

bit_or_zero :
    (x y : ℕ) → x < 256 → y < 256 → (bit_or x y < 256) × ((bit_or x y == 0) ≡ (x == 0 && y == 0))
unfolding or_row both_zero
bit_or_zero x y hx hy =
    ground (arith, holds_at 256 (both_zero x) y (holds_at 256 or_row x or_table hx) hy)

same_byte : ℕ → ℕ → Bool
same_byte x y = ltb (bit_xor x y) 256 && (if bit_xor x y == 0 then x == y else not (x == y))

xor_row : ℕ → Bool
xor_row x = holds_below 256 (same_byte x)

xor_table : holds_below 256 xor_row ≡ true
unfolding holds_below xor_row same_byte
xor_table = refl

bit_xor_same : (x y : ℕ) → x < 256 → y < 256 → (bit_xor x y < 256) × ((bit_xor x y == 0) ≡ (x == y))
unfolding xor_row same_byte
bit_xor_same x y hx hy =
    ground (arith, holds_at 256 (same_byte x) y (holds_at 256 xor_row x xor_table hx) hy)

compare_loop-bytes_eq :
    (a b : Bytes) (result : ℕ)
    → length a ≡ length b
    → All IsByte a
    → All IsByte b
    → result < 256
    → (compare_loop a b result == 0) ≡ (result == 0 && bytes_eq a b)
unfolding compare_loop bytes_eq
compare_loop-bytes_eq [] [] result e ha hb h = ground arith
compare_loop-bytes_eq [] (y ∷ b) result e ha hb h = absurd (omega (arith, e))
compare_loop-bytes_eq (x ∷ a) [] result e ha hb h = absurd (omega (arith, e))
compare_loop-bytes_eq (x ∷ a) (y ∷ b) result e (hx, ha) (hy, hb) h =
    let (lt, same) = bit_xor_same x y hx hy in
    let (lt', zero') = bit_or_zero result (bit_xor x y) h lt in
    rw
      (
        compare_loop-bytes_eq a b (bit_or result (bit_xor x y)) (omega (arith, e)) ha hb lt',
        zero',
        same,
      )
      (ground arith)

bytes_eq-length : (a b : Bytes) → (length a == length b) ≡ false → bytes_eq a b ≡ false
unfolding bytes_eq
bytes_eq-length [] [] e = ground arith
bytes_eq-length [] (y ∷ b) e = refl
bytes_eq-length (x ∷ a) [] e = refl
bytes_eq-length (x ∷ a) (y ∷ b) e = ground (arith, bytes_eq-length a b)

-- On texts of bytes, the comparison in constant time answers as the equality of the texts does.
pub constant_time_compare-bytes_eq :
    (a b : Bytes) → All IsByte a → All IsByte b → constant_time_compare a b ≡ bytes_eq a b
unfolding constant_time_compare
constant_time_compare-bytes_eq a b ha hb =
    ground (arith, bytes_eq-length a b, compare_loop-bytes_eq a b 0)

find-IsByte :
    (name : Bytes) (headers : RequestHeaders) (value : Bytes)
    → All (λ h. All IsByte h.1) headers
    → find same_ci name headers ≡ some value
    → All IsByte value
unfolding find
find-IsByte name [] value h e = absurd (ground arith)
find-IsByte name ((l, v) ∷ headers) value (h, hs) e = elim (Bool-cases (same_ci name l)) [
  | inl here ↦ let same : v ≡ value = ground arith in rw (← same) h
  | inr later ↦ find-IsByte name headers value hs (ground arith)
]

abbrev answer : Option Bytes → Bytes → Bool
answer none secret = false
answer (some value) secret = constant_time_compare value secret

validate_at :
    (o : StaticPathOptions) (headers : RequestHeaders) (name secret : Bytes)
    → o.validation ≡ some (bytes "==" ∷ name ∷ secret ∷ [])
    → validate_request_headers o headers ≡ inr (answer (find same_ci name headers) secret)
unfolding validate_request_headers bytes_eq
validate_at o headers name secret e = elim (Option-cases (find same_ci name headers)) [
  | inl absent ↦ rw (e, validate_request_headers, absent)
  | inr (value, found) ↦ rw (e, validate_request_headers, found)
]

answer_iff :
    (found : Option Bytes) (secret : Bytes)
    → All IsByte secret
    → ((value : Bytes) → found ≡ some value → All IsByte value)
    → (answer found secret ≡ true) ↔ (found ≡ some secret)
answer_iff none secret hs hv = ground arith
answer_iff (some value) secret hs hv = ground (
  arith,
  constant_time_compare-bytes_eq value secret (hv value refl) hs,
  bytes_eq_iff value secret,
)

-- With a pattern that asks for a header to equal a secret, a request is let through exactly when
-- it has the header, under any spelling of its name, with that secret as its value.
pub validate_request_headers-find :
    (o : StaticPathOptions) (headers : RequestHeaders) (name secret : Bytes)
    → o.validation ≡ some (bytes "==" ∷ name ∷ secret ∷ [])
    → All IsByte secret
    → All (λ h. All IsByte h.1) headers
    → (validate_request_headers o headers ≡ inr true) ↔ (find same_ci name headers ≡ some secret)
validate_request_headers-find o headers name secret e hs hh =
    let iff =
      answer_iff (find same_ci name headers) secret hs (λ v f. find-IsByte name headers v hh f) in
    rw (validate_at o headers name secret e) (ground (arith, iff))
