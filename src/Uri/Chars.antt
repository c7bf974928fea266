-- ===== src/Uri/Chars.antt =====
-- Single bytes: the classes of URL characters, and the digits of an escape.
use httpuv.Base.{
  hex_digit, ℕ, ◌<◌, ◌≡◌, refl, Bool, true, false, ◌==◌, some, none, Option, holds_below, holds_at,
  arith,
}
use httpuv.Uri.{is_reserved_url_char, needs_escape, hex_to_int}

some_eq : Option ℕ → ℕ → Bool
some_eq none n = false
some_eq (some m) n = m == n

some_eq→eq : (o : Option ℕ) (n : ℕ) → some_eq o n ≡ true → o ≡ some n
unfolding some_eq
some_eq→eq o n h = ground arith

digits_table : holds_below 16 (λ n. some_eq (hex_to_int (hex_digit n)) n) ≡ true
unfolding holds_below hex_to_int hex_digit some_eq
digits_table = refl

-- The digit that is printed is read back.
pub hex_to_int-hex_digit : (n : ℕ) → n < 16 → hex_to_int (hex_digit n) ≡ some n
hex_to_int-hex_digit n h = some_eq→eq _ n (holds_at 16 _ n digits_table h)

percent_escaped : (r : Bool) → needs_escape b'%' r ≡ true
unfolding needs_escape
percent_escaped r = refl

-- A byte that is copied is no percent sign.
pub plain-ne-percent : (c : ℕ) (r : Bool) → needs_escape c r ≡ false → (c == b'%') ≡ false
plain-ne-percent c r h = ground (arith, percent_escaped r)

-- Only `encodeURIComponent` escapes a reserved character.
pub escaped-not_reserved : (c : ℕ) → needs_escape c false ≡ true → is_reserved_url_char c ≡ false
unfolding needs_escape
escaped-not_reserved c h = ground arith

reserved_no_digit : (c : ℕ) → is_reserved_url_char c ≡ true → hex_to_int c ≡ none
unfolding is_reserved_url_char hex_to_int
reserved_no_digit c h = ground arith

-- A hexadecimal digit is no reserved character.
pub digit-not_reserved : (c : ℕ) {n : ℕ} → hex_to_int c ≡ some n → is_reserved_url_char c ≡ false
digit-not_reserved c e = ground (arith, reserved_no_digit c)
