-- ===== src/Base/Text.antt =====
-- Texts as lists of bytes, their tests, and the check of a statement on every byte.
use Prim.Native.Nat.{ℕ, zero, suc, ◌+◌, ◌-◌, ◌/◌, ◌%◌, ◌<◌}
use Prim.Native.Char.{code}
use Prim.Native.String.{String}
use mathlib.Core.Path.{◌≡◌}
use mathlib.Core.Logic.{◌↔◌}
use mathlib.Core.Bool.{Bool, true, false, ◌&&◌}
use mathlib.Core.List.{List, [], ◌∷◌}
use native.Mathlib.Omega.{arith}
use httpuv.Base.Lists.{length}
use httpuv.Base.Tests.{ltb, ◌==◌, ==_iff, if◌then◌else◌}

-- A `std::string` or a `char` array: its bytes. A `char` is taken as an unsigned byte.
abbrev pub Bytes : Type 0
Bytes = List ℕ

abbrev pub IsByte : ℕ → Type 0
IsByte b = b < 256

-- The bytes of an ASCII literal.
abbrev pub bytes : String → Bytes
bytes String.[] = []
bytes (String.◌∷◌ c s) = code c ∷ bytes s

-- `==` of two `std::string`s.
unfoldable pub bytes_eq : Bytes → Bytes → Bool
bytes_eq [] [] = true
bytes_eq [] (_ ∷ _) = false
bytes_eq (_ ∷ _) [] = false
bytes_eq (a ∷ as') (b ∷ bs) = a == b && bytes_eq as' bs

pub bytes_eq_iff : (s t : Bytes) → (bytes_eq s t ≡ true) ↔ (s ≡ t)
unfolding bytes_eq
bytes_eq_iff [] [] = ground arith
bytes_eq_iff [] (b ∷ t) = ground arith
bytes_eq_iff (a ∷ s) [] = ground arith
bytes_eq_iff (a ∷ s) (b ∷ t) = ground (arith, ==_iff a b, bytes_eq_iff s t)

-- Does a test succeed on every number below a bound? By evaluation.
unfoldable pub holds_below : ℕ → (ℕ → Bool) → Bool
holds_below zero test = true
holds_below (suc bound) test = if test bound then holds_below bound test else false

pub holds_at :
    (bound : ℕ) (test : ℕ → Bool) (k : ℕ)
    → holds_below bound test ≡ true
    → k < bound
    → test k ≡ true
unfolding holds_below
holds_at zero test k all small = absurd (omega arith)
holds_at (suc bound) test k all small = ground (arith, holds_at bound test k)

abbrev digit : ℕ → ℕ
digit n = b'0' + n % 10

unfoldable pub decimal_loop : ℕ → ℕ → Bytes → Bytes
decimal_loop zero n behind = behind
decimal_loop (suc fuel) n behind =
    let rest = decimal_loop fuel (n / 10) (digit n ∷ behind) in
    if ltb n 10 then digit n ∷ behind else rest

-- A number as `operator<<` and `%d` print it. A number of 64 bits has 20 digits at most.
unfoldable pub decimal : ℕ → Bytes
unfolding decimal_loop
decimal n = decimal_loop 20 n []

zeros : ℕ → Bytes → Bytes
zeros zero s = s
zeros (suc n) s = b'0' ∷ zeros n s

-- `%0wd` for a number that is not negative.
unfoldable pub padded : ℕ → ℕ → Bytes
unfolding zeros decimal
padded width n = zeros (width - length (decimal n)) (decimal n)

pub padded-two : (n : ℕ) → n < 100 → padded 2 n ≡ (b'0' + n / 10) ∷ (b'0' + n % 10) ∷ []
unfolding padded
padded-two n h = ground arith

pub padded-four :
    (n : ℕ)
    → n < 10000
    → padded 4 n
      ≡ (b'0' + n / 1000) ∷ (b'0' + n / 100 % 10) ∷ (b'0' + n / 10 % 10) ∷ (b'0' + n % 10) ∷ []
unfolding padded
padded-four n h = ground arith

-- A digit as `std::hex << std::uppercase` prints it.
unfoldable pub hex_digit : ℕ → ℕ
hex_digit n = if ltb n 10 then b'0' + n else b'A' + (n - 10)

unfoldable pub hexadecimal_loop : ℕ → ℕ → Bytes → Bytes
hexadecimal_loop zero n behind = behind
hexadecimal_loop (suc fuel) n behind =
    let rest = hexadecimal_loop fuel (n / 16) (hex_digit (n % 16) ∷ behind) in
    if ltb n 16 then hex_digit n ∷ behind else rest

-- A number of 64 bits has 16 digits at most.
unfoldable pub hexadecimal : ℕ → Bytes
unfolding hexadecimal_loop
hexadecimal n = hexadecimal_loop 16 n []
