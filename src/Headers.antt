-- ===== src/Headers.antt =====
-- Headers (src/constants.h): the maps of a request, the lists of a response, and `trim`.
use httpuv.Base.{
  ℕ, ◌+◌, Bool, true, false, ◌&&◌, ◌||◌, List, [], ◌∷◌, Bytes, leb, ◌==◌, if◌then◌else◌, Option,
  find,
}

abbrev pub ResponseHeaders : Type 0
ResponseHeaders = List (Bytes × Bytes)

-- A map whose keys are compared by `strcasecmp`.
abbrev pub RequestHeaders : Type 0
RequestHeaders = List (Bytes × Bytes)

-- `tolower` in the C locale, by which `strcasecmp` compares.
abbrev pub to_lower : ℕ → ℕ
to_lower c = if leb b'A' c && leb c b'Z' then c + 32 else c

unfoldable pub same_ci : Bytes → Bytes → Bool
same_ci [] [] = true
same_ci [] (_ ∷ _) = false
same_ci (_ ∷ _) [] = false
same_ci (a ∷ as') (b ∷ bs) = to_lower a == to_lower b && same_ci as' bs

-- `headers.at(name)`, which throws on a missing name, and `headers.find(name)`.
abbrev pub at_header : Bytes → RequestHeaders → Option Bytes
at_header name headers = find same_ci name headers

is_blank : ℕ → Bool
is_blank c = c == 9 || c == b' '

skip_blanks : Bytes → Bytes
unfolding is_blank
skip_blanks [] = []
skip_blanks (c ∷ s) = if is_blank c then skip_blanks s else c ∷ s

-- Blanks are dropped while only blanks follow.
strip_blanks : Bytes → Bytes
unfolding is_blank
strip_blanks [] = []
strip_blanks (c ∷ s) =
    let rest = strip_blanks s in
    elim rest [ [] ↦ if is_blank c then [] else c ∷ [] | d ∷ more ↦ c ∷ d ∷ more ]

unfoldable pub trim : Bytes → Bytes
unfolding skip_blanks strip_blanks
trim s = strip_blanks (skip_blanks s)
