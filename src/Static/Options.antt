-- ===== src/Static/Options.antt =====
-- StaticPathOptions (src/staticpath.cpp) and `constant_time_compare` (src/utils.h). An `optional`
-- is an Option. The constructors from R lists and asRObject only convert.
use Prim.Native.Nat.{bit_or, bit_xor}
use httpuv.Base.{
  ℕ, Bool, true, false, not, List, [], ◌∷◌, Bytes, bytes, bytes_eq, ◌==◌, if◌then◌else◌, length,
  get_or, Option, none, some, find, ◌⊎◌, inl, inr,
}
use httpuv.Headers.{ResponseHeaders, RequestHeaders, same_ci}

pub record StaticPathOptions : Type 0 where
  pub indexhtml : Option Bool
  pub fallthrough : Option Bool
  pub html_charset : Option Bytes
  pub headers : Option ResponseHeaders
  pub validation : Option (List Bytes)
  pub exclude : Option Bool

-- `if (new_sp.x == nullopt) new_sp.x = b.x`.
abbrev pub or_else {ℓ} : {A : Type ℓ} → Option A → Option A → Option A
or_else none b = b
or_else (some a) b = some a

unfoldable pub merge : StaticPathOptions → StaticPathOptions → StaticPathOptions
merge a b = record {
  indexhtml = or_else a.indexhtml b.indexhtml;
  fallthrough = or_else a.fallthrough b.fallthrough;
  html_charset = or_else a.html_charset b.html_charset;
  headers = or_else a.headers b.headers;
  validation = or_else a.validation b.validation;
  exclude = or_else a.exclude b.exclude;
}

-- The R list is given by its entries: `none` for one that is not named, or NULL.
unfoldable pub set_options : StaticPathOptions → StaticPathOptions → StaticPathOptions
set_options self options = record {
  indexhtml = elim options.indexhtml [ some v ↦ some v | none ↦ self.indexhtml ];
  fallthrough = elim options.fallthrough [ some v ↦ some v | none ↦ self.fallthrough ];
  html_charset = elim options.html_charset [ some v ↦ some v | none ↦ self.html_charset ];
  headers = elim options.headers [ some v ↦ some v | none ↦ self.headers ];
  validation = elim options.validation [ some v ↦ some v | none ↦ self.validation ];
  exclude = elim options.exclude [ some v ↦ some v | none ↦ self.exclude ];
}

-- The loop from index `i` on: `result` gathers the differences of the bytes.
unfoldable pub compare_loop : Bytes → Bytes → ℕ → ℕ
compare_loop [] b result = result
compare_loop (x ∷ a) [] result = compare_loop a [] (bit_or result (bit_xor x 0))
compare_loop (x ∷ a) (y ∷ b) result = compare_loop a b (bit_or result (bit_xor x y))

unfoldable pub constant_time_compare : Bytes → Bytes → Bool
unfolding compare_loop
constant_time_compare a b = if not (length a == length b) then false else compare_loop a b 0 == 0

pub data ValidationError : Type 0 where
  pattern_not_set only_equality : ValidationError

-- `pattern[1]` and `pattern[2]` of a shorter pattern, which the source does not test for, are [].
unfoldable pub validate_request_headers :
    StaticPathOptions → RequestHeaders → ValidationError ⊎ Bool
unfolding same_ci constant_time_compare
validate_request_headers o headers = elim o.validation [
  | none ↦ inl pattern_not_set
  | some pattern' ↦
      if length pattern' == 0
      then inr true
      else if not (bytes_eq (get_or pattern' 0 []) (bytes "=="))
      then inl only_equality
      else inr (elim (find same_ci (get_or pattern' 1 []) headers) [
        | none ↦ false
        | some value ↦ constant_time_compare value (get_or pattern' 2 [])
      ])
]
