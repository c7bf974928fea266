-- ===== src/Application/Paths.antt =====
-- Which paths of the file system a request reaches.
use httpuv.Base.{
  ℕ, zero, suc, ◌-◌, ◌≤◌, ◌≡◌, refl, sym, ◌∙◌, arith, Bool, true, false, ◌&&◌, [], ◌∷◌, ◌++◌, Bytes,
  bytes, bytes_eq, leb, ltb, ◌==◌, length, drop, take, get_or, Bool-cases, inl, inr,
}
use httpuv.Response.{has_word, starts}
use httpuv.Static.Match.{contains, strip_slash}
use httpuv.Static.Slash.{cut_slash}
use httpuv.Application.{has_dots}

-- No segment of the path, between slashes, is "..".
unfoldable pub NoDots : Bytes → Type 0
NoDots path = has_word (bytes "/../") (b'/' ∷ (path ++ b'/' ∷ [])) ≡ false

pub has_word-behind : (word s t : Bytes) → has_word word (s ++ t) ≡ false → has_word word t ≡ false
unfolding has_word
has_word-behind word [] t e = e
has_word-behind word (c ∷ s) t e = elim (Bool-cases (starts word (c ∷ (s ++ t)))) [
  | inl here ↦ absurd (ground (arith, e, here))
  | inr not_here ↦ has_word-behind word s t (ground (arith, e, not_here))
]

has_word-cons :
    (word : Bytes) (c : ℕ) (s : Bytes)
    → starts word (c ∷ s) ≡ false
    → has_word word s ≡ false
    → has_word word (c ∷ s) ≡ false
unfolding has_word
has_word-cons word c s e f = rw (e, f)

has_word-uncons :
    (word : Bytes) (c : ℕ) (s : Bytes)
    → has_word word (c ∷ s) ≡ false
    → (starts word (c ∷ s) ≡ false) × (has_word word s ≡ false)
unfolding has_word
has_word-uncons word c s e = elim (Bool-cases (starts word (c ∷ s))) [
  | inl here ↦ absurd (ground (arith, e, here))
  | inr not_here ↦ (not_here, ground (arith, e, not_here))
]

-- The end of a path, ".." behind a slash.
ends_with_dots : Bytes → Bool
ends_with_dots s = leb 3 (length s) && bytes_eq (drop (length s - 3) s) (bytes "/..")

ends_with_dots-cons : (a : ℕ) (s : Bytes) → 3 ≤ length s → ends_with_dots (a ∷ s) ≡ ends_with_dots s
unfolding ends_with_dots
ends_with_dots-cons a s h =
    let long : leb 3 (length s) ≡ true = ground arith in
    let longer : leb 3 (suc (length s)) ≡ true = ground arith in
    let e : suc (length s) - 3 ≡ suc (length s - 3) = omega arith in rw (long, longer, e)

has_word-slash :
    (s : Bytes)
    → has_word (bytes "/../") s ≡ false
    → ends_with_dots s ≡ false
    → has_word (bytes "/../") (s ++ b'/' ∷ []) ≡ false
unfolding starts ends_with_dots bytes_eq
has_word-slash [] e f = unfold has_word in refl
has_word-slash (a ∷ []) e f = unfold has_word in ground (arith, e, f)
has_word-slash (a ∷ b ∷ []) e f = unfold has_word in ground (arith, e, f)
has_word-slash (a ∷ b ∷ c ∷ []) e f =
    let first : starts (bytes "/../") (a ∷ b ∷ c ∷ b'/' ∷ []) ≡ false = ground (arith, f) in
    let second : starts (bytes "/../") (b ∷ c ∷ b'/' ∷ []) ≡ false = ground arith in
    let third : starts (bytes "/../") (c ∷ b'/' ∷ []) ≡ false = ground arith in
    has_word-cons (bytes "/../") a (b ∷ c ∷ b'/' ∷ []) first (
      has_word-cons (bytes "/../") b (c ∷ b'/' ∷ []) second
        (has_word-cons (bytes "/../") c (b'/' ∷ []) third (unfold has_word in refl)))
has_word-slash (a ∷ b ∷ c ∷ d ∷ s) e f =
    let (head, tail) = has_word-uncons (bytes "/../") a (b ∷ c ∷ d ∷ s) e in
    has_word-cons (bytes "/../") a (b ∷ c ∷ d ∷ (s ++ b'/' ∷ [])) head (
      has_word-slash (b ∷ c ∷ d ∷ s) tail
        (sym (ends_with_dots-cons a (b ∷ c ∷ d ∷ s) (omega arith)) ∙ f))

-- The path that the URL is matched as, with a slash behind it.
pub strip_slash-dots :
    (url_path : Bytes)
    → has_dots url_path ≡ false
    → has_word (bytes "/../") (strip_slash url_path ++ b'/' ∷ []) ≡ false
unfolding has_dots strip_slash
strip_slash-dots url_path e =
    let word_free : has_word (bytes "/../") url_path ≡ false = ground (arith, e) in
    let end_free : ends_with_dots url_path ≡ false = unfold ends_with_dots in ground (arith, e) in
    elim (Bool-cases
      (ltb 1 (length url_path) && (get_or url_path (length url_path - 1) 0 == b'/'))) [
        | inl slash ↦
            rw (slash, cut_slash url_path (ground (arith, slash)) (ground (arith, slash))) word_free
        | inr bare ↦ rw bare (has_word-slash url_path word_free end_free)
      ]

pub contains-behind : (c : ℕ) (s t : Bytes) → contains c (s ++ t) ≡ false → contains c t ≡ false
unfolding contains
contains-behind c [] t e = e
contains-behind c (d ∷ s) t e = contains-behind c s t (ground (arith, e))

contains-take : (c n : ℕ) (s : Bytes) → contains c s ≡ false → contains c (take n s) ≡ false
unfolding contains
contains-take c zero [] e = refl
contains-take c zero (d ∷ s) e = refl
contains-take c (suc n) [] e = refl
contains-take c (suc n) (d ∷ s) e = ground (arith, e, contains-take c n s)

pub strip_slash-contains :
    (c : ℕ) (path : Bytes) → contains c path ≡ false → contains c (strip_slash path) ≡ false
unfolding strip_slash
strip_slash-contains c path e =
    elim (Bool-cases (ltb 1 (length path) && (get_or path (length path - 1) 0 == b'/'))) [
      | inl slash ↦ rw slash (contains-take c (length path - 1) path e)
      | inr bare ↦ rw bare e
    ]
