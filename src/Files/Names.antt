-- ===== src/Files/Names.antt =====
-- The base of a path and the extension of a file name.
use httpuv.Base.{
  ℕ, suc, ◌+◌, ◌≡◌, refl, ap, ◌∙◌, arith, true, false, [], ◌∷◌, ◌++◌, Bytes, ◌==◌, if◌then◌else◌,
  length, drop, none, some, Bool-cases, inl, inr,
}
use httpuv.Files.{find_last, find_extension, basename}
use httpuv.Static.Match.{contains}

find_last-absent : (c : ℕ) (s : Bytes) → contains c s ≡ false → find_last c s ≡ none
unfolding find_last contains
find_last-absent c [] e = refl
find_last-absent c (d ∷ s) e = elim (Bool-cases (c == d)) [
  | inl same ↦ absurd (ground (arith, e, same))
  | inr other ↦
      let later : contains c s ≡ false = ground (arith, e, other) in
      rw (find_last-absent c s later, other)
]

find_last-append :
    (c : ℕ) (s t : Bytes) → contains c t ≡ false → find_last c (s ++ c ∷ t) ≡ some (length s)
unfolding find_last
find_last-append c [] t e =
    let same : (c == c) ≡ true = ground arith in rw (find_last-absent c t e, same)
find_last-append c (d ∷ s) t e = rw (find_last-append c s t e)

drop_behind : (s t : Bytes) (c : ℕ) → drop (length s + 1) (s ++ c ∷ t) ≡ t
drop_behind [] t c = refl
drop_behind (d ∷ s) t c =
    let e : suc (length s) + 1 ≡ suc (length s + 1) = omega arith in rw e (drop_behind s t c)

pub contains-append :
    (c : ℕ) (s t : Bytes)
    → contains c s ≡ false
    → contains c t ≡ false
    → contains c (s ++ t) ≡ false
unfolding contains
contains-append c [] t e f = f
contains-append c (d ∷ s) t e f = elim (Bool-cases (c == d)) [
  | inl same ↦ absurd (ground (arith, e, same))
  | inr other ↦
      let later : contains c s ≡ false = ground (arith, e, other) in
      rw other (contains-append c s t later f)
]

basename-append :
    (dirs name : Bytes) → contains b'/' name ≡ false → basename (dirs ++ b'/' ∷ name) ≡ name
unfolding basename
basename-append dirs name e =
    rw (find_last-append b'/' dirs name e, basename) (drop_behind dirs name b'/')

find_extension-append :
    (stem ext : Bytes)
    → contains b'.' ext ≡ false
    → find_extension (stem ++ b'.' ∷ ext) ≡ (if length stem == 0 then [] else ext)
unfolding find_extension
find_extension-append stem ext e = elim (Bool-cases (length stem == 0)) [
  | inl first ↦ rw (find_last-append b'.' stem ext e, first, find_extension)
  | inr later ↦
      rw (find_last-append b'.' stem ext e, later, find_extension) (drop_behind stem ext b'.')
]

find_extension-absent : (name : Bytes) → contains b'.' name ≡ false → find_extension name ≡ name
unfolding find_extension
find_extension-absent name e = rw (find_last-absent b'.' name e, find_extension)

-- For a path of directories, a slash and a name without slash, the extension of the base is what
-- follows the last dot of the name; where the only dot is the first byte, it is empty; and where the
-- name has no dot, it is the whole name.
pub find_extension-basename :
    (dirs stem ext : Bytes)
    → contains b'/' stem ≡ false
    → contains b'/' ext ≡ false
    → contains b'.' ext ≡ false
    → (find_extension (basename (dirs ++ b'/' ∷ (stem ++ b'.' ∷ ext)))
        ≡ (if length stem == 0 then [] else ext))
      × (find_extension (basename (dirs ++ b'/' ∷ ext)) ≡ ext)
find_extension-basename dirs stem ext e f g =
    let slash_free : contains b'/' (b'.' ∷ ext) ≡ false = unfold contains in f in
    let whole = contains-append b'/' stem (b'.' ∷ ext) e slash_free in
    (
      ap find_extension (basename-append dirs (stem ++ b'.' ∷ ext) whole)
          ∙ find_extension-append stem ext g,
      ap find_extension (basename-append dirs ext f) ∙ find_extension-absent ext g,
    )
