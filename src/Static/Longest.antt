-- ===== src/Static/Longest.antt =====
-- The match of a URL is the static path with the longest path.
use httpuv.Base.{
  ℕ, zero, suc, ◌+◌, ◌≤◌, ◌<◌, ◌≡◌, refl, ap, sym, ◌∙◌, arith, true, false, ◌||◌, [], ◌∷◌, ◌++◌,
  Bytes, bytes, ◌==◌, if◌then◌else◌, length, length-append, get_or, take, drop, Option, none, some,
  Option-cases, Bool-cases, inl, inr, ◌⊎◌,
}
use httpuv.Static.Manager.{StaticPath, StaticPathManager, get}
use httpuv.Static.Match.{is_empty, contains, strip_slash, pre_slash, match_static_path}
use httpuv.Static.Slash.{IsUnslashed, strip_slash-IsUnslashed}
use httpuv.Static.Deepest.{IsDeepest, loop_hit, match_loop-Found}

-- The path of the static path that serves what lies behind a prefix and a slash.
abbrev pub mount : Bytes → Bytes
mount q = if is_empty q then bytes "/" else q

-- A result of the match of a path: nothing, if neither the path nor any of its prefixes before a
-- slash is a static path; else the path itself with nothing behind it, or the longest such prefix
-- with what follows its slash.
unfoldable pub IsMatch : StaticPathManager → Bytes → Option (StaticPath × Bytes) → Type 0
IsMatch m path none =
    (get m path ≡ none) × ((q rest : Bytes) → path ≡ q ++ b'/' ∷ rest → get m (mount q) ≡ none)
IsMatch m path (some (sp, post)) =
    ((get m path ≡ some sp) × (post ≡ []))
    ⊎ ((get m path ≡ none)
        × (q : Bytes) × (path ≡ q ++ b'/' ∷ post)
        × (get m (mount q) ≡ some sp)
        × ((r rest : Bytes)
            → path ≡ r ++ b'/' ∷ rest
            → length q < length r
            → get m (mount r) ≡ none))

get_or-split : (q rest : Bytes) → (get_or (q ++ b'/' ∷ rest) (length q) 256 == b'/') ≡ true
get_or-split [] rest = refl
get_or-split (x ∷ q) rest = get_or-split q rest

take-split : (q rest : Bytes) → take (length q) (q ++ b'/' ∷ rest) ≡ q
take-split [] rest = refl
take-split (x ∷ q) rest = ap (λ s. x ∷ s) (take-split q rest)

split_at :
    (path : Bytes) (i : ℕ)
    → (get_or path i 256 == b'/') ≡ true
    → (path ≡ take i path ++ b'/' ∷ drop (i + 1) path) × (length (take i path) ≡ i)
split_at [] i e = absurd (ground arith)
split_at (x ∷ path) zero e = let z : x ≡ b'/' = ground arith in (rw z, refl)
split_at (x ∷ path) (suc i) e =
    let (s, l) = split_at path i e in
    let z : suc i + 1 ≡ suc (i + 1) = omega arith in (rw z (ap (λ s. x ∷ s) s), ap suc l)

pre_slash-mount : (path : Bytes) (i : ℕ) → pre_slash path i ≡ mount (take i path)
unfolding pre_slash
pre_slash-mount path i = refl

module _ (m : StaticPathManager) (path : Bytes) where
  -- A slash of the path stands at the length of what is before it.
  none_behind :
      (i : ℕ)
      → ((j : ℕ)
          → i ≤ j
          → j < length path + 1
          → (get_or path j 256 == b'/') ≡ true
          → get m (pre_slash path j) ≡ none)
      → (q rest : Bytes) → path ≡ q ++ b'/' ∷ rest
      → i ≤ length q
      → get m (mount q) ≡ none
  none_behind i h q rest e le =
      let short : length q < length path + 1 =
        rw e (omega (arith, length-append q (b'/' ∷ rest))) in
      let at' : (get_or path (length q) 256 == b'/') ≡ true = rw e (get_or-split q rest) in
      let cut : take (length q) path ≡ q = rw e (take-split q rest) in
      sym (ap (λ s. get m (mount s)) cut)
      ∙ sym (ap (get m) (pre_slash-mount path (length q)))
      ∙ h (length q) le short at'

  deepest-IsMatch :
      (r : Option (StaticPath × Bytes))
      → get m path ≡ none
      → IsDeepest m path (length path + 1) r
      → IsMatch m path r
  unfolding IsMatch
  deepest-IsMatch none absent deep =
      (absent, λ q rest e. none_behind 0 (λ j _ lt slash. deep j lt slash) q rest e (omega arith))
  deepest-IsMatch (some (sp, post)) absent (i, lt, slash, found, e, later) =
      let (split, l) = split_at path i slash in
      inr (
        absent,
        take i path,
        rw e split,
        sym (ap (get m) (pre_slash-mount path i)) ∙ found,
        λ r rest s longer.
            none_behind (suc i) (λ j le j_n at'. later j (omega arith) j_n at') r rest s
              (rw l at longer),
      )

-- The match of a URL path comes to a result. An empty URL, or one with a backslash, matches
-- nothing; of any other, after one slash is taken off its end where something stands before it,
-- the longest prefix that is a static path is matched, with the part of the URL behind it.
pub match_static_path-IsMatch :
    (m : StaticPathManager) (url_path : Bytes)
    → (r : Option (StaticPath × Bytes)) × (match_static_path m url_path ≡ some r)
      × ((((is_empty url_path || contains 92 url_path) ≡ true) × (r ≡ none))
          ⊎ (((is_empty url_path || contains 92 url_path) ≡ false)
              × IsUnslashed url_path (strip_slash url_path)
              × IsMatch m (strip_slash url_path) r))
unfolding match_static_path
match_static_path-IsMatch m url_path = elim (Bool-cases (is_empty url_path)) [
  | inl empty ↦ (none, rw empty, inl (rw empty, refl))
  | inr filled ↦ elim (Bool-cases (contains 92 url_path)) [
    | inl refused ↦ (none, rw (filled, refused), inl (rw (filled, refused), refl))
    | inr clean ↦
        let path = strip_slash url_path in
        let bare : IsUnslashed url_path path = strip_slash-IsUnslashed url_path in
        let same : length path + 2 ≡ suc (length path + 1) = omega arith in
        elim (Option-cases (get m path)) [
          | inr (sp, found) ↦ (
            some (sp, []),
            rw (filled, clean, same)
                (loop_hit m path (length path + 1) (length path + 1) path [] sp found),
            inr (rw (filled, clean) refl, bare, unfold IsMatch in inl (found, refl)),
          )
          | inl absent ↦
              let (r, e, deep) =
                match_loop-Found m path (length path + 1) (length path + 1) path [] (omega arith)
                  absent in
              (
                r,
                rw (filled, clean, same) e,
                inr (rw (filled, clean) refl, bare, deepest-IsMatch m path r absent deep),
              )
        ]
  ]
]
