-- ===== src/Static/Slash.antt =====
-- One slash at the end of a URL path.
use httpuv.Base.{
  suc, ◌-◌, ◌<◌, ◌≡◌, refl, sym, ap, arith, true, false, ◌&&◌, [], ◌∷◌, ◌++◌, Bytes, ltb, ◌==◌,
  length, length-append, get_or, take, Bool-cases, inl, inr, ◌⊎◌,
}
use httpuv.Static.Match.{strip_slash}

-- The path without one slash at its end, if something stands before that slash.
unfoldable pub IsUnslashed : Bytes → Bytes → Type 0
IsUnslashed url_path path =
    ((0 < length path) × (url_path ≡ path ++ b'/' ∷ []))
    ⊎ ((path ≡ url_path) × ((s : Bytes) → url_path ≡ s ++ b'/' ∷ [] → s ≡ []))

pub cut_slash :
    (s : Bytes)
    → 0 < length s
    → (get_or s (length s - 1) 0 == b'/') ≡ true
    → take (length s - 1) s ++ b'/' ∷ [] ≡ s
cut_slash [] h e = absurd (omega (arith, h))
cut_slash (c ∷ []) h e = let same : c ≡ b'/' = ground (arith, e) in rw same
cut_slash (c ∷ d ∷ s) h e =
    let k : suc (suc (length s)) - 1 ≡ suc (suc (length s) - 1) = omega arith in
    rw k (ap (λ t. c ∷ t) (cut_slash (d ∷ s) (omega arith) (rw k at e)))

length-cut : (s : Bytes) → 1 < length s → 0 < length (take (length s - 1) s)
length-cut [] h = absurd (omega (arith, h))
length-cut (c ∷ []) h = absurd (omega (arith, h))
length-cut (c ∷ d ∷ s) h =
    let k : suc (suc (length s)) - 1 ≡ suc (suc (length s) - 1) = omega arith in rw k (omega arith)

last_slash : (s : Bytes) → (get_or (s ++ b'/' ∷ []) (length s) 0 == b'/') ≡ true
last_slash [] = ground arith
last_slash (c ∷ s) = last_slash s

bare_end :
    (url_path s : Bytes)
    → (ltb 1 (length url_path) && (get_or url_path (length url_path - 1) 0 == b'/')) ≡ false
    → url_path ≡ s ++ b'/' ∷ []
    → s ≡ []
bare_end url_path [] bare e = refl
bare_end url_path (c ∷ s) bare e =
    let k : length url_path - 1 ≡ length (c ∷ s) =
      omega (arith, ap length e, length-append (c ∷ s) (b'/' ∷ [])) in
    let long : ltb 1 (length url_path) ≡ true =
      ground (arith, ap length e, length-append (c ∷ s) (b'/' ∷ [])) in
    let ends : (get_or url_path (length url_path - 1) 0 == b'/') ≡ true =
      rw k (rw e (last_slash (c ∷ s))) in
    absurd (ground (arith, bare, long, ends))

pub strip_slash-IsUnslashed : (url_path : Bytes) → IsUnslashed url_path (strip_slash url_path)
unfolding IsUnslashed strip_slash
strip_slash-IsUnslashed url_path =
    elim (Bool-cases
      (ltb 1 (length url_path) && (get_or url_path (length url_path - 1) 0 == b'/'))) [
        | inl slash ↦ rw slash (
            inl (
              length-cut url_path (ground (arith, slash)),
              sym (cut_slash url_path (ground (arith, slash)) (ground (arith, slash))),
            ))
        | inr bare ↦ rw bare (inr (refl, λ s e. bare_end url_path s bare e))
      ]
