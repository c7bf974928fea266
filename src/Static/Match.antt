-- ===== src/Static/Match.antt =====
-- StaticPathManager::matchStaticPath (src/staticpath.cpp).
use httpuv.Base.{
  ℕ, zero, suc, ◌+◌, ◌-◌, Bool, true, false, ◌&&◌, [], ◌∷◌, Bytes, bytes, ltb, ◌==◌, if◌then◌else◌,
  length, get_or, take, drop, Option, none, some,
}
use httpuv.Static.Manager.{StaticPath, StaticPathManager, get}

abbrev pub is_empty : Bytes → Bool
is_empty [] = true
is_empty (_ ∷ _) = false

-- `url_path.find('\\') != npos`.
unfoldable pub contains : ℕ → Bytes → Bool
contains c [] = false
contains c (d ∷ s) = if c == d then true else contains c s

-- `s.find_last_of(c, position)`: the last place of the byte at or before the position, which may
-- lie behind the end. 256 is no byte.
unfoldable pub find_last_of : ℕ → Bytes → ℕ → Option ℕ
find_last_of c s zero = if get_or s 0 256 == c then some 0 else none
find_last_of c s (suc position) =
    if get_or s (suc position) 256 == c then some (suc position) else find_last_of c s position

-- A path like "/foo/bar/" becomes "/foo/bar", but "/" stays.
unfoldable pub strip_slash : Bytes → Bytes
strip_slash path =
    if ltb 1 (length path) && (get_or path (length path - 1) 0 == b'/')
    then take (length path - 1) path
    else path

-- The part before a slash, or the slash if there is none.
unfoldable pub pre_slash : Bytes → ℕ → Bytes
pre_slash path found_idx = let pre = take found_idx path in if is_empty pre then bytes "/" else pre

-- `while (true)`. The outer `none` means that the fuel ran out.
unfoldable pub match_loop :
    ℕ → StaticPathManager → Bytes → Bytes → Bytes → ℕ → Option (Option (StaticPath × Bytes))
match_loop zero m path pre post found_idx = none
match_loop (suc fuel) m path pre post found_idx = elim (get m pre) [
  | some sp ↦ some (some (sp, post))
  | none ↦ if found_idx == 0 then some none else elim (find_last_of b'/' path (found_idx - 1)) [
    | none ↦ some none
    | some i ↦ match_loop fuel m path (pre_slash path i) (drop (i + 1) path) i
  ]
]

-- Each round finds a slash further to the left.
unfoldable pub match_static_path : StaticPathManager → Bytes → Option (Option (StaticPath × Bytes))
match_static_path m url_path =
    if is_empty url_path
    then some none
    else if contains 92 url_path
    then some none
    else let path = strip_slash url_path in
      match_loop (length path + 2) m path path [] (length path + 1)
