-- ===== src/Tests/Static.antt =====
-- Static paths at concrete inputs.
use httpuv.Base.{
  ◌≡◌, refl, arith, true, false, [], ◌∷◌, Bytes, bytes, All, IsByte, Option, none, some,
  if◌then◌else◌, bytes_eq, find, ◌||◌, ◌⊎◌, inr, ◌↔◌,
}
use httpuv.Headers.{RequestHeaders, same_ci}
use httpuv.Static.Options.{StaticPathOptions, merge, validate_request_headers}
use httpuv.Static.Compare.{validate_request_headers-find}
use httpuv.Static.Manager.{StaticPath, StaticPathManager, get, set}
use httpuv.Static.Entries.{merged, get-set}
use httpuv.Static.Match.{
  is_empty, contains, strip_slash, match_static_path, find_last_of, match_loop, pre_slash,
}
use httpuv.Static.Slash.{IsUnslashed}
use httpuv.Static.Longest.{IsMatch, match_static_path-IsMatch}

abbrev no_options : StaticPathOptions
no_options = record {
  indexhtml = none;
  fallthrough = none;
  html_charset = none;
  headers = none;
  validation = none;
  exclude = none;
}

abbrev guarded : StaticPathOptions
guarded = record no_options {
  indexhtml = some true;
  validation = some (bytes "==" ∷ bytes "x-key" ∷ bytes "ab" ∷ []);
}

abbrev site : StaticPath
site = record { path = bytes "www"; options = no_options }

abbrev docs : StaticPath
docs = record { path = bytes "docs"; options = guarded }

abbrev two_paths : StaticPathManager
two_paths = record {
  path_map = (bytes "/", site) ∷ (bytes "/a/b", docs) ∷ [];
  options = record no_options { indexhtml = some false; exclude = some false };
}

match_static_path-IsMatch_example :
    (r : Option (StaticPath × Bytes)) × (match_static_path two_paths (bytes "/a/b/c.html") ≡ some r)
    × ((((is_empty (bytes "/a/b/c.html") || contains 92 (bytes "/a/b/c.html")) ≡ true) × (r ≡ none))
        ⊎ (((is_empty (bytes "/a/b/c.html") || contains 92 (bytes "/a/b/c.html")) ≡ false)
            × IsUnslashed (bytes "/a/b/c.html") (strip_slash (bytes "/a/b/c.html"))
            × IsMatch two_paths (strip_slash (bytes "/a/b/c.html")) r))
match_static_path-IsMatch_example = match_static_path-IsMatch two_paths (bytes "/a/b/c.html")

-- The longer of the two paths that fit is taken; the manager's options stand behind its own.
match_longer :
    match_static_path two_paths (bytes "/a/b/c.html")
    ≡ some (some (merged two_paths docs, bytes "c.html"))
unfolding match_static_path match_loop get merge find bytes_eq find_last_of pre_slash strip_slash
    contains
match_longer = refl

match_root :
    match_static_path two_paths (bytes "/a/bc/") ≡ some (some (merged two_paths site, bytes "a/bc"))
unfolding match_static_path match_loop get merge find bytes_eq find_last_of pre_slash strip_slash
    contains
match_root = refl

get-set_example : get (set two_paths (bytes "/a") docs) (bytes "/a/b") ≡ (
    if bytes_eq (bytes "/a/b") (bytes "/a")
    then some (merged two_paths docs)
    else get two_paths (bytes "/a/b"))
get-set_example = get-set two_paths (bytes "/a") (bytes "/a/b") docs

ab-IsByte : All IsByte (bytes "ab")
ab-IsByte = (omega arith, (omega arith, tt))

abbrev key_header : RequestHeaders
key_header = (bytes "X-Key", bytes "ab") ∷ []

validate_request_headers-find_example :
    (validate_request_headers guarded key_header ≡ inr true)
    ↔ (find same_ci (bytes "x-key") key_header ≡ some (bytes "ab"))
validate_request_headers-find_example =
    validate_request_headers-find guarded key_header (bytes "x-key") (bytes "ab") refl ab-IsByte
      (ab-IsByte, tt)
