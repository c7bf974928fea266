-- ===== src/Tests/Application.antt =====
-- A request for a file, and the theorems on it.
use httpuv.Base.{
  ℕ, ◌≡◌, ◌∙◌, refl, sym, ap, arith, ◌∷◌, [], ◌++◌, append-nil, Bool, true, false, ◌==◌,
  if◌then◌else◌, Bytes, bytes, bytes_eq, Option, none, some, some-injective, ◌⊎◌, inl, inr,
  Bool-cases, get_or, find, pos,
}
use httpuv.Headers.{same_ci}
use httpuv.Date.{http_date_string}
use httpuv.Uri.{do_decode_uri}
use httpuv.Static.Options.{StaticPathOptions, validate_request_headers}
use httpuv.Static.Manager.{StaticPath, StaticPathManager, get}
use httpuv.Static.Match.{match_static_path, contains, match_loop, strip_slash}
use httpuv.Files.{FileDataSource, Stat, get_mtime, c_str, is_directory, initialize}
use httpuv.Response.{HttpResponse, has_word, new_response}
use httpuv.Application.{
  Request, split_query_string, Body, respond, deref, Environment, content_type_of, extra_headers,
  file_response, static_file_response, base_path,
}
use httpuv.Application.Guards.{is_served, IsAllowed, static_file_response-IsAllowed}
use httpuv.Application.Inside.{IsInside, elsewhere, static_file_response-elsewhere}
use httpuv.Application.Cache.{file_response-not_modified}
use httpuv.Tests.Date.{some_time, some_time-IsUtc}
use httpuv.Tests.Files.{some_files}

abbrev some_options : StaticPathOptions
some_options = record {
  indexhtml = some true;
  fallthrough = some false;
  html_charset = some (bytes "utf-8");
  headers = some [];
  validation = some [];
  exclude = some false;
}

abbrev some_manager : StaticPathManager
some_manager = record {
  path_map = (bytes "/", record { path = bytes "/www"; options = some_options }) ∷ [];
  options = some_options;
}

abbrev some_environment : Environment ℕ
some_environment = record {
  files = some_files;
  find_mime_type = λ extension. if bytes_eq extension (bytes "html") then bytes "text/html" else [];
  gmtime = some_time;
  now = pos 784111777;
}

abbrev some_request : Request
some_request = record { method = bytes "GET"; url = bytes "/?a=1"; headers = [] }

some_request-served :
    is_served (static_file_response some_environment some_manager some_request) ≡ true
unfolding is_served static_file_response find match_static_path do_decode_uri split_query_string
    contains match_loop strip_slash get bytes_eq deref validate_request_headers has_word
    is_directory initialize new_response
some_request-served = refl

static_file_response-IsAllowed_example : IsAllowed some_environment some_manager some_request
static_file_response-IsAllowed_example =
    static_file_response-IsAllowed some_environment some_manager some_request some_request-served

path_of_get : (q : Bytes) (sp : StaticPath) → get some_manager q ≡ some sp → sp.path ≡ bytes "/www"
unfolding get find
path_of_get q sp e = elim (Bool-cases (bytes_eq q (bytes "/"))) [
  | inl root ↦ sym (ap (λ s. s.path) (some-injective _ _ (rw (root, get, find) at e)))
  | inr other ↦ absurd (ground (arith, (rw (other, get, find) at e)))
]

abbrev starts_w : Bytes → Bool
starts_w path = get_or path 1 0 == b'w'

base_path-w :
    (sp : StaticPath) (subpath more : Bytes)
    → sp.path ≡ bytes "/www"
    → starts_w (c_str (base_path sp subpath ++ more)) ≡ true
unfolding base_path c_str
base_path-w sp subpath more e = elim (Bool-cases (bytes_eq subpath [])) [
  | inl empty ↦ rw (empty, e)
  | inr full ↦ rw (full, e)
]

IsInside-w : (path : Bytes) → IsInside some_manager path → starts_w path ≡ true
unfolding IsInside
IsInside-w path (q, subpath, sp, got, clean, whole, inl e) =
    ap starts_w (e ∙ sym (ap c_str (append-nil _)))
    ∙ base_path-w sp subpath [] (path_of_get q sp got)
IsInside-w path (q, subpath, sp, got, clean, whole, inr e) =
    ap starts_w e ∙ base_path-w sp subpath (bytes "/index.html") (path_of_get q sp got)

-- Other files elsewhere: every path whose second byte is not "w" is the open file 7.
abbrev other_stat : Bytes → Option Stat
other_stat path = if starts_w path then some_files.stat path else none

abbrev other_open : Bytes → ℕ ⊎ ℕ
other_open path = if starts_w path then some_files.open_file path else inr 7

some_request-whole : contains 0 (do_decode_uri (split_query_string (bytes "/?a=1")).0 true) ≡ false
unfolding contains do_decode_uri split_query_string
some_request-whole = refl

static_file_response-elsewhere_example :
    static_file_response
      (elsewhere some_environment some_manager other_stat other_open)
      some_manager
      some_request
    ≡ static_file_response some_environment some_manager some_request
static_file_response-elsewhere_example =
    static_file_response-elsewhere some_environment some_manager other_stat other_open some_request
      some_request-whole (λ path inside. let w = IsInside-w path inside in (rw w, rw w))

abbrev some_source : FileDataSource ℕ
some_source = record { fd = some 1; file_length = 5 }

abbrev cached_request : Request
cached_request = record {
  method = bytes "GET";
  url = bytes "/index.html";
  headers = (bytes "if-modified-since", http_date_string some_time (pos 784111777)) ∷ [];
}

cached_request-sent :
    find same_ci (bytes "If-Modified-Since") cached_request.headers
    ≡ some (http_date_string some_time (get_mtime some_files some_source))
unfolding find get_mtime same_ci
cached_request-sent = refl

typed :
    content_type_of some_environment (bytes "/www/index.html") some_options.html_charset
    ≡ some (bytes "text/html; charset=utf-8")
unfolding content_type_of bytes_eq
typed = refl

some_source-dated : get_mtime some_files some_source ≡ pos 784111777
unfolding get_mtime
some_source-dated = refl

file_response-not_modified_example :
    (p : HttpResponse (Body ℕ)) × (file_response some_environment some_options cached_request
        (bytes "/www/index.html")
        some_source
      ≡ respond p)
    × (p.status_code ≡ 304)
    × (p.body ≡ none)
    × (p.headers
        ≡ (bytes "Date", http_date_string some_time (pos 784111777)) ∷ extra_headers true [])
unfolding get_mtime
file_response-not_modified_example =
    file_response-not_modified some_environment some_options cached_request
      (bytes "/www/index.html") some_source (bytes "text/html; charset=utf-8") [] some_time-IsUtc
      refl typed refl cached_request-sent
