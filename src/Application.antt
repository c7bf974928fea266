-- ===== src/Application.antt =====
-- What RWebApplication does on the background thread: src/webapplication.cpp, `staticFileResponse`
-- and the functions it uses. The file system, the table of MIME types, `gmtime_r` and the time are
-- arguments.
mod Status
unfoldable pub use Status.*
pub mod Guards
pub mod Paths
pub mod Inside
pub mod Cache
use httpuv.Base.{
  ℕ, zero, suc, ◌+◌, ◌-◌, Bool, true, false, ◌&&◌, ◌||◌, not, List, [], ◌∷◌, ◌++◌, Bytes, bytes,
  bytes_eq, decimal, leb, ltb, ◌==◌, if◌then◌else◌, length, drop, take, find, Option, none, some,
  ◌⊎◌, inl, inr, ℤ, pos, leb_ℤ, same_ℤ,
}
use httpuv.Headers.{ResponseHeaders, RequestHeaders, same_ci}
use httpuv.Uri.{do_decode_uri}
use httpuv.Date.{Tm, http_date_string, parse_http_date_string}
use httpuv.Output.{InMemoryDataSource}
use httpuv.Files.{
  FileSystem, FileAction, FileDataSource, FileDataSourceResult, fds_ok, fds_not_exist, fds_isdir,
  fds_error, is_directory, initialize, get_mtime, find_extension, basename,
}
use httpuv.Static.Options.{StaticPathOptions, ValidationError, validate_request_headers}
use httpuv.Static.Manager.{StaticPath, StaticPathManager}
use httpuv.Static.Match.{match_static_path}
use httpuv.Response.{HttpResponse, new_response, has_word}

-- The bodies of these responses.
pub data Body (F : Type 0) : Type 0 where
  in_memory : InMemoryDataSource → Body F
  from_file : FileDataSource F → Body F

-- `fall_through` is the null pointer. `undefined` is the use of an option without value, and
-- `no_fuel` that the model of `matchStaticPath` ran out of fuel.
pub data Answer (F : Type 0) : Type 0 where
  fall_through : Answer F
  respond : HttpResponse (Body F) → Answer F
  thrown : ValidationError → Answer F
  undefined : Answer F
  no_fuel : Answer F

-- `".."` between two slashes, or at the end behind one.
unfoldable pub has_dots : Bytes → Bool
has_dots url_path =
    has_word (bytes "/../") url_path
    || (leb 3 (length url_path) && bytes_eq (drop (length url_path - 3) url_path) (bytes "/.."))

-- `*o`.
unfoldable pub deref : {A F : Type 0} → Option A → (A → Answer F) → Answer F
deref none k = undefined
deref (some a) k = k a

pub record Environment (F : Type 0) : Type 0 where
  pub files : FileSystem F
  pub find_mime_type : Bytes → Bytes
  pub gmtime : ℤ → Tm
  pub now : ℤ

-- Under 304 only some headers are kept.
unfoldable pub kept_header : Bytes → Bool
kept_header name =
    bytes_eq name (bytes "Cache-Control")
    || bytes_eq name (bytes "Content-Location")
    || bytes_eq name (bytes "ETag")
    || bytes_eq name (bytes "Expires")
    || bytes_eq name (bytes "Vary")

unfoldable pub extra_headers : Bool → ResponseHeaders → ResponseHeaders
unfolding kept_header
extra_headers is_304 [] = []
extra_headers is_304 ((name, value) ∷ headers) =
    let rest = extra_headers is_304 headers in
    if is_304
    then (if kept_header name then (name, value) ∷ rest else rest)
    else (name, value) ∷ rest

unfoldable pub has_message_body : Request → Bool
unfolding has_header get_header
has_message_body r =
    (has_header r (bytes "Content-Length")
      && not (bytes_eq (get_header r (bytes "Content-Length")) (bytes "0")))
    || has_header r (bytes "Transfer-Encoding")

unfoldable pub base_path : StaticPath → Bytes → Bytes
base_path sp subpath = if bytes_eq subpath [] then sp.path else sp.path ++ (bytes "/" ++ subpath)

module _ {F : Type 0} (env : Environment F) where
  unfoldable pub error_response : ℕ → HttpResponse (Body F)
  error_response code =
      let description = get_status_description code in
      let content = decimal code ++ (bytes " " ++ (description ++ bytes "\n")) in
      new_response env.gmtime env.now code description
        (some (in_memory (record { buffer = content; pos = 0 })))

  -- `none` where the option for the charset is used without a value.
  unfoldable pub content_type_of : Bytes → Option Bytes → Option Bytes
  unfolding find_extension basename
  content_type_of local_path html_charset =
      let content_type = env.find_mime_type (find_extension (basename local_path)) in
      if bytes_eq content_type []
      then some (bytes "application/octet-stream")
      else if bytes_eq content_type (bytes "text/html")
      then elim html_charset [
        | none ↦ none
        | some charset ↦ some (
            if not (bytes_eq charset [])
            then bytes "text/html; charset=" ++ charset
            else content_type)
      ]
      else some content_type

  unfoldable pub cache_is_valid : Request → FileDataSource F → Bool
  unfolding has_header get_header
  cache_is_valid r source =
      if has_header r (bytes "If-Modified-Since")
      then (let file_mtime = get_mtime env.files source in
          let if_mod_since = parse_http_date_string (get_header r (bytes "If-Modified-Since")) in
          not (same_ℤ file_mtime (pos 0))
          && not (same_ℤ if_mod_since (pos 0))
          && leb_ℤ file_mtime if_mod_since)
      else false

  -- The response for a file that was opened.
  unfoldable pub file_response : StaticPathOptions → Request → Bytes → FileDataSource F → Answer F
  unfolding content_type_of cache_is_valid extra_headers
  file_response options r local_path source =
      elim (content_type_of local_path options.html_charset) [
        | none ↦ undefined
        | some content_type ↦
            let is_304 = cache_is_valid r source in
            let status_code = if is_304 then 304 else 200 in
            let body : Option (Body F) =
              if is_304 || bytes_eq r.method (bytes "HEAD")
              then none
              else some (from_file source) in
            let p =
              new_response env.gmtime env.now status_code (get_status_description status_code)
                body in
            let own : ResponseHeaders =
              (bytes "Content-Length", decimal source.file_length)
              ∷ (bytes "Content-Type", content_type)
              ∷ (bytes "Last-Modified", http_date_string env.gmtime (get_mtime env.files source))
              ∷ [] in
            deref options.headers (λ extra. respond (record p {
              headers = p.headers ++ (extra_headers is_304 extra ++ (if is_304 then [] else own));
            }))
      ]

  unfoldable pub with_index : StaticPathOptions → Bytes → (Bytes → Answer F) → Answer F
  with_index options local_path k =
      if is_directory env.files local_path
      then deref options.indexhtml (λ indexhtml.
        k (if indexhtml then local_path ++ (bytes "/" ++ bytes "index.html") else local_path))
      else k local_path

  -- What follows `initialize`. Its log is left out here.
  unfoldable pub opened :
      StaticPathOptions
      → Request
      → Bytes
      → FileDataSourceResult × FileDataSource F × List (FileAction F)
      → Answer F
  unfolding file_response error_response
  opened options r local_path (ret, source, _) =
      let missing =
        deref options.fallthrough (λ f. if f then fall_through else respond (error_response 404)) in
      elim ret [
        | fds_ok ↦ file_response options r local_path source
        | fds_not_exist ↦ missing
        | fds_isdir ↦ missing
        | fds_error ↦ respond (error_response 500)
      ]

  unfoldable pub open_path : StaticPathOptions → Request → Bytes → Answer F
  unfolding opened
  open_path options r local_path =
      opened options r local_path (initialize env.files local_path false)

  -- The early returns before the file is looked for.
  unfoldable pub checked : Request → Bytes → StaticPath → Answer F → Answer F
  unfolding has_dots has_message_body error_response
  checked r url_path sp file = deref sp.options.exclude (λ exclude.
      if exclude then fall_through else elim (validate_request_headers sp.options r.headers) [
        | inl error ↦ thrown error
        | inr false ↦ respond (error_response 403)
        | inr true ↦
            if not (bytes_eq r.method (bytes "GET")) && not (bytes_eq r.method (bytes "HEAD"))
            then respond (error_response 400)
            else if has_message_body r
            then respond (error_response 400)
            else if has_dots url_path
            then deref sp.options.fallthrough
                (λ f. if f then fall_through else respond (error_response 400))
            else file
      ])

  -- From the match of a static path on.
  unfoldable pub serve_match : Request → Bytes → StaticPath → Bytes → Answer F
  unfolding checked open_path base_path with_index
  serve_match r url_path sp subpath =
      checked r url_path sp (with_index sp.options (base_path sp subpath) (open_path sp.options r))

  unfoldable pub static_file_response : StaticPathManager → Request → Answer F
  unfolding serve_match has_header
  static_file_response m r =
      if has_header r (bytes "Upgrade")
      then fall_through
      else (let url_path = do_decode_uri (split_query_string r.url).0 true in
          elim (match_static_path m url_path) [
            | none ↦ no_fuel
            | some none ↦ fall_through
            | some (some (sp, subpath)) ↦ serve_match r url_path sp subpath
          ])
