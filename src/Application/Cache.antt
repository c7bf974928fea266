-- ===== src/Application/Cache.antt =====
-- A client that has the file is told so.
use httpuv.Base.{
  ◌≡◌, refl, ap, ◌∙◌, arith, Bool, true, false, ◌&&◌, not, [], ◌∷◌, append-nil, Bytes, bytes,
  if◌then◌else◌, none, some, find, ℤ, pos, leb_ℤ, same_ℤ, negsuc,
}
use httpuv.Headers.{ResponseHeaders, same_ci}
use httpuv.Date.{http_date_string, parse_http_date_string}
use httpuv.Date.Printed.{IsUtc, parse_http_date_string-http_date_string}
use httpuv.Files.{FileDataSource, get_mtime}
use httpuv.Static.Options.{StaticPathOptions}
use httpuv.Response.{HttpResponse, new_response}
use httpuv.Application.{
  Request, has_header, get_header, Body, respond, deref, Environment, content_type_of,
  cache_is_valid, extra_headers, get_status_description, file_response,
}

leb_ℤ-refl : (z : ℤ) → leb_ℤ z z ≡ true
leb_ℤ-refl (pos n) = ground arith
leb_ℤ-refl (negsuc n) = ground arith

valid_at :
    (have : Bool) (z w : ℤ)
    → have ≡ true
    → w ≡ z
    → same_ℤ z (pos 0) ≡ false
    → (if have then (not (same_ℤ z (pos 0)) && not (same_ℤ w (pos 0)) && leb_ℤ z w) else false)
      ≡ true
valid_at have z w h e dated = rw (h, e, dated) (leb_ℤ-refl z)

module _ {F : Type 0} (env : Environment F) where
  cache_is_valid-same :
      (r : Request) (source : FileDataSource F)
      → IsUtc (get_mtime env.files source) (env.gmtime (get_mtime env.files source))
      → same_ℤ (get_mtime env.files source) (pos 0) ≡ false
      → find same_ci (bytes "If-Modified-Since") r.headers
        ≡ some (http_date_string env.gmtime (get_mtime env.files source))
      → cache_is_valid env r source ≡ true
  unfolding cache_is_valid has_header get_header
  cache_is_valid-same r source utc dated sent =
      let z = get_mtime env.files source in
      let back = parse_http_date_string-http_date_string env.gmtime z utc in
      let have : has_header r (bytes "If-Modified-Since") ≡ true = rw (sent, has_header) in
      let got : get_header r (bytes "If-Modified-Since") ≡ http_date_string env.gmtime z =
        rw (sent, get_header) in
      valid_at _ z _ have (ap parse_http_date_string got ∙ back) dated

  -- The answer for a file that the client has the date of.
  pub file_response-not_modified :
      (options : StaticPathOptions) (r : Request) (path : Bytes) (source : FileDataSource F)
      (content_type : Bytes) (extra : ResponseHeaders)
      → IsUtc (get_mtime env.files source) (env.gmtime (get_mtime env.files source))
      → same_ℤ (get_mtime env.files source) (pos 0) ≡ false
      → content_type_of env path options.html_charset ≡ some content_type
      → options.headers ≡ some extra
      → find same_ci (bytes "If-Modified-Since") r.headers
        ≡ some (http_date_string env.gmtime (get_mtime env.files source))
      → (p : HttpResponse (Body F)) × (file_response env options r path source ≡ respond p)
        × (p.status_code ≡ 304)
        × (p.body ≡ none)
        × (p.headers
            ≡ (bytes "Date", http_date_string env.gmtime env.now) ∷ extra_headers true extra)
  unfolding file_response deref new_response
  file_response-not_modified options r path source content_type extra utc dated typed given sent =
      let valid = cache_is_valid-same r source utc dated sent in
      let p : HttpResponse (Body F) = record {
        status_code = 304;
        status = get_status_description 304;
        headers = (bytes "Date", http_date_string env.gmtime env.now) ∷ extra_headers true extra;
        response_header = [];
        body = none;
        close_after_written = false;
        chunked = false;
      } in
      (
        p,
        rw (typed, valid, given, file_response, deref, append-nil (extra_headers true extra)),
        refl,
        refl,
        refl,
      )
