-- ===== src/Response.antt =====
-- HttpResponse (src/httpresponse.h, src/httpresponse.cpp). The request is given by its headers, the
-- body by any DataSource; what is called of the stream, of the request and of the body's writer is
-- an entry of a log. `gzip` stands for the constructor of GZipDataSource, which throws when zlib
-- cannot start, and `none` is an exception.
pub mod Client
pub mod Head
pub mod Written
pub mod Fields
use httpuv.Base.{
  ℕ, zero, suc, ◌+◌, ◌-◌, Bool, true, false, ◌&&◌, ◌||◌, not, List, [], ◌∷◌, ◌++◌, Bytes, bytes,
  decimal, ltb, leb, ◌==◌, if◌then◌else◌, length, Option, none, some, ◌>>=◌, find, ℤ, drop,
}
use httpuv.Headers.{ResponseHeaders, RequestHeaders, same_ci}
use httpuv.Output.{DataSource, crlf}
use httpuv.Date.{Tm, http_date_string}

pub record HttpResponse (B : Type 0) : Type 0 where
  pub status_code : ℕ
  pub status : Bytes
  pub headers : ResponseHeaders
  pub response_header : Bytes
  pub body : Option B
  pub close_after_written : Bool
  pub chunked : Bool

-- The constructor, at the time `now`.
unfoldable pub new_response : {B : Type 0} → (ℤ → Tm) → ℤ → ℕ → Bytes → Option B → HttpResponse B
new_response gmtime now status_code status body = record {
  status_code = status_code;
  status = status;
  headers = (bytes "Date", http_date_string gmtime now) ∷ [];
  response_header = [];
  body = body;
  close_after_written = false;
  chunked = false;
}

abbrev pub add_header : {B : Type 0} → HttpResponse B → Bytes → Bytes → HttpResponse B
add_header p name value = record p { headers = p.headers ++ (name, value) ∷ [] }

unfoldable pub erase_all : Bytes → ResponseHeaders → ResponseHeaders
erase_all name [] = []
erase_all name ((n, v) ∷ headers) =
    let rest = erase_all name headers in if same_ci n name then rest else (n, v) ∷ rest

unfoldable pub set_header : {B : Type 0} → HttpResponse B → Bytes → Bytes → HttpResponse B
unfolding erase_all
set_header p name value = add_header (record p { headers = erase_all name p.headers }) name value

unfoldable pub close_after : {B : Type 0} → HttpResponse B → HttpResponse B
unfolding set_header
close_after p = record (set_header p (bytes "Connection") (bytes "close")) {
  close_after_written = true;
}

unfoldable pub header_line : Bytes → Bytes → Bytes
header_line name value = name ++ (bytes ": " ++ (value ++ crlf))

-- The loop over the headers: what is written, `contentLength` and `contentEncoding`.
unfoldable pub header_loop : ResponseHeaders → Bytes → Bool → Bytes × Bytes × Bool
unfolding header_line
header_loop [] content_length content_encoding = ([], content_length, content_encoding)
header_loop ((name, value) ∷ headers) content_length content_encoding =
    elim (same_ci name (bytes "Content-Length")) [
      | true ↦ header_loop headers value content_encoding
      | false ↦
          let (response, l, e) =
            header_loop headers content_length
              (if same_ci name (bytes "Content-Encoding") then true else content_encoding) in
          (header_line name value ++ response, l, e)
    ]

-- `enc.find(word) != npos`.
unfoldable pub starts : Bytes → Bytes → Bool
starts [] s = true
starts (c ∷ word) [] = false
starts (c ∷ word) (d ∷ s) = (c == d) && starts word s

unfoldable pub has_word : Bytes → Bytes → Bool
unfolding starts
has_word word [] = starts word []
has_word word (d ∷ s) = if starts word (d ∷ s) then true else has_word word s

abbrev pub is_null : {B : Type 0} → Option B → Bool
is_null none = true
is_null (some _) = false

unfoldable pub use_gzip : {B : Type 0} → RequestHeaders → Bool → ℕ → Option B → Bool
unfolding has_word
use_gzip request content_encoding status_code body =
    if content_encoding
    then false
    else if (status_code == 101) || is_null body
    then false
    else elim (find same_ci (bytes "Accept-Encoding") request) [
      | none ↦ false
      | some enc ↦ has_word (bytes "gzip") enc
    ]

pub data ResponseAction (B : Type 0) : Type 0 where
  write_head : Bytes → ResponseAction B
  request_completed : ResponseAction B
  begin_body : Bool → B → ResponseAction B
  close_request : ResponseAction B

module _ {B : Type 0} (d : DataSource B) where
  -- The line that says where the body ends.
  unfoldable pub framing : ℕ → Bool → Bytes → Option B → Bytes
  unfolding header_line
  framing status_code chunked content_length body =
      if status_code == 101
      then []
      else if chunked
      then header_line (bytes "Transfer-Encoding") (bytes "chunked")
      else if not (length content_length == 0)
      then header_line (bytes "Content-Length") content_length
      else elim body [
        | none ↦ []
        | some b ↦ header_line (bytes "Content-Length") (decimal (d.size b))
      ]

  unfoldable pub status_line : ℕ → Bytes → Bytes
  status_line status_code status =
      bytes "HTTP/1.1 " ++ (decimal status_code ++ (bytes " " ++ (status ++ crlf)))

  -- The head of the response, with the body as it is after the decision on gzip.
  unfoldable pub head_of : HttpResponse B → Bytes → Bytes → Bool → Bytes
  unfolding framing status_line
  head_of p lines content_length zipped =
      status_line p.status_code p.status
      ++ (lines
          ++ ((if zipped then bytes "Content-Encoding: gzip\r\n" else [])
              ++ (framing p.status_code p.chunked content_length p.body ++ crlf)))

  -- A body of less than 256 bytes goes out with the head when the protocol is switched.
  unfoldable pub send_along : HttpResponse B → Bytes → B → Option (HttpResponse B)
  send_along p head b =
      if (p.status_code == 101) && ltb 0 (d.size b) && ltb (d.size b) 256
      then elim (d.get_data (d.size b) b) [
        | none ↦ none
        | some (buffer, c) ↦ some (record p {
          response_header = head ++ buffer;
          body = if length buffer == d.size c then none else some c;
        })
      ]
      else some (record p { response_header = head })

  unfoldable pub switched_body : HttpResponse B → Bytes → Option (HttpResponse B)
  unfolding send_along
  switched_body p head = elim p.body [
    | none ↦ some (record p { response_header = head })
    | some b ↦ send_along p head b
  ]

  unfoldable pub zip_body : (B → Option B) → Bool → Option B → Option (Option B)
  zip_body gzip zipped none = some none
  zip_body gzip zipped (some b) = if zipped then (gzip b >>= λ z. some (some z)) else some (some b)

  -- `failed` is the result of `uv_write`.
  unfoldable pub write_response :
      (B → Option B)
      → RequestHeaders
      → Bool
      → HttpResponse B
      → Option (HttpResponse B × List (ResponseAction B))
  unfolding header_loop use_gzip zip_body head_of switched_body
  write_response gzip request failed p =
      let (lines, content_length, content_encoding) = header_loop p.headers [] false in
      let zipped = use_gzip request content_encoding p.status_code p.body in
      zip_body gzip zipped p.body >>= λ body.
      let q = record p { body = body; chunked = p.chunked || zipped } in
      switched_body q (head_of q lines content_length zipped) >>= λ q.
      some (q, write_head q.response_header ∷ (if failed then [] else request_completed ∷ []))

unfoldable pub on_response_written :
    {B : Type 0} → HttpResponse B → Bool → HttpResponse B × List (ResponseAction B)
on_response_written p failed =
    if failed
    then (record p { close_after_written = true }, [])
    else elim p.body [ none ↦ (p, []) | some b ↦ (p, begin_body p.chunked b ∷ []) ]

-- The destructor.
unfoldable pub destroy : {B : Type 0} → HttpResponse B → List (ResponseAction B)
destroy p = if p.close_after_written then close_request ∷ [] else []
