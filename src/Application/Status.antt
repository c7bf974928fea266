-- ===== src/Application/Status.antt =====
-- Names, statuses and URLs: the utility functions of src/webapplication.cpp, and what the response
-- asks of the request.
use httpuv.Base.{
  ℕ, ◌-◌, Bool, true, false, ◌&&◌, List, [], ◌∷◌, Bytes, bytes, leb, ◌==◌, if◌then◌else◌, find,
  none, some,
}
use httpuv.Headers.{RequestHeaders, same_ci}

unfoldable pub normalize_header_name : Bytes → Bytes
normalize_header_name [] = []
normalize_header_name (c ∷ name) =
    (if c == b'-' then b'_' else if leb b'a' c && leb c b'z' then c - 32 else c)
    ∷ normalize_header_name name

abbrev pub status_descs : List (ℕ × Bytes)
status_descs =
    (100, bytes "Continue")
    ∷ (101, bytes "Switching Protocols")
    ∷ (200, bytes "OK")
    ∷ (201, bytes "Created")
    ∷ (202, bytes "Accepted")
    ∷ (203, bytes "Non-Authoritative Information")
    ∷ (204, bytes "No Content")
    ∷ (205, bytes "Reset Content")
    ∷ (206, bytes "Partial Content")
    ∷ (300, bytes "Multiple Choices")
    ∷ (301, bytes "Moved Permanently")
    ∷ (302, bytes "Found")
    ∷ (303, bytes "See Other")
    ∷ (304, bytes "Not Modified")
    ∷ (305, bytes "Use Proxy")
    ∷ (307, bytes "Temporary Redirect")
    ∷ (400, bytes "Bad Request")
    ∷ (401, bytes "Unauthorized")
    ∷ (402, bytes "Payment Required")
    ∷ (403, bytes "Forbidden")
    ∷ (404, bytes "Not Found")
    ∷ (405, bytes "Method Not Allowed")
    ∷ (406, bytes "Not Acceptable")
    ∷ (407, bytes "Proxy Authentication Required")
    ∷ (408, bytes "Request Timeout")
    ∷ (409, bytes "Conflict")
    ∷ (410, bytes "Gone")
    ∷ (411, bytes "Length Required")
    ∷ (412, bytes "Precondition Failed")
    ∷ (413, bytes "Request Entity Too Large")
    ∷ (414, bytes "Request-URI Too Long")
    ∷ (415, bytes "Unsupported Media Type")
    ∷ (416, bytes "Requested Range Not Satisifable")
    ∷ (417, bytes "Expectation Failed")
    ∷ (500, bytes "Internal Server Error")
    ∷ (501, bytes "Not Implemented")
    ∷ (502, bytes "Bad Gateway")
    ∷ (503, bytes "Service Unavailable")
    ∷ (504, bytes "Gateway Timeout")
    ∷ (505, bytes "HTTP Version Not Supported")
    ∷ []

unfoldable pub description_in : ℕ → List (ℕ × Bytes) → Bytes
description_in code [] = bytes "Dunno"
description_in code ((k, description) ∷ descs) =
    if code == k then description else description_in code descs

unfoldable pub get_status_description : ℕ → Bytes
unfolding description_in
get_status_description code = description_in code status_descs

-- The path, and the query with its question mark.
unfoldable pub split_query_string : Bytes → Bytes × Bytes
split_query_string [] = ([], [])
split_query_string (c ∷ url) =
    if c == b'?'
    then ([], c ∷ url)
    else (let (path, query) = split_query_string url in (c ∷ path, query))

-- What the response asks of the request: `method()`, `url()` and `headers()`.
pub record Request : Type 0 where
  pub method : Bytes
  pub url : Bytes
  pub headers : RequestHeaders

unfoldable pub has_header : Request → Bytes → Bool
has_header r name = elim (find same_ci name r.headers) [ none ↦ false | some _ ↦ true ]

unfoldable pub get_header : Request → Bytes → Bytes
get_header r name = elim (find same_ci name r.headers) [ none ↦ [] | some value ↦ value ]
