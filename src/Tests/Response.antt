-- ===== src/Tests/Response.antt =====
-- Responses at concrete inputs.
use httpuv.Base.{
  find, decimal, ◌+◌, ◌≤◌, ◌≡◌, ◌==◌, ◌||◌, ◌++◌, refl, ◌∷◌, [], true, false, Bytes, bytes, length,
  some, List,
}
use httpuv.Headers.{ResponseHeaders, same_ci}
use httpuv.Output.{InMemoryDataSource, in_memory_source}
use httpuv.Static.Match.{contains}
use httpuv.Response.{
  HttpResponse, ResponseAction, write_head, request_completed, write_response, erase_all,
}
use httpuv.Response.Client.{IsField}
use httpuv.Response.Head.{content_length_name, lengths}
use httpuv.Response.Written.{read_head, status_text, read_head-write_response}

abbrev some_body : InMemoryDataSource
some_body = record { buffer = bytes "hello"; pos = 0 }

abbrev some_response : HttpResponse InMemoryDataSource
some_response = record {
  status_code = 200;
  status = bytes "OK";
  headers = (bytes "A", bytes "b") ∷ (bytes "content-length", bytes "9") ∷ [];
  response_header = [];
  body = some some_body;
  close_after_written = false;
  chunked = false;
}

abbrev written_response : HttpResponse InMemoryDataSource
written_response = record some_response {
  response_header = bytes "HTTP/1.1 200 OK\r\nA: b\r\nContent-Length: 9\r\n\r\n";
}

abbrev some_actions : List (ResponseAction InMemoryDataSource)
some_actions = write_head written_response.response_header ∷ request_completed ∷ []

some_response-written :
    write_response in_memory_source some [] false some_response
    ≡ some (written_response, some_actions)
unfolding write_response same_ci find decimal
some_response-written = refl

read_head-write_response_example :
    (more : ResponseHeaders) × (rest : Bytes) × (let fields =
        erase_all content_length_name some_response.headers ++ more in
      (read_head (length fields + 1) written_response.response_header
        ≡ some (status_text 200 (bytes "OK"), fields, rest))
      × (lengths fields ≤ 1)
      × ((200 == 101) || false ≡ true → lengths fields ≡ 0)
      × ((200 == 101) ≡ false → rest ≡ []))
unfolding contains IsField
read_head-write_response_example =
    read_head-write_response in_memory_source some [] false some_response written_response
      some_actions refl ((refl, refl, refl), ((refl, refl, refl), tt)) some_response-written
