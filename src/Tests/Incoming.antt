-- ===== src/Tests/Incoming.antt =====
-- Headers that come in pieces.
use httpuv.Base.{◌≡◌, refl, arith, [], ◌∷◌, List, All, find, some, bytes, bytes_eq, false}
use httpuv.Headers.{same_ci}
use httpuv.Incoming.{HttpRequest, start, on_message_begin}
use httpuv.Incoming.Fields.{Pieces, IsCut, receive_all, whole}
use httpuv.Incoming.Commas.{values, filled, joined_values, value_of, find-receive_all}

abbrev some_request : HttpRequest
some_request = record {
  url = [];
  headers = [];
  last_header_field = [];
  last_header_state = start;
  handling_request = false;
  response_scheduled = false;
  is_closing = false;
}

-- "foo: 12", "bar: 3" and "Foo: 4", the first in pieces.
abbrev some_pieces : List Pieces
some_pieces =
    record {
      name = bytes "fo";
      name_more = bytes "o" ∷ [];
      value = bytes "1";
      value_more = bytes "2" ∷ [];
    }
    ∷ record { name = bytes "bar"; name_more = []; value = bytes "3"; value_more = [] }
    ∷ record { name = bytes "Foo"; name_more = []; value = bytes "4"; value_more = [] }
    ∷ []

some_pieces-IsCut : All IsCut some_pieces
unfolding IsCut bytes_eq
some_pieces-IsCut = (λ h. absurd (ground (arith, h)), (λ h. refl, (λ h. refl, tt)))

find-receive_all_example :
    find same_ci (bytes "FOO") (receive_all (on_message_begin some_request) some_pieces).headers
    ≡ some (bytes "12,4")
unfolding value_of values filled joined_values same_ci whole bytes_eq
find-receive_all_example = find-receive_all some_request some_pieces (bytes "FOO") some_pieces-IsCut
