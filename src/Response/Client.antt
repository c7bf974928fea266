-- ===== src/Response/Client.antt =====
-- The head of a response as a client reads it: lines, and fields of a name and a value.
use httpuv.Base.{
  ℕ, zero, suc, ◌+◌, ◌≡◌, refl, ap, sym, ◌∙◌, arith, false, [], ◌∷◌, ◌++◌, append_assoc, Bytes,
  bytes, ◌==◌, if◌then◌else◌, length, length-append, Option, none, some, ◌>>=◌, All,
}
use httpuv.Headers.{ResponseHeaders}
use httpuv.Output.{crlf}
use httpuv.Output.Chunked.{line_end, line_feed}
use httpuv.Response.{header_line}
use httpuv.Static.Match.{contains}
use httpuv.Files.Names.{contains-append}

-- The bytes before the first carriage return with a line feed, and what is behind these.
pub read_line : Bytes → Option (Bytes × Bytes)
read_line [] = none
read_line (c ∷ s) =
    let later = read_line s in
    elim (line_end (c ∷ s)) [
      | some rest ↦ some ([], rest)
      | none ↦ later >>= λ r. some (c ∷ r.0, r.1)
    ]

-- A value is behind the first colon and a blank.
value_of : Bytes → Option Bytes
value_of [] = none
value_of (c ∷ s) = if c == b' ' then some s else none

pub split_field : Bytes → Option (Bytes × Bytes)
unfolding value_of
split_field [] = none
split_field (c ∷ s) =
    let later = split_field s in
    if c == b':'
    then (value_of s >>= λ value. some ([], value))
    else later >>= λ f. some (c ∷ f.0, f.1)

-- The fields up to the empty line, and the bytes behind it; the fuel is the number of lines.
pub read_fields : ℕ → Bytes → Option (ResponseHeaders × Bytes)
unfolding read_line split_field
read_fields zero s = none
read_fields (suc fuel) s = do
  (line, rest) ← read_line s
  (let later = read_fields fuel rest in
      if length line == 0
      then some ([], rest)
      else split_field line >>= λ field. later >>= λ r. some (field ∷ r.0, r.1))

-- A name without a colon and without a carriage return, and a value without a carriage return.
unfoldable pub IsField : Bytes × Bytes → Type 0
IsField (name, value) =
    (contains b':' name ≡ false) × (contains 13 name ≡ false) × (contains 13 value ≡ false)

unfoldable pub render : ResponseHeaders → Bytes
render [] = []
render ((name, value) ∷ fields) = header_line name value ++ render fields

pub read_line-append :
    (l t : Bytes) → contains 13 l ≡ false → read_line (l ++ 13 ∷ 10 ∷ t) ≡ some (l, t)
unfolding read_line line_end line_feed contains
read_line-append [] t e = refl
read_line-append (c ∷ l) t e =
    let here : (c == 13) ≡ false = ground (arith, e) in
    let later : contains 13 l ≡ false = ground (arith, e) in
    let same_line : line_end (c ∷ (l ++ 13 ∷ 10 ∷ t)) ≡ none = rw here in
    rw (same_line, read_line-append l t later, read_line)

split_field-append :
    (name value : Bytes)
    → contains b':' name ≡ false
    → split_field (name ++ b':' ∷ b' ' ∷ value) ≡ some (name, value)
unfolding split_field value_of contains
split_field-append [] value e = refl
split_field-append (c ∷ name) value e =
    let here : (c == b':') ≡ false = ground (arith, e) in
    let later : contains b':' name ≡ false = ground (arith, e) in
    rw (here, split_field-append name value later)

read_fields-line :
    (fuel : ℕ) (name value t : Bytes) (fields : ResponseHeaders) (body : Bytes)
    → IsField (name, value)
    → read_fields fuel t ≡ some (fields, body)
    → read_fields (suc fuel) (header_line name value ++ t) ≡ some ((name, value) ∷ fields, body)
unfolding read_fields header_line IsField
read_fields-line fuel name value t fields body (colon, n, v) e =
    let line = name ++ b':' ∷ b' ' ∷ value in
    let shape : header_line name value ++ t ≡ line ++ 13 ∷ 10 ∷ t =
      append_assoc name (bytes ": " ++ (value ++ crlf)) t
      ∙ ap (λ r. name ++ (b':' ∷ b' ' ∷ r)) (append_assoc value crlf t)
      ∙ sym (append_assoc name (b':' ∷ b' ' ∷ value) (13 ∷ 10 ∷ t)) in
    let after_colon : contains 13 (b':' ∷ b' ' ∷ value) ≡ false = unfold contains in v in
    let full : (length line == 0) ≡ false =
      ground (arith, length-append name (b':' ∷ b' ' ∷ value)) in
    rw (
      shape,
      read_line-append line t (contains-append 13 name (b':' ∷ b' ' ∷ value) n after_colon),
      full,
      split_field-append name value colon,
      e,
    )

-- Fields that were written are read.
pub read_fields-render :
    (more : ℕ) (fields : ResponseHeaders) (body : Bytes)
    → All IsField fields
    → read_fields (length fields + suc more) (render fields ++ (crlf ++ body)) ≡ some (fields, body)
unfolding render contains read_fields
read_fields-render more [] body h =
    let fuel : 0 + suc more ≡ suc more = omega arith in rw (fuel, read_line-append [] body refl)
read_fields-render more ((name, value) ∷ fields) body (f, h) =
    let fuel : suc (length fields) + suc more ≡ suc (length fields + suc more) = omega arith in
    rw (fuel, append_assoc)
      (read_fields-line (length fields + suc more) name value (render fields ++ (crlf ++ body))
        fields body f (read_fields-render more fields body h))
