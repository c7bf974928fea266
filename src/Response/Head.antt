-- ===== src/Response/Head.antt =====
-- The head that HttpResponse writes, as a client reads it.
use httpuv.Base.{
  ℕ, zero, suc, ◌+◌, ◌/◌, ◌%◌, ◌≤◌, ◌≡◌, refl, ap, sym, ◌∙◌, arith, Bool, true, false, ◌||◌, [],
  ◌∷◌, ◌++◌, append_assoc, append-nil, Bytes, bytes, decimal, decimal_loop, ltb, ◌==◌,
  if◌then◌else◌, length, Option, none, some, Bool-cases, Option-cases, inl, inr, All,
}
use httpuv.Headers.{ResponseHeaders, same_ci}
use httpuv.Output.{DataSource, crlf}
use httpuv.Static.Match.{contains}
use httpuv.Response.{
  HttpResponse, erase_all, header_line, header_loop, framing, status_line, head_of,
}
use httpuv.Response.Client.{IsField, render}

abbrev pub content_length_name : Bytes
content_length_name = bytes "Content-Length"

-- How many fields have the name Content-Length.
pub lengths : ResponseHeaders → ℕ
lengths [] = 0
lengths ((name, value) ∷ fields) =
    let rest = lengths fields in if same_ci name content_length_name then suc rest else rest

pub last_length : ResponseHeaders → Bytes → Bytes
last_length [] l = l
last_length ((name, value) ∷ fields) l = elim (same_ci name content_length_name) [
  | true ↦ last_length fields value
  | false ↦ last_length fields l
]

pub encoded : ResponseHeaders → Bool → Bool
encoded [] e = e
encoded ((name, value) ∷ fields) e = elim (same_ci name content_length_name) [
  | true ↦ encoded fields e
  | false ↦ encoded fields (if same_ci name (bytes "Content-Encoding") then true else e)
]

pub header_loop-render :
    (fields : ResponseHeaders) (l : Bytes) (e : Bool)
    → header_loop fields l e
      ≡ (render (erase_all content_length_name fields), last_length fields l, encoded fields e)
unfolding header_loop render erase_all last_length encoded
header_loop-render [] l e = refl
header_loop-render ((name, value) ∷ fields) l e =
    elim (Bool-cases (same_ci name content_length_name)) [
      | inl same ↦ rw (same, header_loop, last_length, encoded) (header_loop-render fields value e)
      | inr other ↦ rw (
        other,
        header_loop,
        last_length,
        encoded,
        header_loop-render fields l (if same_ci name (bytes "Content-Encoding") then true else e),
      )
    ]

pub lengths-erase_all :
    (fields : ResponseHeaders) → lengths (erase_all content_length_name fields) ≡ 0
unfolding lengths erase_all
lengths-erase_all [] = refl
lengths-erase_all ((name, value) ∷ fields) = elim (Bool-cases (same_ci name content_length_name)) [
  | inl same ↦ rw same (lengths-erase_all fields)
  | inr other ↦ rw (other, other) (lengths-erase_all fields)
]

pub lengths-append : (s t : ResponseHeaders) → lengths (s ++ t) ≡ lengths s + lengths t
unfolding lengths
lengths-append [] t = omega arith
lengths-append ((name, value) ∷ s) t = ground (arith, lengths-append s t)

pub erase_all-IsField :
    (fields : ResponseHeaders)
    → All IsField fields
    → All IsField (erase_all content_length_name fields)
unfolding erase_all
erase_all-IsField [] h = tt
erase_all-IsField ((name, value) ∷ fields) (f, h) =
    elim (Bool-cases (same_ci name content_length_name)) [
      | inl same ↦ rw same (erase_all-IsField fields h)
      | inr other ↦ rw other (f, erase_all-IsField fields h)
    ]

pub last_length-IsField :
    (fields : ResponseHeaders) (l : Bytes)
    → All IsField fields
    → contains 13 l ≡ false
    → contains 13 (last_length fields l) ≡ false
unfolding last_length IsField
last_length-IsField [] l h e = e
last_length-IsField ((name, value) ∷ fields) l (f, h) e =
    elim (Bool-cases (same_ci name content_length_name)) [
      | inl same ↦ rw (same, last_length) (last_length-IsField fields value h f.2)
      | inr other ↦ rw (other, last_length) (last_length-IsField fields l h e)
    ]

render-append : (s t : ResponseHeaders) → render (s ++ t) ≡ render s ++ render t
unfolding render
render-append [] t = refl
render-append ((name, value) ∷ s) t =
    ap (λ r. header_line name value ++ r) (render-append s t)
    ∙ sym (append_assoc (header_line name value) (render s) (render t))

digits_only :
    (fuel n : ℕ) (behind : Bytes)
    → contains 13 behind ≡ false
    → contains 13 (decimal_loop fuel n behind) ≡ false
unfolding decimal_loop contains
digits_only zero n behind e = e
digits_only (suc fuel) n behind e =
    let digit_first : contains 13 ((b'0' + n % 10) ∷ behind) ≡ false = ground (arith, e) in
    elim (Bool-cases (ltb n 10)) [
      | inl small ↦ rw small digit_first
      | inr large ↦ rw large (digits_only fuel (n / 10) ((b'0' + n % 10) ∷ behind) digit_first)
    ]

pub contains-decimal : (n : ℕ) → contains 13 (decimal n) ≡ false
unfolding decimal contains
contains-decimal n = digits_only 20 n [] refl

module _ {B : Type 0} (d : DataSource B) where
  -- The field that says where the body ends.
  pub framing_fields : Bool → Bool → Bool → Bytes → Option B → ResponseHeaders
  framing_fields true chunked empty l body = []
  framing_fields false true empty l body = (bytes "Transfer-Encoding", bytes "chunked") ∷ []
  framing_fields false false false l body = (content_length_name, l) ∷ []
  framing_fields false false true l none = []
  framing_fields false false true l (some b) = (content_length_name, decimal (d.size b)) ∷ []

  pub zip_fields : Bool → ResponseHeaders
  zip_fields true = (bytes "Content-Encoding", bytes "gzip") ∷ []
  zip_fields false = []

  -- The fields that the response itself puts behind the others.
  abbrev pub added : HttpResponse B → Bytes → Bool → ResponseHeaders
  added p l zipped =
      zip_fields zipped ++ framing_fields (p.status_code == 101) p.chunked (length l == 0) l p.body

  framing-fields :
      (code : ℕ) (chunked : Bool) (l : Bytes) (body : Option B)
      → framing d code chunked l body
        ≡ render (framing_fields (code == 101) chunked (length l == 0) l body)
  unfolding framing framing_fields render
  framing-fields code chunked l body = elim (Bool-cases (code == 101)) [
    | inl switched ↦ rw switched
    | inr other ↦ elim (Bool-cases chunked) [
      | inl c ↦ rw (other, c) (sym (append-nil _))
      | inr n ↦ elim (Bool-cases (length l == 0)) [
        | inl empty ↦ elim (Option-cases body) [
          | inl no_body ↦ rw (other, n, empty, no_body)
          | inr (b, e) ↦ rw (other, n, empty, e) (sym (append-nil _))
        ]
        | inr full ↦ rw (other, n, full) (sym (append-nil _))
      ]
    ]
  ]

  zip-fields :
      (zipped : Bool)
      → (if zipped then bytes "Content-Encoding: gzip\r\n" else []) ≡ render (zip_fields zipped)
  unfolding zip_fields render header_line
  zip-fields true = refl
  zip-fields false = refl

  pub head_of-render :
      (p : HttpResponse B) (fields : ResponseHeaders) (l : Bytes) (zipped : Bool)
      → head_of d p (render fields) l zipped
        ≡ status_line d p.status_code p.status ++ (render (fields ++ added p l zipped) ++ crlf)
  unfolding head_of
  head_of-render p fields l zipped = rw (
    zip-fields zipped,
    framing-fields p.status_code p.chunked l p.body,
    render-append,
    render-append,
    append_assoc,
    append_assoc,
  )

  pub framing_fields-IsField :
      (switched chunked empty : Bool) (l : Bytes) (body : Option B)
      → contains 13 l ≡ false
      → All IsField (framing_fields switched chunked empty l body)
  unfolding framing_fields IsField contains
  framing_fields-IsField true chunked empty l body e = tt
  framing_fields-IsField false true empty l body e = ((refl, refl, refl), tt)
  framing_fields-IsField false false false l body e = ((refl, refl, e), tt)
  framing_fields-IsField false false true l none e = tt
  framing_fields-IsField false false true l (some b) e =
      ((refl, refl, contains-decimal (d.size b)), tt)

  pub zip_fields-IsField : (zipped : Bool) → All IsField (zip_fields zipped)
  unfolding zip_fields IsField contains
  zip_fields-IsField true = ((refl, refl, refl), tt)
  zip_fields-IsField false = tt

  pub lengths-framing_fields :
      (switched chunked empty : Bool) (l : Bytes) (body : Option B)
      → (lengths (framing_fields switched chunked empty l body) ≤ 1)
        × (switched || chunked ≡ true → lengths (framing_fields switched chunked empty l body) ≡ 0)
  unfolding framing_fields lengths same_ci
  lengths-framing_fields true chunked empty l body = (omega arith, λ h. refl)
  lengths-framing_fields false true empty l body = (omega arith, λ h. refl)
  lengths-framing_fields false false false l body = (omega arith, λ h. absurd (ground (arith, h)))
  lengths-framing_fields false false true l none = (omega arith, λ h. absurd (ground (arith, h)))
  lengths-framing_fields false false true l (some b) =
      (omega arith, λ h. absurd (ground (arith, h)))

  pub lengths-zip_fields : (zipped : Bool) → lengths (zip_fields zipped) ≡ 0
  unfolding zip_fields lengths same_ci
  lengths-zip_fields true = refl
  lengths-zip_fields false = refl
