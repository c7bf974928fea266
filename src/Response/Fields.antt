-- ===== src/Response/Fields.antt =====
-- `setHeader` and the fields of a response.
use httpuv.Base.{
  ◌≡◌, refl, ◌∙◌, arith, true, [], ◌∷◌, ◌++◌, Bytes, if◌then◌else◌, Bool-cases, inl, inr,
}
use httpuv.Headers.{ResponseHeaders, same_ci}
use httpuv.Response.{HttpResponse, erase_all, set_header}

-- The fields with a name.
pub named : Bytes → ResponseHeaders → ResponseHeaders
named name [] = []
named name ((n, v) ∷ fields) =
    let rest = named name fields in if same_ci n name then (n, v) ∷ rest else rest

same_ci_refl : (s : Bytes) → same_ci s s ≡ true
unfolding same_ci
same_ci_refl [] = refl
same_ci_refl (c ∷ s) = ground (arith, same_ci_refl s)

named-erase_all :
    (name : Bytes) (fields more : ResponseHeaders)
    → named name (erase_all name fields ++ more) ≡ named name more
unfolding named erase_all
named-erase_all name [] more = refl
named-erase_all name ((n, v) ∷ fields) more = elim (Bool-cases (same_ci n name)) [
  | inl same ↦ rw same (named-erase_all name fields more)
  | inr other ↦ rw (other, other) (named-erase_all name fields more)
]

erase_all-again :
    (name value : Bytes) (fields : ResponseHeaders)
    → erase_all name (erase_all name fields ++ (name, value) ∷ []) ≡ erase_all name fields
unfolding erase_all
erase_all-again name value [] = rw (same_ci_refl name)
erase_all-again name value ((n, v) ∷ fields) = elim (Bool-cases (same_ci n name)) [
  | inl same ↦ rw same (erase_all-again name value fields)
  | inr other ↦ rw (other, other, erase_all-again name value fields)
]

-- After a header is set, it is the only field with its name, whatever the case of the letters, and
-- the fields with other names are as before and in the same order.
pub named-set_header :
    {B : Type 0} (p : HttpResponse B) (name value : Bytes)
    → (named name (set_header p name value).headers ≡ (name, value) ∷ [])
      × (erase_all name (set_header p name value).headers ≡ erase_all name p.headers)
unfolding set_header named
named-set_header p name value = (
  named-erase_all name p.headers ((name, value) ∷ []) ∙ rw (same_ci_refl name),
  erase_all-again name value p.headers,
)
