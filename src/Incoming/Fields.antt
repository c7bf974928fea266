-- ===== src/Incoming/Fields.antt =====
-- The headers of a request, in whatever pieces they come.
use httpuv.Base.{
  ◌≡◌, ◌↔◌, refl, ap, ◌∙◌, arith, Bool, true, false, List, [], ◌∷◌, ◌++◌, append_assoc, append-nil,
  Bytes, bytes_eq, ==_iff, if◌then◌else◌, find, Option, none, some, Bool-cases, inl, inr, All,
}
use httpuv.Headers.{RequestHeaders, same_ci, to_lower}
use httpuv.Incoming.{
  LastHeaderState, start, field_state, value_state, HttpRequest, on_message_begin, on_header_field,
  put, combined, at_name, on_header_value,
}

-- A header as it comes: the first piece of its name and the others, and those of its value.
pub record Pieces : Type 0 where
  pub name : Bytes
  pub name_more : List Bytes
  pub value : Bytes
  pub value_more : List Bytes

unfoldable pub whole : List Bytes → Bytes
whole [] = []
whole (piece ∷ pieces) = piece ++ whole pieces

-- A value with an empty first piece has no other.
unfoldable pub IsCut : Pieces → Type 0
IsCut p = bytes_eq p.value [] ≡ true → p.value_more ≡ []

receive_fields : HttpRequest → List Bytes → HttpRequest
receive_fields r [] = r
receive_fields r (piece ∷ pieces) = receive_fields (on_header_field r piece) pieces

receive_values : HttpRequest → List Bytes → HttpRequest
receive_values r [] = r
receive_values r (piece ∷ pieces) = receive_values (on_header_value r piece) pieces

-- The callbacks for one header.
receive : HttpRequest → Pieces → HttpRequest
unfolding receive_fields receive_values
receive r p =
    receive_values (on_header_value (receive_fields (on_header_field r p.name) p.name_more) p.value)
      p.value_more

abbrev pub full_name : Pieces → Bytes
full_name p = p.name ++ whole p.name_more

abbrev pub full_value : Pieces → Bytes
full_value p = p.value ++ whole p.value_more

pub receive_all : HttpRequest → List Pieces → HttpRequest
unfolding receive
receive_all r [] = r
receive_all r (p ∷ ps) = receive_all (receive r p) ps

-- The value of a name, header by header.
unfoldable pub value_from : Option Bytes → Bytes → List Pieces → Option Bytes
value_from so_far name [] = so_far
value_from so_far name (p ∷ ps) =
    value_from
      (if same_ci name (full_name p) then some (combined so_far (full_value p)) else so_far) name ps

lower : Bytes → Bytes
lower [] = []
lower (c ∷ s) = to_lower c ∷ lower s

same_ci_iff : (s t : Bytes) → (same_ci s t ≡ true) ↔ (lower s ≡ lower t)
unfolding same_ci lower
same_ci_iff [] [] = ground arith
same_ci_iff [] (b ∷ t) = ground arith
same_ci_iff (a ∷ s) [] = ground arith
same_ci_iff (a ∷ s) (b ∷ t) = ground (arith, ==_iff (to_lower a) (to_lower b), same_ci_iff s t)

find-put :
    (k j v : Bytes) (m : RequestHeaders)
    → find same_ci j (put k v m) ≡ (if same_ci j k then some v else find same_ci j m)
unfolding find put
find-put k j v [] = ground arith
find-put k j v ((l, u) ∷ m) =
    ground (arith, find-put k j v m, same_ci_iff k l, same_ci_iff j l, same_ci_iff j k)

find-same :
    (j k : Bytes) (m : RequestHeaders) → same_ci j k ≡ true → find same_ci j m ≡ find same_ci k m
unfolding find
find-same j k [] e = refl
find-same j k ((l, u) ∷ m) e =
    ground (arith, find-same j k m e, same_ci_iff j k, same_ci_iff j l, same_ci_iff k l)

put-put : (k v w : Bytes) (m : RequestHeaders) → put k w (put k v m) ≡ put k w m
unfolding put
put-put k v w [] = let same : same_ci k k ≡ true = ground (arith, same_ci_iff k k) in rw same
put-put k v w ((l, u) ∷ m) = elim (Bool-cases (same_ci k l)) [
  | inl same ↦ rw (same, same)
  | inr other ↦ rw (other, other, put-put k v w m)
]

at_name-put : (k v : Bytes) (m : RequestHeaders) → at_name k (put k v m) ≡ v
unfolding at_name
at_name-put k v m =
    let same : same_ci k k ≡ true = ground (arith, same_ci_iff k k) in
    rw (find-put k k v m, same, at_name)

-- The request at a header.
abbrev at_header : HttpRequest → LastHeaderState → Bytes → RequestHeaders → HttpRequest
at_header r state field headers = record r {
  last_header_state = state;
  last_header_field = field;
  headers = headers;
}

receive_fields_lem :
    (r : HttpRequest) (f : Bytes) (h : RequestHeaders) (ps : List Bytes)
    → receive_fields (at_header r field_state f h) ps ≡ at_header r field_state (f ++ whole ps) h
unfolding receive_fields on_header_field whole
receive_fields_lem r f h [] = rw (append-nil f)
receive_fields_lem r f h (p ∷ ps) =
    rw (receive_fields_lem r (f ++ p) h ps, append_assoc f p (whole ps))

receive_values_lem :
    (r : HttpRequest) (n v : Bytes) (h : RequestHeaders) (ps : List Bytes)
    → receive_values (at_header r value_state n (put n v h)) ps
      ≡ at_header r value_state n (put n (v ++ whole ps) h)
unfolding receive_values on_header_value whole
receive_values_lem r n v h [] = rw (append-nil v)
receive_values_lem r n v h (p ∷ ps) = rw (
  at_name-put n v h,
  put-put n v (v ++ p) h,
  receive_values_lem r n (v ++ p) h ps,
  append_assoc v p (whole ps),
)

is_ready : LastHeaderState → Bool
is_ready start = true
is_ready field_state = false
is_ready value_state = true

combined-append :
    (o : Option Bytes) (v rest : Bytes)
    → (bytes_eq v [] ≡ true → rest ≡ [])
    → combined o v ++ rest ≡ combined o (v ++ rest)
unfolding combined bytes_eq
combined-append none v rest cut = refl
combined-append (some old) v rest cut = elim (Bool-cases (bytes_eq old [])) [
  | inl empty ↦ rw empty
  | inr full ↦ cut_value old v rest cut full
]
  where
    cut_value :
        (old v rest : Bytes)
        → (bytes_eq v [] ≡ true → rest ≡ [])
        → bytes_eq old [] ≡ false
        → combined (some old) v ++ rest ≡ combined (some old) (v ++ rest)
    cut_value old [] rest cut full = rw (cut refl, full, append-nil old)
    cut_value old (c ∷ v) rest cut full = rw full (append_assoc old (b',' ∷ c ∷ v) rest)

on_header_field-ready :
    (r : HttpRequest) (state : LastHeaderState) (f name : Bytes) (h : RequestHeaders)
    → is_ready state ≡ true
    → on_header_field (at_header r state f h) name ≡ at_header r field_state name h
unfolding on_header_field is_ready
on_header_field-ready r start f name h e = refl
on_header_field-ready r field_state f name h e = absurd (ground (arith, e))
on_header_field-ready r value_state f name h e = refl

receive_lem :
    (r : HttpRequest) (state : LastHeaderState) (f : Bytes) (h : RequestHeaders) (p : Pieces)
    → is_ready state ≡ true
    → IsCut p
    → receive (at_header r state f h) p
      ≡ at_header r value_state
          (full_name p)
          (put (full_name p) (combined (find same_ci (full_name p) h) (full_value p)) h)
unfolding receive on_header_value IsCut
receive_lem r state f h p e cut =
    let n = full_name p in
    let rest : bytes_eq p.value [] ≡ true → whole p.value_more ≡ [] =
      λ empty. ap whole (cut empty) ∙ unfold whole in refl in
    ap (λ x. receive_values (on_header_value (receive_fields x p.name_more) p.value) p.value_more)
      (on_header_field-ready r state f p.name h e)
    ∙ ap (λ x. receive_values (on_header_value x p.value) p.value_more)
        (receive_fields_lem r p.name h p.name_more)
    ∙ receive_values_lem r n (combined (find same_ci n h) p.value) h p.value_more
    ∙ ap (λ v. at_header r value_state n (put n v h))
        (combined-append (find same_ci n h) p.value (whole p.value_more) rest)

value_step :
    (n j w : Bytes) (h : RequestHeaders)
    → find same_ci j (put n (combined (find same_ci n h) w) h)
      ≡ (if same_ci j n then some (combined (find same_ci j h) w) else find same_ci j h)
value_step n j w h = elim (Bool-cases (same_ci j n)) [
  | inl same ↦ rw (find-put n j (combined (find same_ci n h) w) h, same, find-same j n h same)
  | inr other ↦ rw (find-put n j (combined (find same_ci n h) w) h, other)
]

receive_all_lem :
    (r : HttpRequest) (state : LastHeaderState) (f : Bytes) (h : RequestHeaders) (ps : List Pieces)
    (j : Bytes)
    → is_ready state ≡ true
    → All IsCut ps
    → find same_ci j (receive_all (at_header r state f h) ps).headers
      ≡ value_from (find same_ci j h) j ps
unfolding receive_all value_from is_ready
receive_all_lem r state f h [] j e cuts = refl
receive_all_lem r state f h (p ∷ ps) j e (cut, cuts) =
    let n = full_name p in
    let v = combined (find same_ci n h) (full_value p) in
    ap (λ x. find same_ci j (receive_all x ps).headers) (receive_lem r state f h p e cut)
    ∙ receive_all_lem r value_state n (put n v h) ps j refl cuts
    ∙ ap (λ o. value_from o j ps) (value_step n j (full_value p) h)

pub find-from :
    (r : HttpRequest) (ps : List Pieces) (name : Bytes)
    → All IsCut ps
    → find same_ci name (receive_all (on_message_begin r) ps).headers ≡ value_from none name ps
unfolding on_message_begin is_ready find
find-from r ps name cuts =
    receive_all_lem (on_message_begin r) start r.last_header_field [] ps name refl cuts
