-- ===== src/Incoming/Commas.antt =====
-- The value of a header that comes several times.
use httpuv.Base.{
  ℕ, ◌≡◌, refl, ap, ◌∙◌, List, [], ◌∷◌, ◌++◌, append_assoc, Bytes, bytes, bytes_eq, if◌then◌else◌,
  find, Option, none, some, Bool-cases, inl, inr, All,
}
use httpuv.Headers.{same_ci}
use httpuv.Incoming.{HttpRequest, on_message_begin, combined}
use httpuv.Incoming.Fields.{
  Pieces, full_name, full_value, IsCut, receive_all, value_from, find-from,
}

-- The values of the headers with a name, in their order.
unfoldable pub values : Bytes → List Pieces → List Bytes
values name [] = []
values name (p ∷ ps) =
    let rest = values name ps in if same_ci name (full_name p) then full_value p ∷ rest else rest

unfoldable pub filled : List Bytes → List Bytes
filled [] = []
filled (v ∷ vs) = let rest = filled vs in if bytes_eq v [] then rest else v ∷ rest

with_commas : Bytes → List Bytes → Bytes
with_commas v [] = v
with_commas v (w ∷ ws) = v ++ (bytes "," ++ with_commas w ws)

unfoldable pub joined_values : List Bytes → Bytes
unfolding with_commas
joined_values [] = []
joined_values (v ∷ vs) = with_commas v vs

-- No value without such a header, else those that are not empty with commas between them.
unfoldable pub value_of : List Bytes → Option Bytes
unfolding filled joined_values
value_of [] = none
value_of (v ∷ vs) = some (joined_values (filled (v ∷ vs)))

with_commas-append :
    (a b : Bytes) (ws : List Bytes) → with_commas (a ++ b) ws ≡ a ++ with_commas b ws
unfolding with_commas
with_commas-append a b [] = refl
with_commas-append a b (w ∷ ws) = append_assoc a b (bytes "," ++ with_commas w ws)

gathered : Option Bytes → List Bytes → Option Bytes
gathered so_far [] = so_far
gathered so_far (v ∷ vs) = gathered (some (combined so_far v)) vs

value_from-gathered :
    (so_far : Option Bytes) (name : Bytes) (ps : List Pieces)
    → value_from so_far name ps ≡ gathered so_far (values name ps)
unfolding value_from gathered values
value_from-gathered so_far name [] = refl
value_from-gathered so_far name (p ∷ ps) = elim (Bool-cases (same_ci name (full_name p))) [
  | inl same ↦ rw same (value_from-gathered (some (combined so_far (full_value p))) name ps)
  | inr other ↦ rw other (value_from-gathered so_far name ps)
]

gathered-full :
    (c : ℕ) (s : Bytes) (vs : List Bytes)
    → gathered (some (c ∷ s)) vs ≡ some (with_commas (c ∷ s) (filled vs))
unfolding gathered filled with_commas combined bytes_eq
gathered-full c s [] = refl
gathered-full c s ([] ∷ vs) = gathered-full c s vs
gathered-full c s ((d ∷ v) ∷ vs) =
    gathered-full c (s ++ (bytes "," ++ (d ∷ v))) vs
    ∙ ap some (
        with_commas-append (c ∷ s) (bytes "," ++ (d ∷ v)) (filled vs)
        ∙ ap (λ t. (c ∷ s) ++ t) (with_commas-append (bytes ",") (d ∷ v) (filled vs)))

gathered-empty : (vs : List Bytes) → gathered (some []) vs ≡ some (joined_values (filled vs))
unfolding gathered filled joined_values combined bytes_eq
gathered-empty [] = refl
gathered-empty ([] ∷ vs) = gathered-empty vs
gathered-empty ((d ∷ v) ∷ vs) = gathered-full d v vs

gathered-value_of : (vs : List Bytes) → gathered none vs ≡ value_of vs
unfolding gathered value_of combined bytes_eq
gathered-value_of [] = refl
gathered-value_of (v ∷ vs) = gathered-empty (v ∷ vs)

-- After the headers of a message have come, in whatever pieces but with no empty first piece of a
-- value that has others: a name, in whatever case, has no value if no header has it; else, its
-- headers' values that are not empty, in their order, with commas between them.
pub find-receive_all :
    (r : HttpRequest) (ps : List Pieces) (name : Bytes)
    → All IsCut ps
    → find same_ci name (receive_all (on_message_begin r) ps).headers ≡ value_of (values name ps)
find-receive_all r ps name cuts =
    find-from r ps name cuts ∙ value_from-gathered none name ps ∙ gathered-value_of (values name ps)
