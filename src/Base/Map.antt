-- ===== src/Base/Map.antt =====
-- `std::map` with text keys as an association list; the equality of the keys is an argument.
use mathlib.Core.Path.{◌≡◌}
use mathlib.Core.Bool.{Bool}
use mathlib.Core.Option.{Option, none, some}
use mathlib.Core.List.{List, [], ◌∷◌}
use native.Mathlib.Omega.{arith}
use httpuv.Base.Tests.{if◌then◌else◌}
use httpuv.Base.Text.{Bytes, bytes_eq, bytes_eq_iff}

module _ {ℓ} {V : Type ℓ} (eq : Bytes → Bytes → Bool) where
  unfoldable pub find : Bytes → List (Bytes × V) → Option V
  find k [] = none
  find k ((l, v) ∷ kvs) = if eq k l then some v else find k kvs

  -- A key that is there keeps its value.
  unfoldable pub insert : Bytes → V → List (Bytes × V) → List (Bytes × V)
  insert k v [] = (k, v) ∷ []
  insert k v ((l, w) ∷ kvs) = if eq k l then (l, w) ∷ kvs else (l, w) ∷ insert k v kvs

  -- A write through the iterator that `find` returns.
  unfoldable pub assign : Bytes → V → List (Bytes × V) → List (Bytes × V)
  assign k v [] = []
  assign k v ((l, w) ∷ kvs) = if eq k l then (l, v) ∷ kvs else (l, w) ∷ assign k v kvs

  -- The first entry with the key.
  unfoldable pub erase : Bytes → List (Bytes × V) → List (Bytes × V)
  erase k [] = []
  erase k ((l, w) ∷ kvs) = if eq k l then kvs else (l, w) ∷ erase k kvs

module _ {ℓ} {V : Type ℓ} where
  pub find-assign :
      (k j : Bytes) (v w : V) (kvs : List (Bytes × V))
      → find bytes_eq k kvs ≡ some w
      → find bytes_eq j (assign bytes_eq k v kvs)
        ≡ (if bytes_eq j k then some v else find bytes_eq j kvs)
  unfolding find assign
  find-assign k j v w [] h = ground arith
  find-assign k j v w ((l, u) ∷ kvs) h =
      ground (arith, find-assign k j v w kvs, bytes_eq_iff k l, bytes_eq_iff j l, bytes_eq_iff j k)

  pub find-insert :
      (k j : Bytes) (v : V) (kvs : List (Bytes × V))
      → find bytes_eq k kvs ≡ none
      → find bytes_eq j (insert bytes_eq k v kvs)
        ≡ (if bytes_eq j k then some v else find bytes_eq j kvs)
  unfolding find insert
  find-insert k j v [] h = ground arith
  find-insert k j v ((l, u) ∷ kvs) h =
      ground (arith, find-insert k j v kvs, bytes_eq_iff k l, bytes_eq_iff j l, bytes_eq_iff j k)

  pub insert_found :
      (k : Bytes) (v w : V) (kvs : List (Bytes × V))
      → find bytes_eq k kvs ≡ some w
      → insert bytes_eq k v kvs ≡ kvs
  unfolding find insert
  insert_found k v w [] h = ground arith
  insert_found k v w ((l, u) ∷ kvs) h = ground (arith, insert_found k v w kvs)
