-- ===== src/Output/Memory.antt =====
-- An InMemoryDataSource gives its bytes from its position on, in pieces.
use httpuv.Base.{
  ℕ, zero, suc, ◌+◌, ◌-◌, ◌≤◌, ◌<◌, ◌≡◌, refl, sym, arith, false, List, [], ◌∷◌, ◌++◌, Bytes, ltb,
  if◌then◌else◌, length, take, drop, take-append-drop, length-take, length-drop, some, Bool-cases,
  inl, inr,
}
use httpuv.Output.{DataSource, InMemoryDataSource, get_memory, in_memory_source}

-- The pieces that a source gives until it has no more, each of 65536 bytes at most.
unfoldable pub Yields : {S : Type 0} → DataSource S → S → List Bytes → Type 0
Yields {S} d source [] = (after : S) × (d.get_data 65536 source ≡ some ([], after))
Yields {S} d source (piece ∷ pieces) =
    (0 < length piece)
    × (length piece ≤ 65536)
    × (after : S) × (d.get_data 65536 source ≡ some (piece, after))
    × Yields d after pieces

abbrev pub joined : List Bytes → Bytes
joined [] = []
joined (piece ∷ pieces) = piece ++ joined pieces

drop_nil : (j : ℕ) → drop {A = ℕ} j [] ≡ []
drop_nil zero = refl
drop_nil (suc j) = refl

drop-drop : (i j : ℕ) (s : Bytes) → drop j (drop i s) ≡ drop (i + j) s
drop-drop zero j s = let e : 0 + j ≡ j = omega arith in rw e
drop-drop (suc i) j [] = rw (drop_nil j, drop_nil (suc i + j))
drop-drop (suc i) j (b ∷ s) =
    let e : suc i + j ≡ suc (i + j) = omega arith in rw e (drop-drop i j s)

drop_all : (s : Bytes) (i : ℕ) → length s ≤ i → drop i s ≡ []
drop_all [] i h = drop_nil i
drop_all (b ∷ s) zero h = absurd (omega arith)
drop_all (b ∷ s) (suc i) h = drop_all s i (omega arith)

module _ (buffer : Bytes) where
  abbrev at_pos : ℕ → InMemoryDataSource
  at_pos p = record { buffer = buffer; pos = p }

  got :
      (p n : ℕ)
      → p ≤ length buffer
      → n ≡ (if ltb 65536 (length buffer - p) then 65536 else length buffer - p)
      → get_memory 65536 (at_pos p) ≡ some (take n (drop p buffer), at_pos (p + n))
  unfolding get_memory
  got p n le e = let within : ltb (length buffer) p ≡ false = ground arith in rw (within, e)

  -- The number of bytes that one call gives.
  size_at : ℕ → ℕ
  size_at p = if ltb 65536 (length buffer - p) then 65536 else length buffer - p

  size_bounds :
      (p : ℕ)
      → p < length buffer
      → (0 < size_at p) × (size_at p ≤ 65536) × (p + size_at p ≤ length buffer)
  unfolding size_at
  size_bounds p h = ground arith

  length-piece : (p : ℕ) → p < length buffer → length (take (size_at p) (drop p buffer)) ≡ size_at p
  length-piece p h =
      omega (arith, length-take (size_at p) (drop p buffer), length-drop p buffer, size_bounds p h)

  one_more :
      (p : ℕ) (pieces : List Bytes)
      → p < length buffer
      → Yields in_memory_source (at_pos (p + size_at p)) pieces
      → joined pieces ≡ drop (p + size_at p) buffer
      → Yields in_memory_source (at_pos p) (take (size_at p) (drop p buffer) ∷ pieces)
        × (joined (take (size_at p) (drop p buffer) ∷ pieces) ≡ drop p buffer)
  one_more p pieces h y j = (
    unfold Yields in
        (
          rw (length-piece p h) (size_bounds p h).0,
          rw (length-piece p h) (size_bounds p h).1,
          at_pos (p + size_at p),
          got p (size_at p) (omega arith) (unfold size_at in refl),
          y,
        ),
    rw (j, ← drop-drop p (size_at p) buffer) (take-append-drop (size_at p) (drop p buffer)),
  )

  -- From a position within the buffer, the source gives pieces that join to the rest of it.
  pub memory-Yields :
      (fuel p : ℕ)
      → p ≤ length buffer
      → length buffer - p ≤ fuel
      → (pieces : List Bytes) × Yields in_memory_source (at_pos p) pieces
        × (joined pieces ≡ drop p buffer)
  memory-Yields zero p le h = (
    [],
    unfold Yields in (at_pos (p + 0), got p 0 le (ground arith)),
    sym (drop_all buffer p (omega arith)),
  )
  memory-Yields (suc fuel) p le h = elim (Bool-cases (ltb p (length buffer))) [
    | inr over ↦ (
      [],
      unfold Yields in (at_pos (p + 0), got p 0 le (ground arith)),
      sym (drop_all buffer p (ground arith)),
    )
    | inl more ↦
        let lt : p < length buffer = ground arith in
        let bounds = size_bounds p lt in
        let (pieces, y, j) =
          memory-Yields fuel (p + size_at p) (omega (arith, bounds)) (omega (arith, bounds)) in
        let (y', j') = one_more p pieces lt y j in
        (take (size_at p) (drop p buffer) ∷ pieces, y', j')
  ]
