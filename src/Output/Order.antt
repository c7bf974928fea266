-- ===== src/Output/Order.antt =====
-- The order of the calls of ExtendedWrite, whatever the source and the stream do.
use httpuv.Base.{
  ℕ, suc, ◌+◌, ◌-◌, ◌≤◌, ◌≡◌, refl, arith, Bool, true, false, ◌&&◌, ◌||◌, List, [], ◌∷◌, ◌++◌,
  Bytes, ◌==◌, if◌then◌else◌, length, Option-cases, Bool-cases, inl, inr,
}
use httpuv.Output.{
  DataSource, Output, uv_write, close_source, write_complete, ExtendedWrite, new_extended_write,
  finish, write_data, next, begin, end_write, prefix_of, suffix_of,
}

-- How often a write is started, and how often the end is announced.
unfoldable pub started : List Output → ℕ
started [] = 0
started (uv_write p b s ∷ log) = suc (started log)
started (close_source ∷ log) = started log
started (write_complete status ∷ log) = started log

unfoldable pub announced : List Output → ℕ
announced [] = 0
announced (uv_write p b s ∷ log) = announced log
announced (close_source ∷ log) = announced log
announced (write_complete status ∷ log) = suc (announced log)

module _ {S : Type 0} (d : DataSource S) where
  -- Writes end one after the other; the list says of each whether the stream's queue is empty. When
  -- none is active, none can end.
  unfoldable pub ends : List Bool → ExtendedWrite S → ExtendedWrite S × List Output
  ends [] w = (w, [])
  ends (queue_empty ∷ qs) w =
      let (v, log) = end_write d queue_empty w in
      let (u, later) = ends qs v in if w.active_writes == 0 then (w, []) else (u, log ++ later)

  unfoldable pub write_all : S → Bool → List Bool → ExtendedWrite S × List Output
  unfolding ends
  write_all source chunked qs =
      let (w, log) = begin d (new_extended_write source chunked) in
      let (v, later) = ends qs w in (v, log ++ later)

announced-append : (s t : List Output) → announced (s ++ t) ≡ announced s + announced t
unfolding announced
announced-append [] t = omega arith
announced-append (uv_write p b f ∷ s) t = announced-append s t
announced-append (close_source ∷ s) t = announced-append s t
announced-append (write_complete status ∷ s) t = omega (arith, announced-append s t)

-- A step after which a write is active or the end is announced, not both.
abbrev Moves : {S : Type 0} → ExtendedWrite S × List Output → Type 0
Moves (v, log) = announced log + v.active_writes ≡ 1

module _ {S : Type 0} (d : DataSource S) where
  finish-Moves : (w : ExtendedWrite S) → w.active_writes ≡ 0 → Moves (finish d w)
  unfolding finish announced
  finish-Moves w e = ground (arith, e)

  write_data-Moves :
      (w : ExtendedWrite S) (buf : Bytes) → w.active_writes ≡ 0 → Moves (write_data d w buf)
  unfolding write_data announced
  write_data-Moves w buf e =
      let v = record w { completed = if length buf == 0 then true else w.completed } in
      let none_written =
        (length (prefix_of w.chunked buf) == 0)
        && (length buf == 0)
        && (length (suffix_of w.chunked buf) == 0) in
      elim (Bool-cases none_written) [
        | inl empty ↦ rw empty (finish-Moves v e)
        | inr full ↦ rw (full, e)
      ]

  next-Moves : (w : ExtendedWrite S) → w.active_writes ≡ 0 → Moves (next d w)
  unfolding next
  next-Moves w e = elim (Bool-cases (w.errored || w.completed)) [
    | inl over ↦ rw over (finish-Moves w e)
    | inr going ↦ elim (Option-cases (d.get_data 65536 w.source)) [
      | inl failed ↦ rw (going, failed) (finish-Moves (record w { errored = true }) e)
      | inr ((buf, source), got) ↦
          rw (going, got) (write_data-Moves (record w { source = source }) buf e)
    ]
  ]

  end_write_uses :
      (queue_empty : Bool) (w : ExtendedWrite S)
      → w.active_writes ≡ 1
      → announced (end_write d queue_empty w).1 + (end_write d queue_empty w).0.active_writes ≤ 1
  unfolding end_write announced
  end_write_uses true w e =
      omega
        (arith, next-Moves (record w { active_writes = w.active_writes - 1 }) (omega (arith, e)))
  end_write_uses false w e = omega (arith, e)

  ends_use :
      (qs : List Bool) (w : ExtendedWrite S)
      → w.active_writes ≤ 1
      → announced (ends d qs w).1 + (ends d qs w).0.active_writes ≤ w.active_writes
  unfolding ends announced
  ends_use [] w h = omega arith
  ends_use (q ∷ qs) w h = elim (Bool-cases (w.active_writes == 0)) [
    | inl idle ↦ rw idle (ground arith)
    | inr active ↦
        let one : w.active_writes ≡ 1 = ground arith in
        let v = (end_write d q w).0 in
        let used = end_write_uses q w one in
        rw (active, announced-append)
          (omega (arith, one, used, ends_use qs v (omega (arith, used))))
  ]

  -- Whatever the source gives, also exceptions, and in whatever state the stream is when a write
  -- ends: one write at most is active at the end, the completion is announced at most once, and
  -- not while a write is active, so that no write ends after it.
  pub announced-write_all :
      (source : S) (chunked : Bool) (qs : List Bool)
      → announced (write_all d source chunked qs).1
          + (write_all d source chunked qs).0.active_writes
        ≤ 1
  unfolding write_all
  announced-write_all source chunked qs =
      let w = (next d (new_extended_write source chunked)).0 in
      let first = next-Moves (new_extended_write source chunked) refl in
      rw announced-append (omega (arith, first, ends_use qs w (omega (arith, first))))
