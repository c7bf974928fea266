-- ===== src/Queue/Drain.antt =====
-- What was pushed is called, when the background thread is left to run.
use httpuv.Base.{
  ℕ, zero, suc, ◌+◌, ◌-◌, ◌*◌, ◌≤◌, ◌≡◌, refl, sym, ap, ◌∙◌, arith, Bool, true, false, List, [],
  ◌∷◌, append-nil, ◌==◌, if◌then◌else◌, length,
}
use httpuv.Queue.{Phase, outside, at_loop, before_call, System, wake, flush_step, Reach}
use httpuv.Queue.Order.{
  IsConsistent, with_parts, flush_step-IsConsistent, wake-IsConsistent, Reach-IsConsistent,
}

-- The next step of the background thread, which wakes when it is outside of `flush`.
unfoldable pub background_step : {C : Type 0} → System C → System C
background_step s = elim s.phase [
  | outside ↦ if s.signalled then wake s else s
  | at_loop ↦ flush_step s
  | before_call cb ↦ flush_step s
]

unfoldable pub alone : {C : Type 0} → ℕ → System C → System C
unfolding background_step
alone zero s = s
alone (suc n) s = alone n (background_step s)

abbrev to_go : {C : Type 0} → System C → ℕ
to_go s =
    2 * length s.q
    + (if s.signalled then 2 else 0)
    + elim s.phase [ outside ↦ 0 | at_loop ↦ 1 | before_call cb ↦ 2 ]

-- What one step of the background thread keeps, and that it comes nearer to the end.
record Advances {C : Type 0} (s t : System C) : Type 0 where
  pushing_kept : t.pushing ≡ s.pushing
  pushed_kept : t.pushed ≡ s.pushed
  nearer : to_go t ≤ to_go s - 1
  consistent : IsConsistent t

module _ {C : Type 0} where
  step_parts :
      (q : List C) (g : Bool) (phase : Phase C) (pushed called : List C)
      → IsConsistent (with_parts q g 0 phase pushed called)
      → Advances
          (with_parts q g 0 phase pushed called)
          (background_step (with_parts q g 0 phase pushed called))
  unfolding background_step flush_step wake
  step_parts q true outside pushed called inv = record {
    pushing_kept = refl;
    pushed_kept = refl;
    nearer = omega arith;
    consistent = wake-IsConsistent _ refl inv;
  }
  step_parts q false outside pushed called inv =
      let none_left : length q ≡ 0 = ap length (inv.not_lost refl) in
      record {
        pushing_kept = refl;
        pushed_kept = refl;
        nearer = omega (arith, none_left);
        consistent = inv;
      }
  step_parts [] g at_loop pushed called inv = record {
    pushing_kept = refl;
    pushed_kept = refl;
    nearer = omega arith;
    consistent = flush_step-IsConsistent _ inv;
  }
  step_parts (cb ∷ q) g at_loop pushed called inv =
      let some_left : (suc (length q) == 0) ≡ false = ground arith in
      record {
        pushing_kept = rw some_left;
        pushed_kept = rw some_left;
        nearer = rw some_left (omega arith);
        consistent = flush_step-IsConsistent _ inv;
      }
  step_parts q g (before_call cb) pushed called inv = record {
    pushing_kept = refl;
    pushed_kept = refl;
    nearer = omega arith;
    consistent = flush_step-IsConsistent _ inv;
  }

  at_zero :
      (n : ℕ) (q : List C) (g : Bool) (phase : Phase C) (pushed called : List C)
      → n ≡ 0
      → IsConsistent (with_parts q g n phase pushed called)
      → Advances
          (with_parts q g n phase pushed called)
          (background_step (with_parts q g n phase pushed called))
  at_zero zero q g phase pushed called e inv = step_parts q g phase pushed called inv
  at_zero (suc n) q g phase pushed called e inv = absurd (omega (arith, e))

  step-Advances : (s : System C) → s.pushing ≡ 0 → IsConsistent s → Advances s (background_step s)
  step-Advances s e inv = at_zero s.pushing s.q s.signalled s.phase s.pushed s.called e inv

  parts_left :
      (q : List C) (g : Bool) (n : ℕ) (phase : Phase C) (pushed called : List C)
      → to_go (with_parts q g n phase pushed called) ≡ 0
      → IsConsistent (with_parts q g n phase pushed called)
      → (called ≡ pushed) × (q ≡ [])
  parts_left [] g n outside pushed called e inv = (sym (append-nil called) ∙ inv.in_order, refl)
  parts_left (cb ∷ q) g n outside pushed called e inv = absurd (omega (arith, e))
  parts_left q g n at_loop pushed called e inv = absurd (omega (arith, e))
  parts_left q g n (before_call cb) pushed called e inv = absurd (omega (arith, e))

  to_go_bound :
      (q : List C) (g : Bool) (n : ℕ) (phase : Phase C) (pushed called : List C)
      → to_go (with_parts q g n phase pushed called) ≤ 2 * length q + 4
  to_go_bound q true n outside pushed called = omega arith
  to_go_bound q false n outside pushed called = omega arith
  to_go_bound q true n at_loop pushed called = omega arith
  to_go_bound q false n at_loop pushed called = omega arith
  to_go_bound q true n (before_call cb) pushed called = omega arith
  to_go_bound q false n (before_call cb) pushed called = omega arith

  called_all :
      (n : ℕ) (s : System C)
      → s.pushing ≡ 0
      → IsConsistent s
      → to_go s ≤ n
      → ((alone n s).called ≡ s.pushed) × ((alone n s).q ≡ [])
  unfolding alone
  called_all zero s e inv h =
      parts_left s.q s.signalled s.pushing s.phase s.pushed s.called (omega arith) inv
  called_all (suc n) s e inv h =
      let adv = step-Advances s e inv in
      let rest =
        called_all n (background_step s) (adv.pushing_kept ∙ e) adv.consistent
          (omega (arith, adv.nearer)) in
      (rest.0 ∙ adv.pushed_kept, rest.1)

  -- In every state that the threads can reach and in which no thread is in `push`: when the
  -- background thread takes n steps, where n is twice the length of the queue and four or more,
  -- every callback that was pushed has been called, once and in the order of the pushes, and the
  -- queue is empty.
  pub alone-called :
      {s : System C} {n : ℕ}
      → Reach s
      → s.pushing ≡ 0
      → 2 * length s.q + 4 ≤ n
      → ((alone n s).called ≡ s.pushed) × ((alone n s).q ≡ [])
  alone-called {s} {n} r e h =
      called_all n s e (Reach-IsConsistent r)
        (omega (arith, to_go_bound s.q s.signalled s.pushing s.phase s.pushed s.called))
