-- ===== src/Queue/Order.antt =====
-- Every callback is called once, in the order of the pushes, and no push is forgotten.
use httpuv.Base.{
  ℕ, suc, ◌≡◌, refl, sym, ap, ◌∙◌, arith, Bool, true, false, ◌&&◌, not, List, [], ◌∷◌, ◌++◌,
  append_assoc, ◌==◌, length,
}
use httpuv.Queue.{
  Phase, outside, at_loop, before_call, System, push_item, send_signal, wake, flush_step, Step,
  pushes, sends, wakes, flushes, Reach, start, later,
}

abbrev pub in_hand : {C : Type 0} → Phase C → List C
in_hand outside = []
in_hand at_loop = []
in_hand (before_call cb) = cb ∷ []

-- No thread is in `push`, and the background thread will not look at the queue.
abbrev pub is_asleep : {C : Type 0} → System C → Bool
is_asleep s =
    (s.pushing == 0)
    && not s.signalled
    && elim s.phase [ outside ↦ true | at_loop ↦ false | before_call cb ↦ false ]

pub record IsConsistent {C : Type 0} (s : System C) : Type 0 where
  pub in_order : s.called ++ (in_hand s.phase ++ s.q) ≡ s.pushed
  pub not_lost : is_asleep s ≡ true → s.q ≡ []

module _ {C : Type 0} where
  push_item-IsConsistent : (s : System C) (cb : C) → IsConsistent s → IsConsistent (push_item s cb)
  unfolding push_item
  push_item-IsConsistent s cb inv = record {
    in_order =
        sym (ap (λ r. s.called ++ r) (append_assoc (in_hand s.phase) s.q (cb ∷ [])))
        ∙ (sym (append_assoc s.called (in_hand s.phase ++ s.q) (cb ∷ []))
            ∙ ap (λ r. r ++ cb ∷ []) inv.in_order);
    not_lost = λ e. absurd (ground (arith, e));
  }

  abbrev pub with_parts : List C → Bool → ℕ → Phase C → List C → List C → System C
  with_parts q signalled pushing phase pushed called = record {
    q = q;
    signalled = signalled;
    pushing = pushing;
    phase = phase;
    pushed = pushed;
    called = called;
  }

  flush_parts :
      (q : List C) (g : Bool) (n : ℕ) (phase : Phase C) (pushed called : List C)
      → IsConsistent (with_parts q g n phase pushed called)
      → IsConsistent (flush_step (with_parts q g n phase pushed called))
  unfolding flush_step
  flush_parts q g n outside pushed called inv = inv
  flush_parts [] g n at_loop pushed called inv = record {
    in_order = inv.in_order;
    not_lost = λ e. refl;
  }
  flush_parts (cb ∷ q) g n at_loop pushed called inv =
      let some_left : (suc (length q) == 0) ≡ false = ground arith in
      rw some_left (record { in_order = inv.in_order; not_lost = λ e. absurd (ground (arith, e)) })
  flush_parts q g n (before_call cb) pushed called inv = record {
    in_order = append_assoc called (cb ∷ []) q ∙ inv.in_order;
    not_lost = λ e. absurd (ground (arith, e));
  }

  pub flush_step-IsConsistent : (s : System C) → IsConsistent s → IsConsistent (flush_step s)
  flush_step-IsConsistent s inv =
      flush_parts s.q s.signalled s.pushing s.phase s.pushed s.called inv

  send_signal-IsConsistent : (s : System C) → IsConsistent s → IsConsistent (send_signal s)
  unfolding send_signal
  send_signal-IsConsistent s inv = record {
    in_order = inv.in_order;
    not_lost = λ e. absurd (ground (arith, e));
  }

  pub wake-IsConsistent :
      (s : System C) → s.phase ≡ outside → IsConsistent s → IsConsistent (wake s)
  unfolding wake
  wake-IsConsistent s o inv = record {
    in_order = ap (λ p. s.called ++ (in_hand p ++ s.q)) (sym o) ∙ inv.in_order;
    not_lost = λ e. absurd (ground (arith, e));
  }

  Step-IsConsistent : {s t : System C} → Step s t → IsConsistent s → IsConsistent t
  Step-IsConsistent (pushes cb e) inv = rw e (push_item-IsConsistent _ cb inv)
  Step-IsConsistent (sends h e) inv = rw e (send_signal-IsConsistent _ inv)
  Step-IsConsistent (wakes o g e) inv = rw e (wake-IsConsistent _ o inv)
  Step-IsConsistent (flushes e) inv = rw e (flush_step-IsConsistent _ inv)

  -- In every state that the threads can reach: the callbacks that were called, the one that is about
  -- to be, and those in the queue are the callbacks that were pushed, in their order; and where no
  -- thread is in `push`, no signal is pending and the background thread is not in `flush`, the
  -- queue is empty.
  pub Reach-IsConsistent : {s : System C} → Reach s → IsConsistent s
  Reach-IsConsistent (start e) = rw e (record { in_order = refl; not_lost = λ e. refl })
  Reach-IsConsistent (later r st) = Step-IsConsistent st (Reach-IsConsistent r)
