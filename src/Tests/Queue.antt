-- ===== src/Tests/Queue.antt =====
-- A run of two pushes, each callback a number.
use httpuv.Base.{ℕ, ◌≡◌, refl, arith, true, [], ◌∷◌}
use httpuv.Queue.{
  at_loop, System, push_item, send_signal, wake, pushes, sends, wakes, Reach, start, later,
}
use httpuv.Queue.Order.{IsConsistent, Reach-IsConsistent}
use httpuv.Queue.Drain.{alone, alone-called}

-- The second push comes while the background thread is in `flush`.
abbrev two_pushed : System ℕ
two_pushed = record {
  q = 5 ∷ 6 ∷ [];
  signalled = true;
  pushing = 0;
  phase = at_loop;
  pushed = 5 ∷ 6 ∷ [];
  called = [];
}

two_pushed-Reach : Reach two_pushed
unfolding push_item send_signal wake
two_pushed-Reach =
    let pushed = later (start refl) (pushes 5 refl) in
    let sent = later pushed (sends (omega arith) refl) in
    let woken = later sent (wakes refl refl refl) in
    later (later woken (pushes 6 refl)) (sends (omega arith) refl)

Reach-IsConsistent_example : IsConsistent two_pushed
Reach-IsConsistent_example = Reach-IsConsistent two_pushed-Reach

alone-called_example : ((alone 8 two_pushed).called ≡ 5 ∷ 6 ∷ []) × ((alone 8 two_pushed).q ≡ [])
alone-called_example = alone-called {s = two_pushed} {n = 8} two_pushed-Reach refl (omega arith)
