-- ===== src/Queue.antt =====
-- The queue of callbacks for the background thread: src/tqueue.h, src/callbackqueue.cpp. Each access
-- under the mutex is one step, and any number of threads push. `uv_async_send` sets a flag, which
-- stands for any number of its calls; the loop of libuv clears it and then calls `flush`.
pub mod Order
pub mod Drain
use httpuv.Base.{
  ℕ, ◌+◌, ◌-◌, ◌<◌, ◌≡◌, Bool, true, false, List, [], ◌∷◌, ◌++◌, ◌==◌, if◌then◌else◌, length, drop,
  Option, none, some,
}

-- tqueue. `front` of an empty queue, which is undefined, is `none`.
abbrev pub push_back : {C : Type 0} → List C → C → List C
push_back q item = q ++ item ∷ []

abbrev pub front : {C : Type 0} → List C → Option C
front [] = none
front (item ∷ q) = some item

abbrev pub pop_front : {C : Type 0} → List C → List C
pop_front q = drop 1 q

-- Where the background thread stands: outside `flush`, at the head of its loop, or before the call
-- of the callback it took.
pub data Phase (C : Type 0) : Type 0 where
  outside : Phase C
  at_loop : Phase C
  before_call : C → Phase C

-- `pushing` counts the threads between the two lines of `push`. `pushed` and `called` are logs.
pub record System (C : Type 0) : Type 0 where
  pub q : List C
  pub signalled : Bool
  pub pushing : ℕ
  pub phase : Phase C
  pub pushed : List C
  pub called : List C

abbrev pub new_system : {C : Type 0} → System C
new_system = record {
  q = [];
  signalled = false;
  pushing = 0;
  phase = outside;
  pushed = [];
  called = [];
}

-- The two lines of CallbackQueue::push.
unfoldable pub push_item : {C : Type 0} → System C → C → System C
push_item s cb = record s {
  q = push_back s.q cb;
  pushing = s.pushing + 1;
  pushed = s.pushed ++ cb ∷ [];
}

unfoldable pub send_signal : {C : Type 0} → System C → System C
send_signal s = record s { pushing = s.pushing - 1; signalled = true }

-- The loop of libuv calls `flush_callback_queue`.
unfoldable pub wake : {C : Type 0} → System C → System C
wake s = record s { signalled = false; phase = at_loop }

-- One step in CallbackQueue::flush.
unfoldable pub flush_step : {C : Type 0} → System C → System C
flush_step s = elim s.phase [
  | outside ↦ s
  | at_loop ↦ if length s.q == 0 then record s { phase = outside } else elim (front s.q) [
    | none ↦ record s { phase = outside }
    | some cb ↦ record s { q = pop_front s.q; phase = before_call cb }
  ]
  | before_call cb ↦ record s { phase = at_loop; called = s.called ++ cb ∷ [] }
]

-- What may happen: a push by any thread, also by a callback while it runs, and the steps of the
-- background thread.
pub data Step {C : Type 0} (s t : System C) : Type 0 where
  pushes : (cb : C) → t ≡ push_item s cb → Step s t
  sends : 0 < s.pushing → t ≡ send_signal s → Step s t
  wakes : s.phase ≡ outside → s.signalled ≡ true → t ≡ wake s → Step s t
  flushes : t ≡ flush_step s → Step s t

pub data Reach {C : Type 0} : System C → Type 0 where
  start : {s : System C} → s ≡ new_system → Reach s
  later : {s t : System C} → Reach s → Step s t → Reach t
