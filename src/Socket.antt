-- ===== src/Socket.antt =====
-- The connections of a Socket (src/socket.h, src/socket.cpp), each a number, with what
-- HttpRequest::close does to the list.
pub mod Emptied
use httpuv.Base.{
  ℕ, zero, suc, Bool, true, false, List, [], ◌∷◌, ◌++◌, ◌==◌, if◌then◌else◌, length, Option, none,
  some,
}

-- `closing` are the connections whose `_is_closing` is set, in the order in which it was set.
pub record Socket : Type 0 where
  pub connections : List ℕ
  pub closing : List ℕ

abbrev pub add_connection : Socket → ℕ → Socket
add_connection s request = record s { connections = s.connections ++ request ∷ [] }

-- `std::remove` and `erase`.
unfoldable pub without : ℕ → List ℕ → List ℕ
without request [] = []
without request (c ∷ cs) = let rest = without request cs in if c == request then rest else c ∷ rest

unfoldable pub remove_connection : Socket → ℕ → Socket
unfolding without
remove_connection s request = record s { connections = without request s.connections }

unfoldable pub is_member : ℕ → List ℕ → Bool
is_member request [] = false
is_member request (c ∷ cs) = if c == request then true else is_member request cs

-- HttpRequest::close on the socket's list.
unfoldable pub close_connection : Socket → ℕ → Socket
unfolding is_member remove_connection
close_connection s request =
    if is_member request s.closing
    then s
    else remove_connection (record s { closing = s.closing ++ request ∷ [] }) request

-- An element of the vector; past its end, where the access is undefined, `none`.
unfoldable pub get_elem? : List ℕ → ℕ → Option ℕ
get_elem? [] i = none
get_elem? (c ∷ cs) zero = some c
get_elem? (c ∷ cs) (suc i) = get_elem? cs i

-- The loop of Socket::close from `rbegin()`, taken before the first round, to `rend()`: the iterator
-- is a place, one behind the element that it gives, and each round reads the vector as it is then.
unfoldable pub close_loop : ℕ → Socket → Option Socket
unfolding close_connection get_elem?
close_loop zero s = some s
close_loop (suc i) s = elim (get_elem? s.connections i) [
  | none ↦ none
  | some request ↦ close_loop i (close_connection s request)
]

abbrev pub close_socket : Socket → Option Socket
close_socket s = close_loop (length s.connections) s
