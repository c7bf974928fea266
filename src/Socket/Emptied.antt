-- ===== src/Socket/Emptied.antt =====
-- Socket::close closes every connection, although the list shrinks under its iterator.
use httpuv.Base.{
  ℕ, suc, ◌≡◌, refl, ap, ◌∙◌, arith, true, false, List, [], ◌∷◌, ◌++◌, append_assoc, append-nil,
  ◌==◌, length, length-append, some,
}
use httpuv.Socket.{
  Socket, without, remove_connection, is_member, close_connection, get_elem?, close_loop,
  close_socket,
}

-- The last element first.
pub reversed : List ℕ → List ℕ
reversed [] = []
reversed (c ∷ cs) = reversed cs ++ c ∷ []

-- No element twice, and none of `closing`.
unfoldable pub Fresh : List ℕ → List ℕ → Type 0
Fresh closing [] = Unit
Fresh closing (c ∷ cs) = (is_member c closing ≡ false) × (is_member c cs ≡ false) × Fresh closing cs

length-reversed : (cs : List ℕ) → length (reversed cs) ≡ length cs
unfolding reversed
length-reversed [] = refl
length-reversed (c ∷ cs) = omega (arith, length-append (reversed cs) (c ∷ []), length-reversed cs)

get_elem?-last : (cs : List ℕ) (c : ℕ) → get_elem? (cs ++ c ∷ []) (length cs) ≡ some c
unfolding get_elem?
get_elem?-last [] c = refl
get_elem?-last (d ∷ cs) c = get_elem?-last cs c

is_member-snoc :
    (x c : ℕ) (cs : List ℕ)
    → is_member x cs ≡ false
    → (c == x) ≡ false
    → is_member x (cs ++ c ∷ []) ≡ false
unfolding is_member
is_member-snoc x c [] e f = ground (arith, f)
is_member-snoc x c (d ∷ cs) e f = ground (arith, e, f, is_member-snoc x c cs)

is_member-reversed :
    (x : ℕ) (cs : List ℕ) → is_member x cs ≡ false → is_member x (reversed cs) ≡ false
unfolding is_member reversed
is_member-reversed x [] e = refl
is_member-reversed x (c ∷ cs) e =
    is_member-snoc x c (reversed cs) (is_member-reversed x cs (ground (arith, e)))
      (ground (arith, e))

without-last : (c : ℕ) (cs : List ℕ) → is_member c cs ≡ false → without c (cs ++ c ∷ []) ≡ cs
unfolding is_member without
without-last c [] e = let same : (c == c) ≡ true = ground arith in rw same refl
without-last c (d ∷ cs) e =
    let other : (d == c) ≡ false = ground (arith, e) in
    let rest : is_member c cs ≡ false = ground (arith, e) in rw (other, without-last c cs rest) refl

Fresh-snoc :
    (c : ℕ) (closing cs : List ℕ)
    → is_member c cs ≡ false
    → Fresh closing cs
    → Fresh (closing ++ c ∷ []) cs
unfolding Fresh is_member
Fresh-snoc c closing [] e f = tt
Fresh-snoc c closing (d ∷ cs) e (live, alone, rest) =
    let other : (c == d) ≡ false = ground (arith, e) in
    let unmet : is_member c cs ≡ false = ground (arith, e) in
    (is_member-snoc d c closing live other, alone, Fresh-snoc c closing cs unmet rest)

abbrev socket : List ℕ → List ℕ → Socket
socket connections closing = record { connections = connections; closing = closing }

close-last :
    (c : ℕ) (cs closing : List ℕ)
    → is_member c closing ≡ false
    → is_member c cs ≡ false
    → close_connection (socket (reversed cs ++ c ∷ []) closing) c
      ≡ socket (reversed cs) (closing ++ c ∷ [])
unfolding close_connection remove_connection
close-last c cs closing e f = rw (e, without-last c (reversed cs) (is_member-reversed c cs f)) refl

next_round :
    (i : ℕ) (s : Socket) (c : ℕ)
    → get_elem? s.connections i ≡ some c
    → close_loop (suc i) s ≡ close_loop i (close_connection s c)
unfolding close_loop
next_round i s c e = rw (e, close_loop) refl

closed_from :
    (cs closing : List ℕ)
    → Fresh closing cs
    → close_loop (length cs) (socket (reversed cs) closing) ≡ some (socket [] (closing ++ cs))
unfolding Fresh reversed close_loop
closed_from [] closing f = rw (append-nil closing) refl
closed_from (c ∷ cs) closing (live, alone, rest) =
    let last : get_elem? (reversed cs ++ c ∷ []) (length cs) ≡ some c =
      rw (← length-reversed cs) (get_elem?-last (reversed cs) c) in
    rw
      (
        next_round (length cs) (socket (reversed cs ++ c ∷ []) closing) c last,
        close-last c cs closing live alone,
      )
      (closed_from cs (closing ++ c ∷ []) (Fresh-snoc c closing cs alone rest)
        ∙ ap (λ r. some (socket [] r)) (append_assoc closing (c ∷ []) cs))

-- When no connection is twice in the list and none is closing: Socket::close never reads outside of
-- the vector, closes every connection once, the last that was added first, and leaves no
-- connection in the list.
pub close_socket-emptied :
    (cs closing : List ℕ)
    → Fresh closing cs
    → close_socket (record { connections = reversed cs; closing = closing })
      ≡ some (record { connections = []; closing = closing ++ cs })
close_socket-emptied cs closing f = rw (length-reversed cs) (closed_from cs closing f)
