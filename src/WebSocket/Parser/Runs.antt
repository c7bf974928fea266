-- ===== src/WebSocket/Parser/Runs.antt =====
-- How the byte machine runs through a piece of input: within a header, and within a payload.
use httpuv.Base.{
  ℕ, zero, suc, ◌+◌, ◌-◌, ◌≤◌, ◌<◌, ◌≡◌, refl, ap, true, false, List, [], ◌∷◌, ◌++◌, Bytes,
  if◌then◌else◌, length, take, drop, length-append, append_assoc, append-nil, arith, ◌==◌,
  Bool-cases, inl, inr,
}
use httpuv.WebSocket.Proto.{WebSocketProto}
use httpuv.WebSocket.Frame.{frame_header, info, header_length, payload_length}
use httpuv.WebSocket.Parser.{min, WsHyBiParser, in_header, in_payload}
use httpuv.WebSocket.Parser.Stream.{
  Token, head, byte, done, bytes_of, after_header, step_header, step_payload, step, run,
}
use httpuv.WebSocket.Parser.Header.{
  complete, accumulated, incomplete-short, length-accumulated, complete-append, same_header_length,
  same_payload_length, same_info, last_header_byte, header_goes_on,
}

abbrev pub at_header : WebSocketProto → Bytes → ℕ → WsHyBiParser
at_header proto h n = record { proto = proto; state = in_header; header = h; bytes_left = n }

abbrev pub at_payload : WebSocketProto → Bytes → ℕ → WsHyBiParser
at_payload proto h n = record { proto = proto; state = in_payload; header = h; bytes_left = n }

-- A run with tokens in front.
abbrev pub before : List Token → WsHyBiParser × List Token → WsHyBiParser × List Token
before ts (p, us) = (p, ts ++ us)

run_cons :
    (p : WsHyBiParser) (b : ℕ) (d : Bytes) {q : WsHyBiParser} {ts : List Token}
    {r : WsHyBiParser × List Token}
    → step p b ≡ (q, ts)
    → run q d ≡ r
    → run p (b ∷ d) ≡ before ts r
unfolding run
run_cons p b d {q} {ts} {r} e f = rw (e, f)

min-suc : (a b : ℕ) → 0 < b → min (suc a) b ≡ suc (min a (b - 1))
min-suc a b h = ground arith

accumulated_cons :
    (h : Bytes) (b : ℕ) (d : Bytes)
    → length h < 14
    → accumulated h (b ∷ d) ≡ accumulated (h ++ b ∷ []) d
accumulated_cons h b d lt =
    let e : 14 - length (h ++ b ∷ []) ≡ 14 - length h - 1 =
      omega (arith, length-append h (b ∷ [])) in
    rw (min-suc (length d) (14 - length h) (omega arith), e, append_assoc)

pub step_incomplete :
    (proto : WebSocketProto) (h : Bytes) (n b : ℕ)
    → complete proto (h ++ b ∷ []) ≡ false
    → step (at_header proto h n) b ≡ (at_header proto (h ++ b ∷ []) n, [])
unfolding step step_header
step_incomplete proto h n b e = rw e

pub step-complete :
    (proto : WebSocketProto) (h : Bytes) (n b : ℕ)
    → complete proto (h ++ b ∷ []) ≡ true
    → step (at_header proto h n) b
      ≡ let f = frame_header proto (h ++ b ∷ []) in
        (
          after_header (at_header proto h n) (payload_length f),
          head (info f) ∷ (if payload_length f == 0 then done ∷ [] else []),
        )
unfolding step step_header
step-complete proto h n b e = rw e

take_nil : (n : ℕ) → take {A = ℕ} n [] ≡ []
take_nil zero = refl
take_nil (suc n) = refl

accumulated_nil : (h : Bytes) → accumulated h [] ≡ h
accumulated_nil h = rw (take_nil, append-nil)

length_next : (h : Bytes) (b : ℕ) → length h < 14 → length (h ++ b ∷ []) ≤ 14
length_next h b lt = omega (arith, length-append h (b ∷ []))

accumulated-complete :
    (proto : WebSocketProto) (h d : Bytes)
    → length h ≤ 14
    → complete proto h ≡ true
    → complete proto (accumulated h d) ≡ true
accumulated-complete proto h d le e = complete-append proto h _ (length-accumulated h d le) e

next_incomplete :
    (proto : WebSocketProto) (h : Bytes) (b : ℕ) (d : Bytes)
    → length h < 14
    → complete proto (accumulated h (b ∷ d)) ≡ false
    → complete proto (h ++ b ∷ []) ≡ false
next_incomplete proto h b d lt c = ground (
  arith,
  ap (complete proto) (accumulated_cons h b d lt),
  accumulated-complete proto (h ++ b ∷ []) d (length_next h b lt),
)

step_within :
    (proto : WebSocketProto) (h : Bytes) (n b : ℕ)
    → 1 < n
    → step (at_payload proto h n) b ≡ (at_payload proto h (n - 1), byte b ∷ [])
unfolding step step_payload
step_within proto h n b lt = let e : (n - 1 == 0) ≡ false = ground arith in rw e

step_last :
    (proto : WebSocketProto) (h : Bytes) (b : ℕ)
    → step (at_payload proto h 1) b ≡ (at_header proto h 0, byte b ∷ done ∷ [])
unfolding step step_payload
step_last proto h b = refl

-- A piece that leaves the header unfinished joins the header.
pub run_incomplete :
    (proto : WebSocketProto) (h : Bytes) (n : ℕ) (d : Bytes)
    → complete proto h ≡ false
    → complete proto (accumulated h d) ≡ false
    → run (at_header proto h n) d ≡ (at_header proto (accumulated h d) n, [])
run_incomplete proto h n [] e c = rw (accumulated_nil h) (unfold run in refl)
run_incomplete proto h n (b ∷ d) e c =
    let lt = incomplete-short proto h e in
    let e' = next_incomplete proto h b d lt c in
    rw (accumulated_cons h b d lt) (
      run_cons (at_header proto h n) b d (step_incomplete proto h n b e')
        (run_incomplete proto (h ++ b ∷ []) n d e' (rw (accumulated_cons h b d lt) at c)))

drop_suc : (k : ℕ) (b : ℕ) (d : Bytes) → 0 < k → drop k (b ∷ d) ≡ drop (k - 1) d
drop_suc zero b d h = absurd (omega arith)
drop_suc (suc k) b d h = let e : k ≡ suc k - 1 = omega arith in rw (← e)

abbrev head_tokens : WebSocketProto → Bytes → List Token
head_tokens proto h =
    let f = frame_header proto h in
    head (info f) ∷ (if payload_length f == 0 then done ∷ [] else [])

-- A piece that completes the header: the header's bytes are taken off it, and the run goes on.
pub run-complete :
    (proto : WebSocketProto) (h : Bytes) (n : ℕ) (d : Bytes)
    → complete proto h ≡ false
    → complete proto (accumulated h d) ≡ true
    → run (at_header proto h n) d
      ≡ let f = frame_header proto (accumulated h d) in
        before (head (info f) ∷ (if payload_length f == 0 then done ∷ [] else [])) (
          run
            (after_header (at_header proto h n) (payload_length f))
            (drop (header_length f - length h) d))
unfolding after_header
run-complete proto h n [] e c = let e' = rw (accumulated_nil h) at c in cc
run-complete proto h n (b ∷ d) e c =
    let lt = incomplete-short proto h e in
    let le = length_next h b lt in
    let fits = length-accumulated (h ++ b ∷ []) d le in
    let c' = rw (accumulated_cons h b d lt) at c in
    rw (accumulated_cons h b d lt) (elim (Bool-cases (complete proto (h ++ b ∷ []))) [
      | inl now ↦
          let one : length h + 1 - length h ≡ 1 = omega arith in
          rw
            (
              same_info proto (h ++ b ∷ []) _ fits now,
              same_payload_length proto (h ++ b ∷ []) _ fits now,
              same_header_length proto (h ++ b ∷ []) _ fits now,
              last_header_byte proto h b e now,
              one,
            )
            (run_cons (at_header proto h n) b d (step-complete proto h n b now) refl)
      | inr later ↦
          let l = header_length (frame_header proto (accumulated (h ++ b ∷ []) d)) in
          let more = header_goes_on proto (h ++ b ∷ []) _ later fits in
          let k : l - length h - 1 ≡ l - length (h ++ b ∷ []) =
            omega (arith, length-append h (b ∷ [])) in
          rw (drop_suc (l - length h) b d (omega (arith, more, length-append h (b ∷ []))), k)
            (run_cons (at_header proto h n) b d (step_incomplete proto h n b later)
              (run-complete proto (h ++ b ∷ []) n d later c'))
    ])

-- A piece that ends within a payload.
pub run_payload_short :
    (proto : WebSocketProto) (h : Bytes) (n : ℕ) (d : Bytes)
    → length d < n
    → run (at_payload proto h n) d ≡ (at_payload proto h (n - length d), bytes_of d)
unfolding run bytes_of
run_payload_short proto h n [] lt = let e : n - 0 ≡ n = omega arith in rw e
run_payload_short proto h n (b ∷ d) lt =
    let e : n - 1 - length d ≡ n - suc (length d) = omega arith in
    rw (step_within proto h n b (omega arith), run_payload_short proto h (n - 1) d (omega arith), e)

-- A piece that holds the rest of a payload.
pub run_payload_whole :
    (proto : WebSocketProto) (h : Bytes) (b : ℕ) (s d : Bytes)
    → run (at_payload proto h (length (b ∷ s))) (b ∷ s ++ d)
      ≡ before (bytes_of (b ∷ s) ++ done ∷ []) (run (at_header proto h 0) d)
unfolding bytes_of
run_payload_whole proto h b [] d = run_cons (at_payload proto h 1) b d (step_last proto h b) refl
run_payload_whole proto h b (c ∷ s) d =
    let e : suc (suc (length s)) - 1 ≡ suc (length s) = omega arith in
    let within = step_within proto h (suc (suc (length s))) b (omega arith) in
    run_cons (at_payload proto h (suc (suc (length s)))) b (c ∷ s ++ d) (rw e at within)
      (run_payload_whole proto h c s d)
