-- ===== src/WebSocket/Parser/Refinement.antt =====
-- The parser refines the byte machine: its loop ends, and its calls spell the machine's tokens.
use httpuv.Base.{
  ℕ, zero, suc, ◌-◌, ◌≤◌, ◌<◌, ◌≡◌, refl, Bool, true, false, List, [], ◌∷◌, ◌++◌, Bytes, ltb, ◌||◌,
  if◌then◌else◌, length, take, drop, append_assoc, append-nil, arith, ◌==◌, some, take-append-drop,
  length-take, ==_iff, take-length, drop-length,
}
use httpuv.WebSocket.Proto.{WebSocketProto}
use httpuv.WebSocket.Frame.{frame_header, info, header_length, payload_length}
use httpuv.WebSocket.Parser.{
  min, WsHyBiParser, WsParseState, in_header, in_payload, ParserEvent, header_complete, payload,
  frame_complete, Round, read_header, read_payload, read_round, read_loop,
}
use httpuv.WebSocket.Parser.Stream.{Token, done, bytes_of, tokens, after_header, run}
use httpuv.WebSocket.Parser.Header.{complete, accumulated}
use httpuv.WebSocket.Parser.Runs.{
  at_header, at_payload, before, run_incomplete, run-complete, run_payload_short, run_payload_whole,
}

-- What holds between two calls of `read`: a header that is not whole, or a payload that lacks
-- a byte at least.
abbrev pub IsValidAt : WsParseState → WsHyBiParser → Type 0
IsValidAt in_header p = complete p.proto p.header ≡ false
IsValidAt in_payload p = (p.header ≡ []) × (0 < p.bytes_left)

abbrev pub IsValid : WsHyBiParser → Type 0
IsValid p = IsValidAt p.state p

pub tokens-append : (es fs : List ParserEvent) → tokens (es ++ fs) ≡ tokens es ++ tokens fs
unfolding tokens
tokens-append [] fs = refl
tokens-append (header_complete i ∷ es) fs = rw (tokens-append es fs)
tokens-append (payload bs ∷ es) fs = rw (tokens-append es fs, append_assoc)
tokens-append (frame_complete ∷ es) fs = rw (tokens-append es fs)

-- The loop's result on some fuel: it ends, in the machine's state and with its tokens.
abbrev pub Agrees : ℕ → WsHyBiParser → Bool → Bytes → WsHyBiParser × List Token → Type 0
Agrees fuel p recur input r =
    (es : List ParserEvent) × (read_loop fuel p recur input ≡ some (r.0, es)) × (tokens es ≡ r.1)

pub Agrees-stop : (fuel : ℕ) (p : WsHyBiParser) → Agrees (suc fuel) p false [] (p, [])
unfolding read_loop tokens
Agrees-stop fuel p = ([], refl, refl)

or_true : (b : Bool) → (b || true) ≡ true
or_true true = refl
or_true false = refl

-- One round in front of the others.
Agrees-round :
    (fuel : ℕ) (p : WsHyBiParser) (recur : Bool) (input : Bytes)
    (r whole : WsHyBiParser × List Token) {k : Round}
    → (ltb 0 (length input) || recur) ≡ true
    → read_round p recur input ≡ k
    → whole ≡ before (tokens k.events) r
    → Agrees fuel k.parser k.recur k.unread r
    → Agrees (suc fuel) p recur input whole
unfolding read_loop
Agrees-round fuel p recur input r whole {k} go round same (es, e, t) =
    rw same (k.events ++ es, rw (go, round, e), rw (tokens-append, t))

-- What each kind of round does.
round_part :
    (proto : WebSocketProto) (h : Bytes) (n : ℕ) (d : Bytes)
    → complete proto (accumulated h d) ≡ false
    → read_round (at_header proto h n) false d ≡ record {
      parser = at_header proto (accumulated h d) n;
      recur = false;
      unread = [];
      events = [];
    }
unfolding read_round read_header
round_part proto h n d c = rw c

round_header :
    (proto : WebSocketProto) (h : Bytes) (n : ℕ) (d : Bytes)
    → complete proto (accumulated h d) ≡ true
    → let f = frame_header proto (accumulated h d) in
      read_round (at_header proto h n) false d ≡ record {
        parser = at_payload proto [] (payload_length f);
        recur = if payload_length f == 0 then true else false;
        unread = drop (header_length f - length h) d;
        events = header_complete (info f) ∷ [];
      }
unfolding read_round read_header
round_header proto h n d c = rw c

round_empty :
    (proto : WebSocketProto) (d : Bytes)
    → read_round (at_payload proto [] 0) true d ≡ record {
      parser = at_header proto [] 0;
      recur = false;
      unread = d;
      events = payload [] ∷ frame_complete ∷ [];
    }
unfolding read_round read_payload
round_empty proto d = let none_taken : min (length d) 0 ≡ 0 = ground arith in rw none_taken

round_short :
    (proto : WebSocketProto) (n : ℕ) (d : Bytes)
    → length d < n
    → read_round (at_payload proto [] n) false d ≡ record {
      parser = at_payload proto [] (n - length d);
      recur = false;
      unread = [];
      events = payload d ∷ [];
    }
unfolding read_round read_payload
round_short proto n d lt =
    let all_taken : min (length d) n ≡ length d = ground arith in
    let lacking : (n - length d == 0) ≡ false = ground arith in
    rw (all_taken, lacking, take-length, drop-length)

round_whole :
    (proto : WebSocketProto) (n : ℕ) (d : Bytes)
    → n ≤ length d
    → read_round (at_payload proto [] n) false d ≡ record {
      parser = at_header proto [] 0;
      recur = false;
      unread = drop n d;
      events = payload (take n d) ∷ frame_complete ∷ [];
    }
unfolding read_round read_payload
round_whole proto n d le =
    let enough : min (length d) n ≡ n = ground arith in
    let nothing : n - n ≡ 0 = omega arith in rw (enough, nothing)

run_whole :
    (proto : WebSocketProto) (n : ℕ) (d : Bytes)
    → 0 < n
    → n ≤ length d
    → run (at_payload proto [] n) d
      ≡ before (bytes_of (take n d) ++ done ∷ []) (run (at_header proto [] 0) (drop n d))
run_whole proto zero d pos le = absurd (omega arith)
run_whole proto (suc k) [] pos le = absurd (omega arith)
run_whole proto (suc k) (c ∷ d) pos le =
    let taken : length (take k d) ≡ k = rw length-take (omega arith) in
    rw (taken, take-append-drop) at (run_payload_whole proto [] c (take k d) (drop k d))

-- The rounds with which the loop begins, and what is left to show of the rounds behind them.
module _ (fuel : ℕ) (proto : WebSocketProto) (h : Bytes) (n : ℕ) (d : Bytes)
    (more : ltb 0 (length d) ≡ true) where
  go : (recur : Bool) → (ltb 0 (length d) || recur) ≡ true
  go recur = rw more

  pub Agrees-part :
      complete proto h ≡ false
      → complete proto (accumulated h d) ≡ false
      → Agrees (suc (suc fuel)) (at_header proto h n) false d (run (at_header proto h n) d)
  unfolding tokens
  Agrees-part e c =
      Agrees-round (suc fuel) (at_header proto h n) false d _ _ (go false)
        (round_part proto h n d c) (run_incomplete proto h n d e c)
        (Agrees-stop fuel (at_header proto (accumulated h d) n))

  pub Agrees-empty :
      complete proto h ≡ false
      → complete proto (accumulated h d) ≡ true
      → let f = frame_header proto (accumulated h d) in
        let rest = drop (header_length f - length h) d in
        (payload_length f == 0) ≡ true
        → Agrees fuel (at_header proto [] 0) false rest (run (at_header proto [] 0) rest)
        → Agrees (suc (suc fuel)) (at_header proto h n) false d (run (at_header proto h n) d)
  unfolding tokens after_header
  Agrees-empty e c z ih =
      let zero_left : payload_length (frame_header proto (accumulated h d)) ≡ 0 =
        (==_iff _ 0).0 z in
      Agrees-round (suc fuel) (at_header proto h n) false d _ _ (go false)
        (rw zero_left at (round_header proto h n d c))
        (rw zero_left at (run-complete proto h n d e c))
        (Agrees-round fuel (at_payload proto [] 0) true _ _ _ (or_true _) (round_empty proto _) refl
          ih)

  pub Agrees-header :
      complete proto h ≡ false
      → complete proto (accumulated h d) ≡ true
      → let f = frame_header proto (accumulated h d) in
        let rest = drop (header_length f - length h) d in
        (payload_length f == 0) ≡ false
        → Agrees fuel
            (at_payload proto [] (payload_length f))
            false
            rest
            (run (at_payload proto [] (payload_length f)) rest)
        → Agrees (suc fuel) (at_header proto h n) false d (run (at_header proto h n) d)
  unfolding tokens after_header
  Agrees-header e c z ih =
      Agrees-round fuel (at_header proto h n) false d _ _ (go false)
        (rw z at (round_header proto h n d c)) (rw z at (run-complete proto h n d e c)) ih

  pub Agrees-short :
      length d < n
      → Agrees (suc (suc fuel)) (at_payload proto [] n) false d (run (at_payload proto [] n) d)
  unfolding tokens
  Agrees-short lt =
      Agrees-round (suc fuel) (at_payload proto [] n) false d
        (at_payload proto [] (n - length d), []) _ (go false) (round_short proto n d lt)
        (rw (append-nil, append-nil) (run_payload_short proto [] n d lt)) (Agrees-stop fuel _)

  pub Agrees-whole :
      0 < n
      → n ≤ length d
      → Agrees fuel (at_header proto [] 0) false (drop n d) (run (at_header proto [] 0) (drop n d))
      → Agrees (suc fuel) (at_payload proto [] n) false d (run (at_payload proto [] n) d)
  unfolding tokens
  Agrees-whole pos le ih =
      Agrees-round fuel (at_payload proto [] n) false d _ _ (go false) (round_whole proto n d le)
        (run_whole proto n d pos le) ih
