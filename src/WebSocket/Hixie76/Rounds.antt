-- ===== src/WebSocket/Hixie76/Rounds.antt =====
-- One round of the loop against the bytes that it takes from the machine's point of view.
use httpuv.Base.{
  ℕ, zero, suc, ◌+◌, ◌-◌, ◌*◌, ◌≤◌, ◌<◌, ◌≡◌, refl, ◌∙◌, false, List, [], ◌∷◌, ◌++◌, Bytes, ltb,
  ◌==◌, if◌then◌else◌, length, take, drop, length-drop, take-length, drop-length, append_assoc,
  append-nil, arith, Bool-cases, inl, inr,
}
use httpuv.WebSocket.Parser.{ParserEvent, frame_complete}
use httpuv.WebSocket.Parser.Stream.{Token, done, bytes_of, tokens}
use httpuv.WebSocket.Hixie76.{
  Hixie76State, start, in_text_frame, in_binary_or_close_frame_length, in_binary_frame_length,
  in_binary_frame, WsHixie76Parser, HixieRound, read_start, to_marker, from_marker, some_payload,
  text_end, read_text, read_binary_or_close, longer, read_length, read_binary, read_hixie76_at,
}
use httpuv.WebSocket.Hixie76.Machine.{length_byte, step_at, run, before, run_cons}

-- Within a binary payload, a byte at least is missing.
abbrev pub IsValidAt : Hixie76State → ℕ → Type 0
IsValidAt in_binary_frame n = 0 < n
IsValidAt _ n = Unit

abbrev pub IsValid : WsHixie76Parser → Type 0
IsValid p = IsValidAt p.state p.bytes_left

-- The round that takes no byte leaves a state of less weight.
abbrev pub weight : Hixie76State → ℕ
weight in_binary_or_close_frame_length = 1
weight _ = 0

abbrev pub at_state : Hixie76State → ℕ → WsHixie76Parser
at_state s n = record { state = s; bytes_left = n }

-- A round does to the parser, and reports, what the machine does on the bytes that the round took.
pub record Follows (p : WsHixie76Parser) (input : Bytes) (r : HixieRound) : Type 0 where
  pub same_run : run p input ≡ before (tokens r.events) (run r.parser r.unread)
  pub valid : IsValid r.parser
  pub shorter : 2 * length r.unread + weight r.parser.state < 2 * length input + weight p.state

Follows-start : (n b : ℕ) (rest : Bytes) → Follows (at_state start n) (b ∷ rest) (read_start b rest)
unfolding read_start step_at tokens run
Follows-start n b rest = elim (Bool-cases (b == 0xFF)) [
  | inl marker ↦ rw marker (record { same_run = rw marker; valid = tt; shorter = omega arith })
  | inr plain ↦ elim (Bool-cases (ltb b 0x80)) [
    | inl low ↦
        rw (plain, low) (record { same_run = rw (plain, low); valid = tt; shorter = omega arith })
    | inr high ↦
        rw (plain, high) (record { same_run = rw (plain, high); valid = tt; shorter = omega arith })
  ]
]

length_run :
    (s : Hixie76State) (n b : ℕ) (rest : Bytes)
    → step_at s n b ≡ length_byte n b
    → run (at_state s n) (b ∷ rest) ≡ before (length_byte n b).1 (run (length_byte n b).0 rest)
length_run s n b rest e =
    run_cons (at_state s n) b rest {q = (length_byte n b).0} {ts = (length_byte n b).1} e

Follows-length :
    (s : Hixie76State) (n b : ℕ) (rest : Bytes)
    → step_at s n b ≡ length_byte n b
    → Follows (at_state s n) (b ∷ rest) (read_length (at_state in_binary_frame_length n) b rest)
unfolding read_length length_byte tokens
Follows-length s n b rest e = elim (Bool-cases (ltb b 0x80)) [
  | inr high ↦
      rw high (record {
        same_run = length_run s n b rest e ∙ rw (high);
        valid = tt;
        shorter = omega arith;
      })
  | inl low ↦ elim (Bool-cases (longer n b == 0)) [
    | inl z ↦
        let none_left : longer n b ≡ 0 = ground arith in
        rw (low, none_left)
          (record {
            same_run = length_run s n b rest e ∙ rw (low, none_left);
            valid = tt;
            shorter = omega arith;
          })
    | inr nz ↦
        rw (low, nz)
          (record {
            same_run = length_run s n b rest e ∙ rw (low, nz);
            valid = ground arith;
            shorter = omega arith;
          })
  ]
]

Follows-binary_or_close :
    (n b : ℕ) (rest : Bytes)
    → Follows
        (at_state in_binary_or_close_frame_length n)
        (b ∷ rest)
        (read_binary_or_close (at_state in_binary_or_close_frame_length n) b rest)
unfolding read_binary_or_close step_at tokens run
Follows-binary_or_close n b rest = elim (Bool-cases (b == 0)) [
  | inl z ↦ rw z (record { same_run = rw z; valid = tt; shorter = omega arith })
  | inr nz ↦ rw nz (record { same_run = rw nz; valid = tt; shorter = omega arith })
]

tokens-some_payload :
    (s : Bytes) (es : List ParserEvent) → tokens (some_payload s ++ es) ≡ bytes_of s ++ tokens es
unfolding tokens bytes_of
tokens-some_payload [] es = refl
tokens-some_payload (b ∷ s) es = refl

tokens_text : (s : Bytes) → tokens (some_payload s) ≡ bytes_of s
unfolding tokens bytes_of
tokens_text [] = refl
tokens_text (b ∷ s) = append-nil (bytes_of (b ∷ s))

-- What the machine does from the end marker on.
after_text : ℕ → Bytes → WsHixie76Parser × List Token
after_text n [] = (at_state in_text_frame n, [])
after_text n (marker ∷ rest) = before (done ∷ []) (run (at_state start n) rest)

run_text :
    (n : ℕ) (s : Bytes)
    → run (at_state in_text_frame n) s
      ≡ before (bytes_of (to_marker s)) (after_text n (from_marker s))
unfolding run step_at to_marker from_marker bytes_of after_text
run_text n [] = refl
run_text n (b ∷ s) = elim (Bool-cases (b == 0xFF)) [
  | inl marker ↦ rw marker
  | inr plain ↦ rw (plain, run_text n s)
]

length-from_marker : (s : Bytes) → length (from_marker s) ≤ length s
unfolding from_marker
length-from_marker [] = omega arith
length-from_marker (b ∷ s) = ground (arith, length-from_marker s)

text_end-Follows :
    (n : ℕ) (input t f : Bytes)
    → 0 < length input
    → length f ≤ length input
    → run (at_state in_text_frame n) input ≡ before (bytes_of t) (after_text n f)
    → Follows
        (at_state in_text_frame n)
        input
        (text_end (at_state in_text_frame n) (some_payload t) f)
unfolding text_end after_text run tokens
text_end-Follows n input t [] h le e = record {
  same_run = e ∙ rw (tokens_text t);
  valid = tt;
  shorter = omega arith;
}
text_end-Follows n input t (marker ∷ rest) h le e = record {
  same_run = e ∙ rw (tokens-some_payload t (frame_complete ∷ []), append_assoc);
  valid = tt;
  shorter = omega arith;
}

run_binary_short :
    (n : ℕ) (s : Bytes)
    → length s < n
    → run (at_state in_binary_frame n) s ≡ (at_state in_binary_frame (n - length s), bytes_of s)
unfolding run step_at bytes_of
run_binary_short n [] h = let z : n - 0 ≡ n = omega arith in rw z
run_binary_short n (b ∷ s) h =
    let more : (n - 1 == 0) ≡ false = ground arith in
    let left : n - suc (length s) ≡ n - 1 - length s = omega arith in
    rw (more, run_binary_short (n - 1) s (omega arith), left)

run_binary_whole :
    (n : ℕ) (s : Bytes)
    → 0 < n
    → n ≤ length s
    → run (at_state in_binary_frame n) s
      ≡ before (bytes_of (take n s) ++ done ∷ []) (run (at_state start 0) (drop n s))
unfolding run step_at bytes_of
run_binary_whole zero s pos h = absurd (omega arith)
run_binary_whole (suc n) [] pos h = absurd (omega arith)
run_binary_whole (suc zero) (b ∷ s) pos h = refl
run_binary_whole (suc (suc n)) (b ∷ s) pos h =
    let left : suc (suc n) - 1 ≡ suc n = omega arith in
    let more : (suc n == 0) ≡ false = ground arith in
    rw (left, more, run_binary_whole (suc n) s (omega arith) (omega arith))

Follows-binary :
    (n : ℕ) (input : Bytes)
    → 0 < n
    → 0 < length input
    → Follows (at_state in_binary_frame n) input (read_binary (at_state in_binary_frame n) input)
unfolding read_binary tokens run
Follows-binary n input pos h = elim (Bool-cases (ltb (length input) n)) [
  | inl short ↦
      let over : ltb n (length input) ≡ false = ground arith in
      let left : (n - length input == 0) ≡ false = ground arith in
      rw (over, left)
        (record {
          same_run =
              run_binary_short n input (ground arith)
              ∙ rw (take-length, drop-length, append-nil, append-nil);
          valid = ground arith;
          shorter = rw drop-length (omega arith);
        })
  | inr whole ↦
      let size : (if ltb n (length input) then n else length input) ≡ n = ground arith in
      let left : n - n ≡ 0 = omega arith in
      rw (size, left)
        (record {
          same_run = run_binary_whole n input pos (ground arith);
          valid = tt;
          shorter = rw length-drop (omega arith);
        })
]

-- Every round from a valid parser.
pub read_hixie76_at-Follows :
    (s : Hixie76State) (n b : ℕ) (rest : Bytes)
    → IsValidAt s n
    → Follows (at_state s n) (b ∷ rest) (read_hixie76_at s (at_state s n) b rest)
unfolding read_hixie76_at read_text
read_hixie76_at-Follows start n b rest v = Follows-start n b rest
read_hixie76_at-Follows in_text_frame n b rest v =
    text_end-Follows n (b ∷ rest) (to_marker (b ∷ rest)) (from_marker (b ∷ rest)) (omega arith)
      (length-from_marker (b ∷ rest)) (run_text n (b ∷ rest))
read_hixie76_at-Follows in_binary_or_close_frame_length n b rest v =
    Follows-binary_or_close n b rest
read_hixie76_at-Follows in_binary_frame_length n b rest v =
    Follows-length in_binary_frame_length n b rest (unfold step_at in refl)
read_hixie76_at-Follows in_binary_frame n b rest v = Follows-binary n (b ∷ rest) v (omega arith)
