-- ===== src/WebSocket/Hixie76/Machine.antt =====
-- The specification of the parser: a machine that takes one byte at a time.
use httpuv.Base.{
  ℕ, ◌-◌, List, [], ◌∷◌, ◌++◌, Bytes, ltb, ◌==◌, if◌then◌else◌, ◌≡◌, refl, append_assoc, true,
  false,
}
use httpuv.WebSocket.Proto.{text, binary, close}
use httpuv.WebSocket.Parser.Stream.{Token, head, byte, done}
use httpuv.WebSocket.Hixie76.{
  Hixie76State, start, in_text_frame, in_binary_or_close_frame_length, in_binary_frame_length,
  in_binary_frame, WsHixie76Parser, plain_info, longer,
}

-- One byte of a length, seven bits of it; the last one is below 0x80.
unfoldable pub length_byte : ℕ → ℕ → WsHixie76Parser × List Token
length_byte n b =
    let more = longer n b in
    if ltb b 0x80
    then if more == 0
      then (record { state = start; bytes_left = 0 }, head (plain_info binary true 0) ∷ done ∷ [])
      else (
        record { state = in_binary_frame; bytes_left = more },
        head (plain_info binary true more) ∷ [],
      )
    else (record { state = in_binary_frame_length; bytes_left = more }, [])

unfoldable pub step_at : Hixie76State → ℕ → ℕ → WsHixie76Parser × List Token
unfolding length_byte
step_at start n b =
    if b == 0xFF
    then (record { state = in_binary_or_close_frame_length; bytes_left = 0 }, [])
    else if ltb b 0x80
    then (record { state = in_text_frame; bytes_left = 0 }, head (plain_info text false 0) ∷ [])
    else (record { state = in_binary_frame_length; bytes_left = 0 }, [])
step_at in_text_frame n b =
    if b == 0xFF
    then (record { state = start; bytes_left = n }, done ∷ [])
    else (record { state = in_text_frame; bytes_left = n }, byte b ∷ [])
step_at in_binary_or_close_frame_length n b =
    if b == 0
    then (
      record { state = in_binary_or_close_frame_length; bytes_left = n },
      head (plain_info close true 0) ∷ done ∷ [],
    )
    else length_byte n b
step_at in_binary_frame_length n b = length_byte n b
step_at in_binary_frame n b =
    if n - 1 == 0
    then (record { state = start; bytes_left = 0 }, byte b ∷ done ∷ [])
    else (record { state = in_binary_frame; bytes_left = n - 1 }, byte b ∷ [])

unfoldable pub run : WsHixie76Parser → Bytes → WsHixie76Parser × List Token
run p [] = (p, [])
run p (b ∷ input) =
    let (q, ts) = step_at p.state p.bytes_left b in let (r, us) = run q input in (r, ts ++ us)

-- A run with tokens in front.
abbrev pub before : List Token → WsHixie76Parser × List Token → WsHixie76Parser × List Token
before ts (p, us) = (p, ts ++ us)

pub run-append :
    (p : WsHixie76Parser) (s t : Bytes) → run p (s ++ t) ≡ before (run p s).1 (run (run p s).0 t)
unfolding run
run-append p [] t = refl
run-append p (b ∷ s) t = rw (run-append (step_at p.state p.bytes_left b).0 s t, append_assoc)

pub run_cons :
    (p : WsHixie76Parser) (b : ℕ) (d : Bytes) {q : WsHixie76Parser} {ts : List Token}
    → step_at p.state p.bytes_left b ≡ (q, ts)
    → run p (b ∷ d) ≡ before ts (run q d)
unfolding run
run_cons p b d e = rw e
