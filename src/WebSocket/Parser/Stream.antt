-- ===== src/WebSocket/Parser/Stream.antt =====
-- The specification of the parser: a machine that takes one byte at a time, and so cannot know
-- how its input was cut into pieces.
use httpuv.Base.{
  ℕ, ◌-◌, List, [], ◌∷◌, ◌++◌, Bytes, ◌==◌, if◌then◌else◌, ◌≡◌, refl, ◌∙◌, append_assoc, arith,
}
use httpuv.WebSocket.Frame.{
  WsFrameHeaderInfo, frame_header, is_header_complete, info, payload_length,
}
use httpuv.WebSocket.Parser.{
  WsParseState, in_header, in_payload, WsHyBiParser, ParserEvent, header_complete, payload,
  frame_complete,
}

-- An event of one byte at most.
pub data Token : Type 0 where
  head : WsFrameHeaderInfo → Token
  byte : ℕ → Token
  done : Token

unfoldable pub bytes_of : Bytes → List Token
bytes_of [] = []
bytes_of (b ∷ bs) = byte b ∷ bytes_of bs

-- The events with the pieces of the payloads taken apart.
unfoldable pub tokens : List ParserEvent → List Token
unfolding bytes_of
tokens [] = []
tokens (header_complete i ∷ es) = head i ∷ tokens es
tokens (payload bs ∷ es) = bytes_of bs ++ tokens es
tokens (frame_complete ∷ es) = done ∷ tokens es

-- After a whole header: a frame with no payload is done at once.
unfoldable pub after_header : WsHyBiParser → ℕ → WsHyBiParser
after_header p n = record p {
  bytes_left = n;
  state = if n == 0 then in_header else in_payload;
  header = [];
}

unfoldable pub step_header : WsHyBiParser → ℕ → WsHyBiParser × List Token
unfolding after_header
step_header p b =
    let frame = frame_header p.proto (p.header ++ b ∷ []) in
    if is_header_complete frame
    then (
      after_header p (payload_length frame),
      head (info frame) ∷ (if payload_length frame == 0 then done ∷ [] else []),
    )
    else (record p { header = p.header ++ b ∷ [] }, [])

unfoldable pub step_payload : WsHyBiParser → ℕ → WsHyBiParser × List Token
step_payload p b =
    let left = p.bytes_left - 1 in
    (
      record p { bytes_left = left; state = if left == 0 then in_header else in_payload },
      byte b ∷ (if left == 0 then done ∷ [] else []),
    )

step_at : WsParseState → WsHyBiParser → ℕ → WsHyBiParser × List Token
step_at in_header p b = step_header p b
step_at in_payload p b = step_payload p b

unfoldable pub step : WsHyBiParser → ℕ → WsHyBiParser × List Token
unfolding step_at
step p b = step_at p.state p b

unfoldable pub run : WsHyBiParser → Bytes → WsHyBiParser × List Token
run p [] = (p, [])
run p (b ∷ input) = let (q, ts) = step p b in let (r, us) = run q input in (r, ts ++ us)

pub run-append :
    (p : WsHyBiParser) (s t : Bytes)
    → run p (s ++ t) ≡ ((run (run p s).0 t).0, (run p s).1 ++ (run (run p s).0 t).1)
unfolding run
run-append p [] t = refl
run-append p (b ∷ s) t = rw (run-append (step p b).0 s t, append_assoc)

step-proto : (p : WsHyBiParser) (b : ℕ) → (step p b).0.proto ≡ p.proto
unfolding step step_header step_payload
step-proto p b = ground arith

-- The protocol stays.
pub run-proto : (p : WsHyBiParser) (s : Bytes) → (run p s).0.proto ≡ p.proto
unfolding run
run-proto p [] = refl
run-proto p (b ∷ s) = run-proto (step p b).0 s ∙ step-proto p b
