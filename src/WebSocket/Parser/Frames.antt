-- ===== src/WebSocket/Parser/Frames.antt =====
-- Whole frames through the parser: what createFrameHeader writes, with its payload behind it.
use httpuv.Base.{
  ℕ, suc, ◌+◌, ◌-◌, ◌≤◌, ◌<◌, ◌^◌, ◌≡◌, refl, sym, ap, ◌∙◌, Bool, true, false, List, [], ◌∷◌, ◌++◌,
  Bytes, if◌then◌else◌, length, take, drop, length-append, arith, ◌==◌, some, All,
}
use httpuv.WebSocket.Proto.{Opcode, WebSocketProto, IsCodec}
use httpuv.WebSocket.Frame.{
  WsHyBiFrameHeader, create_frame_header, frame_header, info, header_length, payload_length,
}
use httpuv.WebSocket.Frame.Prefix.{frame, header_length_bounds}
use httpuv.WebSocket.Frame.Written.{written_info, info-create_frame_header}
use httpuv.WebSocket.Parser.{min, new_parser, WsHyBiParser, ParserEvent}
use httpuv.WebSocket.Parser.Stream.{Token, head, done, bytes_of, tokens, after_header, run}
use httpuv.WebSocket.Parser.Header.{
  complete, accumulated, empty-incomplete, length-accumulated, complete_short, frame_header_short,
}
use httpuv.WebSocket.Parser.Runs.{at_header, before, run-complete, run_payload_whole}
use httpuv.WebSocket.Parser.Chunks.{read_all, joined, read_all-run}

-- The tokens of one frame.
abbrev pub frame_tokens : Opcode → Bool → ℕ → Bytes → List Token
frame_tokens op mask key payload =
    head (written_info op mask (length payload) key) ∷ bytes_of payload ++ done ∷ []

take-append : (s t : Bytes) (j : ℕ) → take (length s + j) (s ++ t) ≡ s ++ take j t
take-append [] t j = let e : 0 + j ≡ j = omega arith in rw e
take-append (x ∷ s) t j =
    let e : suc (length s) + j ≡ suc (length s + j) = omega arith in rw (e, take-append s t j)

drop-append : (s t : Bytes) → drop (length s) (s ++ t) ≡ t
drop-append [] t = refl
drop-append (x ∷ s) t = drop-append s t

info-payload_length : (f : WsHyBiFrameHeader) → (info f).payload_length ≡ payload_length f
unfolding info
info-payload_length f = refl

-- The first bytes that the parser gathers hold the whole written header.
gathered_at :
    (w t : Bytes) (j : ℕ)
    → min (length (w ++ t)) 14 ≡ length w + j
    → (r : Bytes) × (accumulated [] (w ++ t) ≡ w ++ r)
gathered_at w t j e = (take j t, rw e (take-append w t j))

gathered : (w t : Bytes) → length w ≤ 14 → (r : Bytes) × (accumulated [] (w ++ t) ≡ w ++ r)
gathered w t le =
    gathered_at w t (min (length (w ++ t)) 14 - length w) (ground (arith, length-append w t))

-- Behind a whole header stand the payload and the end of the frame.
run_behind :
    (proto : WebSocketProto) (n : ℕ) (payload rest : Bytes)
    → before
        (if length payload == 0 then done ∷ [] else [])
        (run (after_header (at_header proto [] n) (length payload)) (payload ++ rest))
      ≡ before (bytes_of payload ++ done ∷ []) (run (at_header proto [] 0) rest)
unfolding after_header bytes_of
run_behind proto n [] rest = refl
run_behind proto n (b ∷ s) rest =
    let more : (suc (length s) == 0) ≡ false = ground arith in
    rw more (run_payload_whole proto [] b s rest)

module _ (proto : WebSocketProto) (op : Opcode) (mask : Bool) (key n : ℕ) (payload rest : Bytes)
    (laws : IsCodec proto) (h : length payload < 2 ^ 64) where
  abbrev written : Bytes
  written = create_frame_header proto false op mask (length payload) key

  abbrev stream : Bytes
  stream = written ++ (payload ++ rest)

  reads :
      (r : Bytes)
      → (info (frame proto (written ++ r)) ≡ written_info op mask (length payload) key)
        × (header_length (frame proto (written ++ r)) ≡ length written)
  reads r = info-create_frame_header proto op mask (length payload) key r laws h

  written_short : length written ≤ 14
  written_short = omega (arith, (reads []).1, header_length_bounds (frame proto (written ++ [])))

  written_long : 2 ≤ length written
  written_long = omega (arith, (reads []).1, header_length_bounds (frame proto (written ++ [])))

  -- What the parser finds in the bytes that it gathered.
  abbrev Found : Bytes → Type 0
  Found g =
      (complete proto g ≡ true)
      × (info (frame_header proto g) ≡ written_info op mask (length payload) key)
      × (header_length (frame_header proto g) ≡ length written)

  Found-at : (r : Bytes) → length (written ++ r) ≤ 14 → Found (written ++ r)
  Found-at r le = (
    complete_short proto (written ++ r) le
        ∙ ground (arith, reads r, written_long, length-append written r),
    rw (frame_header_short proto (written ++ r) le) (reads r).0,
    rw (frame_header_short proto (written ++ r) le) (reads r).1,
  )

  found : Found (accumulated [] stream)
  found =
      let (r, e) = gathered written (payload ++ rest) written_short in
      rw e (Found-at r (rw e at (length-accumulated [] stream (omega arith))))

  payload_found : payload_length (frame_header proto (accumulated [] stream)) ≡ length payload
  payload_found = sym (info-payload_length _) ∙ ap (λ i. i.payload_length) found.1

  -- From the start of a frame, a written frame gives its tokens, and the run goes on behind it.
  pub run_frame :
      run (at_header proto [] n) stream
      ≡ before (frame_tokens op mask key payload) (run (at_header proto [] 0) rest)
  run_frame =
      let behind : length written - 0 ≡ length written = omega arith in
      run-complete proto [] n stream (empty-incomplete proto) found.0
      ∙ rw (found.1, found.2, payload_found, behind, drop-append)
          (ap (before (head (written_info op mask (length payload) key) ∷ []))
            (run_behind proto n payload rest))

-- A frame to write.
pub record Frame : Type 0 where
  pub op : Opcode
  pub mask : Bool
  pub key : ℕ
  pub payload : Bytes

-- The bytes of frames one after the other, as a little-endian machine writes them.
unfoldable pub written_frames : WebSocketProto → List Frame → Bytes
written_frames proto [] = []
written_frames proto (f ∷ fs) =
    create_frame_header proto false f.op f.mask (length f.payload) f.key
    ++ (f.payload ++ written_frames proto fs)

pub tokens_of : List Frame → List Token
tokens_of [] = []
tokens_of (f ∷ fs) = frame_tokens f.op f.mask f.key f.payload ++ tokens_of fs

abbrev pub IsFrame : Frame → Type 0
IsFrame f = length f.payload < 2 ^ 64

run_frames :
    (proto : WebSocketProto) (n : ℕ) (fs : List Frame)
    → IsCodec proto
    → All IsFrame fs
    → (run (at_header proto [] n) (written_frames proto fs)).1 ≡ tokens_of fs
unfolding written_frames tokens_of
run_frames proto n [] laws h = unfold run in refl
run_frames proto n (f ∷ fs) laws (h, hs) =
    rw (run_frame proto f.op f.mask f.key n f.payload (written_frames proto fs) laws h)
      (rw (run_frames proto 0 fs laws hs))

-- Frames that createFrameHeader wrote on a little-endian machine, one behind the other and cut
-- into pieces in any way, are all read by a new parser: its calls, with the pieces of the payloads
-- taken apart, are for each frame in turn the header as it was written, the bytes of the payload,
-- and the end. It holds for every protocol whose codes fit and decode, and payloads below 2^64.
pub read_all-written_frames :
    (proto : WebSocketProto) (n : ℕ) (fs : List Frame) (pieces : List Bytes)
    → IsCodec proto
    → All IsFrame fs
    → joined pieces ≡ written_frames proto fs
    → (q : WsHyBiParser) × (es : List ParserEvent) × (read_all (new_parser proto n) pieces
        ≡ some (q, es))
      × (tokens es ≡ tokens_of fs)
read_all-written_frames proto n fs pieces laws h e =
    let (es, r, t) = read_all-run (new_parser proto n) pieces (empty-incomplete proto) in
    (
      (run (new_parser proto n) (joined pieces)).0,
      es,
      r,
      t ∙ ap (λ s. (run (new_parser proto n) s).1) e ∙ run_frames proto n fs laws h,
    )
