-- ===== src/Tests/Codec.antt =====
-- The URI encoders and WebSocket frames at concrete inputs.
use httpuv.Base.{◌≡◌, refl, arith, inl, true, false, [], ◌∷◌, ◌++◌, Bytes, All, IsByte, length}
use httpuv.Uri.{do_encode_uri, do_decode_uri}
use httpuv.Uri.Encode.{IsUrlByte, do_encode_uri-IsUrlByte}
use httpuv.Uri.Decode.{decode-encode}
use httpuv.WebSocket.Proto.{binary, text}
use httpuv.WebSocket.Ietf
use httpuv.WebSocket.HyBi03
use httpuv.WebSocket.Frame.{create_frame_header, info, header_length, payload_length}
use httpuv.WebSocket.Frame.Prefix.{frame}
use httpuv.WebSocket.Frame.Written.{written_info, info-create_frame_header}
use httpuv.WebSocket.Frame.Endian.{big_endian_length_lost}

-- "a b/é" in UTF-8.
abbrev some_text : Bytes
some_text = 97 ∷ 32 ∷ 98 ∷ 47 ∷ 195 ∷ 169 ∷ []

some_text-IsByte : All IsByte some_text
some_text-IsByte =
    (omega arith, (omega arith, (omega arith, (omega arith, (omega arith, (omega arith, tt))))))

decode-encode_example : do_decode_uri (do_encode_uri some_text true) true ≡ some_text
decode-encode_example = decode-encode some_text true true some_text-IsByte (inl refl)

do_encode_uri-IsUrlByte_example : All (IsUrlByte true) (do_encode_uri some_text true)
do_encode_uri-IsUrlByte_example = do_encode_uri-IsUrlByte some_text true some_text-IsByte

info-create_frame_header_example :
    (info (frame Ietf.ietf (create_frame_header Ietf.ietf false binary true 300 7 ++ 1 ∷ 2 ∷ []))
      ≡ written_info binary true 300 7)
    × (header_length
          (frame Ietf.ietf (create_frame_header Ietf.ietf false binary true 300 7 ++ 1 ∷ 2 ∷ []))
        ≡ length (create_frame_header Ietf.ietf false binary true 300 7))
info-create_frame_header_example =
    info-create_frame_header Ietf.ietf binary true 300 7 (1 ∷ 2 ∷ []) Ietf.ietf-IsCodec
      (omega arith)

big_endian_length_lost_example :
    payload_length
      (frame HyBi03.hybi03 (create_frame_header HyBi03.hybi03 true text false 300 0 ++ []))
    ≡ 0
big_endian_length_lost_example =
    big_endian_length_lost HyBi03.hybi03 text false 300 0 [] HyBi03.hybi03-IsCodec (omega arith)
      (omega arith)
