-- ===== src/Network/Framing/Tests.antt =====
-- The framing on concrete inputs.
use securepath.Base.{
  ℕ, ◌≡◌, refl, false, List, [], ◌∷◌, ◌++◌, some, arith, length, take, map, ok, err,
}
use securepath.Network.Framing.{
  FrameReader, frame_reader, invalid_record, stream_error, encode_frame, decode_frame_length,
  frame_header_size, receive,
}
use securepath.Network.Framing.Deliver.{
  handed_over, decode_frame_length-encode_frame, receive-encode_frame, receive_too_large,
  receive_each, encode_frames, receive_each-encode_frames,
}
use securepath.Network.Framing.CutOff.{receive_cut_off}

abbrev payload : List ℕ
payload = 1 ∷ 2 ∷ 3 ∷ []

encode_frame-three : encode_frame payload ≡ 0 ∷ 0 ∷ 0 ∷ 3 ∷ 1 ∷ 2 ∷ 3 ∷ []
unfolding encode_frame
encode_frame-three = refl

decode_frame_length-encode_frame_example :
    decode_frame_length (take frame_header_size (encode_frame payload)) ≡ 3
decode_frame_length-encode_frame_example = decode_frame_length-encode_frame payload (omega arith)

-- Reads of one, three and two octets, and so on.
abbrev arrivals : List ℕ
arrivals = 0 ∷ 2 ∷ 1 ∷ 0 ∷ 0 ∷ 9 ∷ 9 ∷ []

receive-encode_frame_example :
    receive arrivals frame_reader (encode_frame payload ++ 9 ∷ [])
    ≡ (some (ok payload), handed_over frame_reader payload, 9 ∷ [])
receive-encode_frame_example =
    receive-encode_frame frame_reader refl (omega arith) arrivals payload (9 ∷ []) (omega arith)
      (omega arith)

abbrev small_reader : FrameReader
small_reader = record frame_reader { max_payload = 2 }

receive_too_large_example :
    (r' : FrameReader) × (receive arrivals small_reader (encode_frame payload ++ [])
      ≡ (some (err invalid_record), r', payload ++ []))
    × (length r'.buffer ≡ frame_header_size)
    × (r'.busy ≡ false)
receive_too_large_example =
    receive_too_large small_reader refl (omega arith) arrivals payload [] (omega arith)
      (omega arith) (omega arith)

receive_each-encode_frames_example :
    (r' : FrameReader) × (receive_each
        (arrivals ∷ arrivals ∷ [])
        frame_reader
        (encode_frames (payload ∷ [] ∷ []) ++ [])
      ≡ (map (λ p. some (ok p)) (payload ∷ [] ∷ []), r', []))
receive_each-encode_frames_example =
    receive_each-encode_frames (payload ∷ [] ∷ []) (arrivals ∷ arrivals ∷ []) frame_reader [] refl
      (omega arith) (omega arith, omega arith, (omega arith, omega arith, refl))

receive_cut_off_example :
    (receive arrivals frame_reader (take 5 (encode_frame payload))).0 ≡ some (err stream_error)
receive_cut_off_example =
    receive_cut_off frame_reader refl arrivals payload 5 (omega arith) (omega arith) (omega arith)
      (omega arith)
