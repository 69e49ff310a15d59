-- ===== src/Network/Framing/CutOff.antt =====
-- A stream that ends within a frame.
use securepath.Base.{
  ℕ, ◌+◌, ◌-◌, ◌^◌, ◌≤◌, ◌<◌, ◌≡◌, ap, ◌∙◌, List, ◌++◌, some, arith, length, take, ◌==◌, err,
  length-take, take_append_long, false,
}
use native.Mathlib.Decide.{dec_lt}
use securepath.Network.Framing.{
  FrameReader, stream_error, encode_frame, async_receive_frame, run, receive,
}
use securepath.Network.Framing.Fill.{fill_short}
use securepath.Network.Framing.Deliver.{
  frame_header, at_header, at_payload, header_taken, header_accepted,
}

module _ (r : FrameReader) (idle : r.busy ≡ false) where
  in_header_cut :
      (arrivals wire : List ℕ)
      → length wire < 4
      → length wire < length arrivals
      → (receive arrivals r wire).0 ≡ some (err stream_error)
  unfolding receive async_receive_frame
  in_header_cut arrivals wire lt long =
      rw idle (fill_short arrivals (at_header r) wire (omega arith) long)

  in_payload_cut :
      (arrivals payload part : List ℕ)
      → length payload ≤ r.max_payload
      → length payload < 2 ^ 32
      → length part < length payload
      → 4 + length part < length arrivals
      → (receive arrivals r (frame_header (length payload) ++ part)).0 ≡ some (err stream_error)
  in_payload_cut arrivals payload part allowed short lt long =
      let (more, left, e) = header_taken arrivals r (length payload) part idle (omega arith) in
      let some_left : (length payload == 0) ≡ false = ground arith in
      ap (λ t. t.0) e
      ∙ ap (λ t. (run more t part).0) (header_accepted r payload short allowed)
      ∙ rw some_left (fill_short more (at_payload r payload) part (omega arith) (omega arith))

  -- A stream that ends before the frame does fails the receive with the stream's code: no part of a
  -- payload is ever handed over.
  pub receive_cut_off :
      (arrivals payload : List ℕ) (n : ℕ)
      → length payload ≤ r.max_payload
      → r.max_payload < 2 ^ 32
      → n < 4 + length payload
      → n < length arrivals
      → (receive arrivals r (take n (encode_frame payload))).0 ≡ some (err stream_error)
  unfolding encode_frame
  receive_cut_off arrivals payload n allowed narrow lt long = elim (dec_lt n 4) [
    | yes early ↦
        in_header_cut arrivals (take n (encode_frame payload))
          (omega (arith, length-take n (encode_frame payload)))
          (omega (arith, length-take n (encode_frame payload)))
    | no late ↦
        let split : take n (encode_frame payload)
            ≡ frame_header (length payload) ++ take (n - 4) payload =
          split_frame payload n (omega arith) in
        ap (λ t. (receive arrivals r t).0) split
        ∙ in_payload_cut arrivals payload (take (n - 4) payload) allowed (omega arith)
            (omega (arith, length-take (n - 4) payload))
            (omega (arith, length-take (n - 4) payload))
  ]
    where
      split_frame :
          (payload : List ℕ) (n : ℕ)
          → 4 ≤ n
          → take n (encode_frame payload) ≡ frame_header (length payload) ++ take (n - 4) payload
      split_frame payload n h = take_append_long n (frame_header (length payload)) payload h
