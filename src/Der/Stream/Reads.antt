-- ===== src/Der/Stream/Reads.antt =====
-- `read`, `readable_bytes` and peeking in terms of the window.
use securepath.Base.{
  ℕ, ◌+◌, ◌-◌, ◌≤◌, ◌<◌, ◌≡◌, ◌≢◌, refl, ap, sym, ◌∙◌, true, false, List, ◌++◌, arith, length, take,
  drop, min, leb, le→leb, ◌==◌, ok, length-append, length-drop, length-take, take_append_short,
  take_append_long, take_all, Bool-cases, inl, inr, subst, ==_iff, take-append-drop,
  drop_append_short, append_assoc,
}
use securepath.Der.Stream.{
  BufferedStream, read_from_buffer, read_rest, read, position, readable_bytes, start_peek, end_peek,
}
use securepath.Der.Stream.Window.{
  IsSound, window, window-tape, Advanced, Advanced-trans, Advanced-refl, from_buffer, FromBuffer,
  from_stream,
}

length_lem :
    (b : BufferedStream)
    → length (window b) ≡ (length b.buffer - b.look_ahead_pos) + length b.stream.rest
length_lem b = omega (
  arith,
  length-append (drop b.look_ahead_pos b.buffer) b.stream.rest,
  length-drop b.look_ahead_pos b.buffer,
)

rest_lem :
    (b : BufferedStream) (size : ℕ) (octets : List ℕ) (b₁ : BufferedStream)
    → FromBuffer b size octets b₁
    → size ≤ length (window b)
    → (b' : BufferedStream) × (read_rest size (octets, b₁) ≡ (ok (take size (window b)), b'))
      × Advanced b size b'
unfolding read_rest
rest_lem b size octets b₁ f le = elim (Bool-cases (length octets == size)) [
  | inl enough ↦
      let e = (==_iff (length octets) size).0 enough in
      (
        b₁,
        rw enough (
            ap (λ t. (ok t, b₁))
              (f.some ∙ sym (take_append_short size seen b.stream.rest (omega (arith, count))))),
        subst (λ n. Advanced b n b₁) e f.step,
      )
  | inr more ↦
      let short : length octets < size = omega (arith, count, differs more) in
      let n = size - length octets in
      let same : n ≡ size - length seen = omega (arith, count) in
      let total : length octets + n ≡ size = omega arith in
      let whole : octets ≡ seen = f.some ∙ take_all size seen (omega (arith, count)) in
      let enough : n ≤ length b₁.stream.rest =
        rw f.below (omega (arith, count, differs more, length-append seen b.stream.rest)) in
      let (b', e, adv) = from_stream b₁ n (f.drained short) enough in
      (
        b',
        rw (more, e)
            (ap (λ t. (ok t, b'))
              (ap (λ t. t ++ take n b₁.stream.rest) whole
                ∙ ap (λ t. seen ++ take n t.rest) f.below
                ∙ ap (λ t. seen ++ take t b.stream.rest) same
                ∙ sym (take_append_long size seen b.stream.rest (omega (arith, count))))),
        subst (λ n. Advanced b n b') total (Advanced-trans (length octets) n f.step adv),
      )
]
  where
    seen : List ℕ
    seen = drop b.look_ahead_pos b.buffer

    count : length octets ≡ min size (length seen)
    count = ap length f.some ∙ length-take size seen

    differs : (length octets == size) ≡ false → length octets ≢ size
    differs h = ground arith

-- Where the look-ahead position lies within the buffer, any read of no more than the window holds
-- succeeds, gives the front of the window and moves on by its length, whatever part of it lies in the
-- buffer and whether or not somebody peeks.
pub read_lem :
    (b : BufferedStream) (size : ℕ)
    → IsSound b
    → size ≤ length (window b)
    → (b' : BufferedStream) × (read b size ≡ (ok (take size (window b)), b')) × Advanced b size b'
unfolding read
read_lem b size h le =
    rest_lem b size (read_from_buffer b size).0 (read_from_buffer b size).1 (from_buffer b size h)
      le

-- Asked for no more octets than the window holds, `readable_bytes` says yes and takes nothing away:
-- window and position stay.
pub readable_bytes_yes :
    (b : BufferedStream) (size : ℕ)
    → IsSound b
    → size ≤ length (window b)
    → (b' : BufferedStream) × (readable_bytes b size ≡ (true, b')) × Advanced b 0 b'
unfolding readable_bytes position
readable_bytes_yes b size h le = elim (Bool-cases (leb size buffered)) [
  | inl here ↦ (b, rw here, Advanced-refl b h)
  | inr more ↦
      let n = size - buffered in
      let enough : n ≤ length b.stream.rest = omega (arith, length_lem b) in
      (
        record b {
          stream = record { rest = drop n b.stream.rest };
          buffer = b.buffer ++ take n b.stream.rest;
        },
        rw more (rw (le→leb n _ enough)),
        record {
          sound = omega (arith, length-append b.buffer (take n b.stream.rest));
          left =
              ap (λ t. t ++ drop n b.stream.rest)
                (drop_append_short b.look_ahead_pos b.buffer (take n b.stream.rest) h)
              ∙ append_assoc (drop b.look_ahead_pos b.buffer) (take n b.stream.rest) _
              ∙ ap (λ t. drop b.look_ahead_pos b.buffer ++ t) (take-append-drop n b.stream.rest);
          moved = omega arith;
          peeks = refl;
          kept = λ _. (
            append_assoc b.buffer (take n b.stream.rest) _
                ∙ ap (λ t. b.buffer ++ t) (take-append-drop n b.stream.rest),
            refl,
          );
        },
      )
]
  where
    buffered : ℕ
    buffered = length b.buffer - b.look_ahead_pos

pub readable_bytes_no :
    (b : BufferedStream) (size : ℕ) → length (window b) < size → (readable_bytes b size).0 ≡ false
unfolding readable_bytes
readable_bytes_no b size lt = ground (arith, length_lem b)

-- However many octets were read since `start_peek`, the end of a peek that is not committed brings the
-- window and the position back.
pub end_peek_restores :
    (b : BufferedStream) (n : ℕ) {b' : BufferedStream}
    → IsSound b
    → Advanced (start_peek b).1 n b'
    → Advanced b 0 (end_peek b' (start_peek b).0 false)
unfolding start_peek end_peek position
end_peek_restores b n {b'} h adv =
    let (t, r) = adv.kept (omega arith) in
    let moved = adv.moved in
    let sound : b.look_ahead_pos ≤ length b'.buffer = omega (arith, adv.sound) in
    record {
      sound = sound;
      left =
          window-tape (end_peek b' b.look_ahead_pos false) sound
          ∙ ap (drop b.look_ahead_pos) t
          ∙ sym (window-tape b h);
      moved = omega arith;
      peeks = omega (arith, adv.peeks);
      kept = λ _. (t, r);
    }
