-- ===== src/Der/Stream/Window.antt =====
-- The buffered stream seen as what is still to be read: the rest of the buffer, then the rest of the
-- stream below it.
use securepath.Base.{
  ℕ, ◌+◌, ◌-◌, ◌≤◌, ◌<◌, ◌≡◌, refl, ap, sym, ◌∙◌, List, [], ◌++◌, arith, length, take, drop, min,
  ltb, le→leb, ◌==◌, ok, length-append, length-drop, length-take, drop_append_short, drop_append,
  take-min, take_nil, drop_all, ◌&&◌, drop-drop, append_assoc, Bool-cases, inl, inr,
  take-append-drop,
}
use securepath.Der.Stream.{
  BufferedStream, buffer_took, read_from_buffer, read_from_stream, position,
}

-- The look-ahead position lies within the buffer.
abbrev pub IsSound : BufferedStream → Type 0
IsSound b = b.look_ahead_pos ≤ length b.buffer

-- All that is held, from the start of the buffer on.
abbrev pub tape : BufferedStream → List ℕ
tape b = b.buffer ++ b.stream.rest

abbrev pub window : BufferedStream → List ℕ
window b = drop b.look_ahead_pos b.buffer ++ b.stream.rest

pub window-tape : (b : BufferedStream) → IsSound b → window b ≡ drop b.look_ahead_pos (tape b)
window-tape b h = sym (drop_append_short b.look_ahead_pos b.buffer b.stream.rest h)

-- `b'` is `b` after `n` octets were read. While peeking nothing is thrown away.
pub record Advanced (b : BufferedStream) (n : ℕ) (b' : BufferedStream) : Type 0 where
  pub sound : IsSound b'
  pub left : window b' ≡ drop n (window b)
  pub moved : position b' ≡ position b + n
  pub peeks : b'.peek_count ≡ b.peek_count
  pub kept : 0 < b.peek_count → (tape b' ≡ tape b) × (b'.real_pos ≡ b.real_pos)

pub Advanced-trans :
    {a b c : BufferedStream} (m n : ℕ) → Advanced a m b → Advanced b n c → Advanced a (m + n) c
Advanced-trans {a} {b} {c} m n x y = record {
  sound = y.sound;
  left = y.left ∙ ap (drop n) x.left ∙ drop-drop n m (window a);
  moved = omega (arith, x.moved, y.moved);
  peeks = y.peeks ∙ x.peeks;
  kept = λ h.
      let (t, p) = x.kept h in
      let e = x.peeks in let (t', p') = y.kept (omega arith) in (t' ∙ t, p' ∙ p);
}

pub Advanced-refl : (b : BufferedStream) → IsSound b → Advanced b 0 b
unfolding position
Advanced-refl b h = record {
  sound = h;
  left = refl;
  moved = omega arith;
  peeks = refl;
  kept = λ _. (refl, refl);
}

module _ (b : BufferedStream) (n : ℕ) where
  open b use {look_ahead_pos as look, real_pos, buffer, peek_count, stream}

  -- Reading on within the buffer.
  look_on : look + n ≤ length buffer → Advanced b n (record b { look_ahead_pos = look + n })
  unfolding position
  look_on h = record {
    sound = h;
    left =
        ap (λ t. t ++ stream.rest) (sym (drop-drop n look buffer))
        ∙ sym (
            drop_append_short n (drop look buffer) stream.rest
              (omega (arith, length-drop look buffer)));
    moved = omega arith;
    peeks = refl;
    kept = λ _. (refl, refl);
  }

  -- Reading to the end of the buffer, which is then thrown away.
  flush :
      look + n ≡ length buffer
      → peek_count ≡ 0
      → Advanced b n
          (record b { real_pos = real_pos + (look + n); look_ahead_pos = 0; buffer = [] })
  unfolding position
  flush h none = record {
    sound = omega arith;
    left =
        sym (drop_append (drop look buffer) stream.rest n (omega (arith, length-drop look buffer)));
    moved = omega arith;
    peeks = refl;
    kept = λ p. absurd (omega arith);
  }

-- The part of a read that the buffer answers.
pub record FromBuffer (b : BufferedStream) (size : ℕ) (octets : List ℕ) (b' : BufferedStream)
    : Type 0 where
  pub some : octets ≡ take size (drop b.look_ahead_pos b.buffer)
  pub step : Advanced b (length octets) b'
  pub below : b'.stream ≡ b.stream
  pub drained : length octets < size → b'.look_ahead_pos ≡ length b'.buffer

took :
    (b : BufferedStream) (size rs : ℕ)
    → rs ≡ min size (length b.buffer - b.look_ahead_pos)
    → IsSound b
    → FromBuffer b size (buffer_took b rs).0 (buffer_took b rs).1
unfolding buffer_took
took b size rs e h =
    elim (Bool-cases (b.peek_count == 0 && (b.look_ahead_pos + rs == length b.buffer))) [
      | inl flushed ↦ rw flushed (record {
        some = octets;
        step = rw size_rs (flush b rs (ground arith) (ground arith));
        below = refl;
        drained = λ _. refl;
      })
      | inr held ↦ rw held (record {
        some = octets;
        step = rw size_rs (look_on b rs (omega arith));
        below = refl;
        drained = λ short. omega (arith, size_rs);
      })
    ]
  where
    seen : List ℕ
    seen = drop b.look_ahead_pos b.buffer

    octets : take rs seen ≡ take size seen
    octets =
        ap (λ t. take t seen) (omega (arith, length-drop b.look_ahead_pos b.buffer))
        ∙ take-min size seen

    size_rs : length (take rs seen) ≡ rs
    size_rs = omega (arith, length-take rs seen, length-drop b.look_ahead_pos b.buffer)

pub from_buffer :
    (b : BufferedStream) (size : ℕ)
    → IsSound b
    → FromBuffer b size (read_from_buffer b size).0 (read_from_buffer b size).1
unfolding read_from_buffer
from_buffer b size h = elim (Bool-cases (ltb b.look_ahead_pos (length b.buffer))) [
  | inl some ↦ rw some (took b size _ refl h)
  | inr none ↦ rw none (record {
    some = sym (ap (take size) (drop_all b.buffer b.look_ahead_pos (ground arith)) ∙ take_nil size);
    step = Advanced-refl b h;
    below = refl;
    drained = λ _. ground arith;
  })
]

-- The part that the stream answers, at the end of the buffer.
pub from_stream :
    (b : BufferedStream) (n : ℕ)
    → b.look_ahead_pos ≡ length b.buffer
    → n ≤ length b.stream.rest
    → (b' : BufferedStream) × (read_from_stream b n ≡ (ok (take n b.stream.rest), b'))
      × Advanced b n b'
unfolding read_from_stream position
from_stream b n e le = elim (Bool-cases (b.peek_count == 0)) [
  | inl alone ↦ (
    record b { stream = record { rest = drop n b.stream.rest }; real_pos = b.real_pos + n },
    rw (le→leb n _ le) (rw alone),
    record {
      sound = omega arith;
      left =
          ap (λ t. t ++ drop n b.stream.rest) (drop_all b.buffer b.look_ahead_pos (omega arith))
          ∙ sym (ap (drop n) exhausted);
      moved = omega arith;
      peeks = refl;
      kept = λ p. absurd (ground arith);
    },
  )
  | inr peeking ↦ (
    record b {
      stream = record { rest = drop n b.stream.rest };
      buffer = b.buffer ++ take n b.stream.rest;
      look_ahead_pos = b.look_ahead_pos + n;
    },
    rw (le→leb n _ le) (rw peeking),
    record {
      sound = omega (arith, length-append b.buffer taken, size_taken);
      left =
          ap (λ t. t ++ drop n b.stream.rest) (drop_all (b.buffer ++ taken) _ used_up)
          ∙ sym (ap (drop n) exhausted);
      moved = omega arith;
      peeks = refl;
      kept = λ _. (
        append_assoc b.buffer taken _ ∙ ap (λ t. b.buffer ++ t) (take-append-drop n b.stream.rest),
        refl,
      );
    },
  )
]
  where
    taken : List ℕ
    taken = take n b.stream.rest

    size_taken : length taken ≡ n
    size_taken = omega (arith, length-take n b.stream.rest)

    exhausted : window b ≡ b.stream.rest
    exhausted = ap (λ t. t ++ b.stream.rest) (drop_all b.buffer b.look_ahead_pos (omega arith))

    used_up : length (b.buffer ++ taken) ≤ b.look_ahead_pos + n
    used_up = omega (arith, length-append b.buffer taken, size_taken)
