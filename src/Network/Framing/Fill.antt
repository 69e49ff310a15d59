-- ===== src/Network/Framing/Fill.antt =====
-- Filling the buffer: however the octets arrive, a read goes on until the part expected is whole.
use securepath.Base.{
  ℕ, suc, ◌+◌, ◌-◌, ◌≤◌, ◌<◌, ◌≡◌, refl, ap, sym, ◌∙◌, min, List, [], ◌∷◌, ◌++◌, arith, length,
  take, drop, ltb, ok, Bool-cases, inl, inr, length-append, length-take, take_append_short,
  take_append, take_all, drop_append_short, append_assoc, take-append-drop, length-drop, drop_all,
  append-nil, true, some, err,
}
use securepath.Network.Framing.{
  FrameReader, reading, on_read, on_filled, run, read_some, write_at, taken, completed,
  stream_error,
}

read_some_lem :
    (n come : ℕ) (bs rest : List ℕ)
    → 0 < length bs
    → n ≡ length bs
    → read_some n come (bs ++ rest) ≡ ok (take (min n (suc come)) bs)
unfolding read_some
read_some_lem n come [] rest lo e = absurd (omega arith)
read_some_lem n come (b ∷ bs) rest lo e =
    ap ok (take_append_short (min n (suc come)) (b ∷ bs) rest (omega arith))

write_at-length :
    (buffer : List ℕ) (at : ℕ) (octets : List ℕ)
    → at + length octets ≤ length buffer
    → length (write_at buffer at octets) ≡ length buffer
write_at-length buffer at octets le = omega (
  arith,
  length-append (take at buffer) (octets ++ drop (at + length octets) buffer),
  length-append octets (drop (at + length octets) buffer),
  length-take at buffer,
  length-drop (at + length octets) buffer,
)

-- The octets written so far are the front that was there with the new octets.
write_at-take :
    (buffer : List ℕ) (at : ℕ) (octets : List ℕ)
    → at ≤ length buffer
    → take (at + length octets) (write_at buffer at octets) ≡ take at buffer ++ octets
write_at-take buffer at octets le =
    let front = take at buffer ++ octets in
    let size : length front ≡ at + length octets =
      omega (arith, length-append (take at buffer) octets, length-take at buffer) in
    ap (take (at + length octets))
      (sym (append_assoc (take at buffer) octets (drop (at + length octets) buffer)))
    ∙ take_append front (drop (at + length octets) buffer) (at + length octets) size

write_at_last :
    (buffer : List ℕ) (at : ℕ) (octets : List ℕ)
    → at + length octets ≡ length buffer
    → write_at buffer at octets ≡ take at buffer ++ octets
write_at_last buffer at octets e =
    ap (λ t. take at buffer ++ (octets ++ t)) (drop_all buffer (at + length octets) (omega arith))
    ∙ ap (λ t. take at buffer ++ t) (append-nil octets)

-- The reader once the octets have come.
abbrev pub filled_with : FrameReader → List ℕ → FrameReader
filled_with r bs = record r {
  buffer = take r.received r.buffer ++ bs;
  received = r.received + length bs;
}

-- The octets of the expected part that are still out.
pub record Awaits (r : FrameReader) (bs : List ℕ) : Type 0 where
  pub some_octet : 0 < length bs
  pub count : r.received + length bs ≡ r.expected
  pub space : length r.buffer ≡ r.expected

step_lem :
    (come : ℕ) (arrivals : List ℕ) (r : FrameReader) (wire octets : List ℕ)
    → read_some (r.expected - r.received) come wire ≡ ok octets
    → run (come ∷ arrivals) (reading r) wire
      ≡ run arrivals (on_read r (ok octets)) (drop (length octets) wire)
unfolding run taken
step_lem come arrivals r wire octets e =
    ap (λ o. run arrivals (on_read r o) (drop (taken o) wire)) e

pub fill :
    (arrivals : List ℕ) (r : FrameReader) (bs rest : List ℕ)
    → Awaits r bs
    → length bs ≤ length arrivals
    → (more : List ℕ) × (length arrivals ≤ length more + length bs)
      × (run arrivals (reading r) (bs ++ rest) ≡ run more (on_filled (filled_with r bs)) rest)
unfolding on_read
fill [] r bs rest a le = absurd (omega (arith, a.some_octet))
fill (come ∷ arrivals) r bs rest a le = elim (Bool-cases (ltb (r.received + length c) r.expected)) [
  | inl more_out ↦
      let (more, long, e) =
        fill arrivals r' left rest (still_out more_out) (omega (arith, sizes, a.some_octet)) in
      (
        more,
        omega (arith, sizes),
        step ∙ rw (more_out, next) (e ∙ ap (λ t. run more (on_filled t) rest) same),
      )
  | inr full ↦
      let all : length c ≡ length bs = ground (arith, sizes, a.count) in
      let whole : c ≡ bs = take_all m bs (omega (arith, sizes)) in
      (
        arrivals,
        omega (arith, a.some_octet),
        step ∙ rw (full, next) (cc (whole_lem whole, drop_all bs (length c) (omega arith))),
      )
]
  where
    m : ℕ
    m = min (r.expected - r.received) (suc come)

    c : List ℕ
    c = take m bs

    left : List ℕ
    left = drop (length c) bs

    r' : FrameReader
    r' = record r { buffer = write_at r.buffer r.received c; received = r.received + length c }

    chunk : read_some (r.expected - r.received) come (bs ++ rest) ≡ ok c
    chunk =
        let e : r.expected - r.received ≡ length bs = omega (arith, a.count) in
        read_some_lem (r.expected - r.received) come bs rest a.some_octet e

    step :
        run (come ∷ arrivals) (reading r) (bs ++ rest)
        ≡ run arrivals (on_read r (ok c)) (drop (length c) (bs ++ rest))
    step = step_lem come arrivals r (bs ++ rest) c chunk

    sizes : (length c ≡ m) × (0 < m) × (m ≤ length bs) × (length left ≡ length bs - length c)
    sizes =
        let n = a.count in
        let lo = a.some_octet in
        (omega (arith, length-take m bs), omega arith, omega arith, length-drop (length c) bs)

    next : drop (length c) (bs ++ rest) ≡ left ++ rest
    next = drop_append_short (length c) bs rest (omega (arith, sizes))

    still_out : ltb (r.received + length c) r.expected ≡ true → Awaits r' left
    still_out more_out = record {
      some_octet =
          let less : r.received + length c < r.expected = ground arith in
          omega (arith, sizes, a.count);
      count = omega (arith, sizes, a.count);
      space =
          write_at-length r.buffer r.received c (omega (arith, sizes, a.count, a.space)) ∙ a.space;
    }

    split_bs : c ++ left ≡ bs
    split_bs = ap (λ t. c ++ drop t bs) (omega (arith, sizes)) ∙ take-append-drop m bs

    same : filled_with r' left ≡ filled_with r bs
    same =
        let front = write_at-take r.buffer r.received c (omega (arith, a.count, a.space)) in
        let buffers : take r'.received r'.buffer ++ left ≡ take r.received r.buffer ++ bs =
          ap (λ t. t ++ left) front
          ∙ append_assoc (take r.received r.buffer) c left
          ∙ ap (λ t. take r.received r.buffer ++ t) split_bs in
        let counts : r'.received + length left ≡ r.received + length bs = omega (arith, sizes) in
        cc (buffers, counts)

    whole_lem : c ≡ bs → r' ≡ filled_with r bs
    whole_lem whole =
        let last =
          write_at_last r.buffer r.received c
            (omega (arith, ap (λ (t : List ℕ). length t) whole, a.count, a.space)) in
        cc (last, whole)

-- A stream that ends before the expected part is whole fails the receive.
pub fill_short :
    (arrivals : List ℕ) (r : FrameReader) (wire : List ℕ)
    → r.received + length wire < r.expected
    → length wire < length arrivals
    → (run arrivals (reading r) wire).0 ≡ some (err stream_error)
unfolding run on_read read_some taken completed
fill_short [] r wire lt long = absurd (omega arith)
fill_short (come ∷ arrivals) r [] lt long = refl
fill_short (come ∷ arrivals) r (b ∷ wire) lt long =
    let m = min (r.expected - r.received) (suc come) in
    let c = take m (b ∷ wire) in
    let size = length-take m (b ∷ wire) in
    let left = length-drop (length c) (b ∷ wire) in
    let more_out : ltb (r.received + length c) r.expected ≡ true = ground arith in
    ap (λ t. t.0) (step_lem come arrivals r (b ∷ wire) c refl)
    ∙ rw more_out (
        fill_short arrivals
          (record r { buffer = write_at r.buffer r.received c; received = r.received + length c })
          (drop (length c) (b ∷ wire)) (omega arith) (omega arith))
