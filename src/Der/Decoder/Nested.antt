-- ===== src/Der/Decoder/Nested.antt =====
-- Sequences: what is written between `start_sequence` and `end_sequence`, and how it is read.
use securepath.Base.{
  ℕ, suc, ◌+◌, ◌-◌, ◌^◌, ◌≤◌, ◌<◌, ◌≡◌, refl, ap, sym, ◌∙◌, subst, true, false, List, [], ◌∷◌, ◌++◌,
  Option, arith, length, ltb, leb, append_assoc, drop, drop_append, ok, length-append,
}
use securepath.Der.Types.{
  AsnHeader, TagInfo, get_asn_class, get_tag, sequence_tag, max_constructed_size,
  max_structure_depth,
}
use securepath.Der.Stream
use securepath.Der.Stream.Window.{IsSound, window, Advanced, Advanced-trans}
use securepath.Der.Encoder.{constructed}
use securepath.Der.Encoder.Output.{header_octets}
use securepath.Der.Decoder.{Decoder, M, pure, then_do, ◌>>=◌, ◌>>◌, is_end_of_sequence, ended_at}
use securepath.Der.Decoder.Elements.{start_sequence, end_sequence, push, skip_to}
use securepath.Der.Decoder.Gives.{Took, Took-rest, Took-trans, Took-refl, Gives-octet}
use securepath.Der.Decoder.Finds.{Finds, header_found, header_some}

-- `n` more octets belong to the innermost open sequence.
abbrev pub RoomAt : List ℕ → ℕ → ℕ → Type 0
RoomAt [] here n = Unit {0}
RoomAt (p ∷ ps) here n = here + n ≤ p

-- `m` reads its element `bs` within the open sequence, where `depth` more sequences may be opened.
pub record Element {A : Type 0} (depth : ℕ) (m : M A) (bs : List ℕ) (a : A) : Type 0 where
  pub run :
      (d : Decoder) (rest : List ℕ)
      → IsSound d.s
      → RoomAt d.seq_pos (Stream.position d.s) (length bs)
      → length d.seq_pos + depth ≤ max_structure_depth
      → window d.s ≡ bs ++ rest
      → (d' : Decoder) × (m d ≡ (ok a, d')) × Took d (length bs) d'

room_is_open : (ps : List ℕ) (here n : ℕ) → 0 < n → RoomAt ps here n → ended_at ps here ≡ false
unfolding ended_at
room_is_open [] here n lo room = refl
room_is_open (p ∷ ps) here n lo room = ground arith

pub Finds-Element :
    {A : Type 0} {m : M A} {bs : List ℕ} {a : A} (depth : ℕ)
    → 0 < length bs
    → Finds m bs a
    → Element depth m bs a
unfolding is_end_of_sequence
Finds-Element {bs = bs} depth lo f = record {
  run = λ d rest h room deep e. f.run d rest h (room_is_open d.seq_pos _ (length bs) lo room) e;
}

room_front : (ps : List ℕ) (here m n : ℕ) → RoomAt ps here (m + n) → RoomAt ps here m
room_front [] here m n room = tt
room_front (p ∷ ps) here m n room = omega arith

room_rest : (ps : List ℕ) (here m n : ℕ) → RoomAt ps here (m + n) → RoomAt ps (here + m) n
room_rest [] here m n room = tt
room_rest (p ∷ ps) here m n room = omega arith

-- The room left after the front of the octets was taken.
room_after :
    (d d' : Decoder) (m n : ℕ)
    → Took d m d'
    → RoomAt d.seq_pos (Stream.position d.s) (m + n)
    → RoomAt d'.seq_pos (Stream.position d'.s) n
room_after d d' m n t room =
    rw (t.sequences, t.stream.moved) (room_rest d.seq_pos (Stream.position d.s) m n room)

pub Element-bind :
    {A B : Type 0} {m : M A} {a : A} {b : B} (depth : ℕ) (f : A → M B) (bs cs : List ℕ)
    → Element depth m bs a
    → Element depth (f a) cs b
    → Element depth (m >>= f) (bs ++ cs) b
Element-bind depth f bs cs g k = record {
  run = λ d rest h room deep e.
      let here = e ∙ append_assoc bs cs rest in
      let all = subst (λ n. RoomAt d.seq_pos (Stream.position d.s) n) (length-append bs cs) room in
      let front = room_front d.seq_pos (Stream.position d.s) (length bs) (length cs) all in
      let (d₁, e₁, t₁) = g.run d (cs ++ rest) h front deep here in
      let after = room_after d d₁ (length bs) (length cs) t₁ all in
      let (d₂, e₂, t₂) =
        k.run d₁ rest t₁.stream.sound after
          (omega (arith, deep, ap (λ (t : List ℕ). length t) t₁.sequences))
          (Took-rest bs (cs ++ rest) t₁ here) in
      (
        d₂,
        ap (then_do f) e₁ ∙ e₂,
        subst (λ n. Took d n d₂) (sym (length-append bs cs))
            (Took-trans (length bs) (length cs) t₁ t₂),
      );
}

-- `end_sequence` passes over what was not read.
skip_to_lem :
    (extra : List ℕ) (d : Decoder) (rest : List ℕ) (end : ℕ)
    → IsSound d.s
    → window d.s ≡ extra ++ rest
    → Stream.position d.s + length extra ≡ end
    → (d' : Decoder) × (skip_to (length extra) end d ≡ (ok tt, d')) × Took d (length extra) d'
unfolding skip_to
skip_to_lem [] d rest end h e at = (d, refl, Took-refl d h)
skip_to_lem (b ∷ extra) d rest end h e at =
    let (d₁, e₁, t₁) = (Gives-octet b).run d (extra ++ rest) h e in
    let left = Took-rest (b ∷ []) (extra ++ rest) t₁ e in
    let (d₂, e₂, t₂) =
      skip_to_lem extra d₁ rest end t₁.stream.sound left (omega (arith, t₁.stream.moved)) in
    let more : ltb (Stream.position d.s) end ≡ true = ground arith in
    (
      d₂,
      rw (more, e₁, e₂),
      subst (λ n. Took d n d₂) (omega arith) (Took-trans 1 (length extra) t₁ t₂),
    )

-- A sequence read by `m`, with whatever is left of it passed over.
pub in_sequence : {A : Type 0} → Option TagInfo → M A → M A
in_sequence t m = do start_sequence t; a ← m; end_sequence; pure a

abbrev pub sequence_header : Option TagInfo → ℕ → AsnHeader
sequence_header t n = constructed (get_asn_class t) (get_tag t sequence_tag) n

abbrev pub HasSequenceTag : Option TagInfo → Type 0
HasSequenceTag t = (get_asn_class t < 4) × (get_tag t sequence_tag < 2 ^ 64)

open_lem :
    (t : Option TagInfo) (n : ℕ) (d : Decoder) (rest : List ℕ)
    → HasSequenceTag t
    → n ≤ max_constructed_size
    → IsSound d.s
    → is_end_of_sequence d ≡ false
    → length d.seq_pos < max_structure_depth
    → window d.s ≡ header_octets (sequence_header t n) ++ rest
    → (d' : Decoder) × (start_sequence t d ≡ (ok tt, d'))
      × Advanced d.s (length (header_octets (sequence_header t n))) d'.s
      × (d'.seq_pos ≡ (Stream.position d'.s + n) ∷ d.seq_pos)
unfolding start_sequence push
open_lem t n d rest tagged short h open_still deep e =
    let (d₁, e₁, t₁) =
      (header_found (sequence_header t n) tagged short).run d rest h open_still e in
    let same = ap (λ (t : List ℕ). length t) t₁.sequences in
    let shallow : leb max_structure_depth (length d₁.seq_pos) ≡ false = ground arith in
    (
      record d₁ { seq_pos = (Stream.position d₁.s + n) ∷ d₁.seq_pos },
      rw (e₁, shallow),
      t₁.stream,
      ap (λ t. (Stream.position d₁.s + n) ∷ t) t₁.sequences,
    )

close_lem :
    (extra : List ℕ) (d : Decoder) (rest ps : List ℕ) (p : ℕ)
    → IsSound d.s
    → window d.s ≡ extra ++ rest
    → d.seq_pos ≡ p ∷ ps
    → Stream.position d.s + length extra ≡ p
    → (d' : Decoder) × (end_sequence d ≡ (ok tt, d'))
      × Advanced d.s (length extra) d'.s
      × (d'.seq_pos ≡ ps)
unfolding end_sequence
close_lem extra d rest ps p h e open_here at =
    let (d', e', t') = skip_to_lem extra (record d { seq_pos = ps }) rest p h e at in
    let fuel : p - Stream.position d.s ≡ length extra = omega arith in
    (d', rw (open_here, fuel, e'), t'.stream, t'.sequences)

module _ {A : Type 0} (t : Option TagInfo) (depth : ℕ) (bs extra : List ℕ) where
  -- A sequence one level deeper: its header, what `m` reads, and what `m` leaves unread.
  pub sequence_Element :
      {m : M A} {a : A}
      → HasSequenceTag t
      → length (bs ++ extra) ≤ max_constructed_size
      → Element depth m bs a
      → Element
          (suc depth)
          (in_sequence t m)
          (header_octets (sequence_header t (length (bs ++ extra))) ++ (bs ++ extra))
          a
  unfolding in_sequence is_end_of_sequence ended_at
  sequence_Element {m} {a} tagged short inner = record { run = read_all }
    where
      n : ℕ
      n = length (bs ++ extra)

      hs : List ℕ
      hs = header_octets (sequence_header t n)

      sizes : (length (hs ++ (bs ++ extra)) ≡ length hs + n) × (n ≡ length bs + length extra)
      sizes = (length-append hs (bs ++ extra), length-append bs extra)

      read_all :
          (d : Decoder) (rest : List ℕ)
          → IsSound d.s
          → RoomAt d.seq_pos (Stream.position d.s) (length (hs ++ (bs ++ extra)))
          → length d.seq_pos + suc depth ≤ max_structure_depth
          → window d.s ≡ (hs ++ (bs ++ extra)) ++ rest
          → (d' : Decoder) × (in_sequence t m d ≡ (ok a, d'))
            × Took d (length (hs ++ (bs ++ extra))) d'
      read_all d rest h room deep e =
          let start = e ∙ append_assoc hs (bs ++ extra) rest in
          let open_still =
            room_is_open d.seq_pos (Stream.position d.s) (length (hs ++ (bs ++ extra)))
              (omega (arith, header_some (sequence_header t n), sizes)) room in
          let (d₁, e₁, a₁, q₁) =
            open_lem t n d ((bs ++ extra) ++ rest) tagged short h open_still (omega arith) start in
          let w₁ = a₁.left ∙ ap (drop (length hs)) start ∙ drop_append hs _ (length hs) refl in
          let inside : RoomAt d₁.seq_pos (Stream.position d₁.s) (length bs) =
            rw q₁ (omega (arith, sizes)) in
          let (d₂, e₂, t₂) =
            inner.run d₁ (extra ++ rest) a₁.sound inside
              (omega (arith, ap (λ (t : List ℕ). length t) q₁)) (w₁ ∙ append_assoc bs extra rest) in
          let w₂ = Took-rest bs (extra ++ rest) t₂ (w₁ ∙ append_assoc bs extra rest) in
          let (d₃, e₃, a₃, q₃) =
            close_lem extra d₂ rest d.seq_pos (Stream.position d₁.s + n) t₂.stream.sound w₂
              (t₂.sequences ∙ q₁) (omega (arith, t₂.stream.moved, sizes)) in
          (
            d₃,
            rw (e₁, e₂, e₃),
            record {
              stream =
                  subst (λ k. Advanced d.s k d₃.s) (omega (arith, sizes))
                    (Advanced-trans (length hs + length bs) (length extra)
                      (Advanced-trans (length hs) (length bs) a₁ t₂.stream) a₃);
              sequences = q₃;
            },
          )
