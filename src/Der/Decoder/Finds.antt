-- ===== src/Der/Decoder/Finds.antt =====
-- Finding a header where an element is expected.
use securepath.Base.{
  ℕ, ◌<◌, ◌≡◌, refl, ap, sym, ◌∙◌, subst, true, false, ◌&&◌, List, [], ◌∷◌, ◌++◌, arith, length,
  ◌==◌, append_assoc, append-nil, ok, length-append,
}
use securepath.Der.Types.{AsnHeader}
use securepath.Der.Stream
use securepath.Der.Stream.Window.{IsSound, window}
use securepath.Der.Stream.Reads.{readable_bytes_yes}
use securepath.Der.Encoder.Output.{tag_octets, header_octets}
use securepath.Der.Decoder.{
  Decoder, M, then_do, ◌>>=◌, decode_header, is_end_of_sequence, nothing_left,
}
use securepath.Der.Decoder.Gives.{Took, Took-refl, Took-rest, Took-trans, Gives}
use securepath.Der.Decoder.Headers.{IsTag, IsAllowed, header_Gives}
use native.Mathlib.Nat.{zero-add}

-- `m` finds its element `bs` where no sequence ends.
pub record Finds {A : Type 0} (m : M A) (bs : List ℕ) (a : A) : Type 0 where
  pub run :
      (d : Decoder) (rest : List ℕ)
      → IsSound d.s
      → is_end_of_sequence d ≡ false
      → window d.s ≡ bs ++ rest
      → (d' : Decoder) × (m d ≡ (ok a, d')) × Took d (length bs) d'

pub Finds-bind :
    {A B : Type 0} {m : M A} {a : A} {b : B} (f : A → M B) (bs cs : List ℕ)
    → Finds m bs a
    → Gives (f a) cs b
    → Finds (m >>= f) (bs ++ cs) b
Finds-bind f bs cs g k = record {
  run = λ d rest h open_still e.
      let here = e ∙ append_assoc bs cs rest in
      let (d₁, e₁, t₁) = g.run d (cs ++ rest) h open_still here in
      let (d₂, e₂, t₂) = k.run d₁ rest t₁.stream.sound (Took-rest bs (cs ++ rest) t₁ here) in
      (
        d₂,
        ap (then_do f) e₁ ∙ e₂,
        subst (λ n. Took d n d₂) (sym (length-append bs cs))
            (Took-trans (length bs) (length cs) t₁ t₂),
      );
}

pub header_some : (h : AsnHeader) → 0 < length (header_octets h)
unfolding header_octets tag_octets
header_some h = ground arith

-- The look for the end of the stream takes nothing while an octet is left.
nothing_left_no :
    (d : Decoder)
    → IsSound d.s
    → 0 < length (window d.s)
    → (d' : Decoder) × (nothing_left d.seq_pos d ≡ (ok false, d')) × Took d 0 d'
unfolding nothing_left
nothing_left_no d h octet = go d.s d.seq_pos h octet
  where
    go :
        (s : Stream.BufferedStream) (ps : List ℕ)
        → IsSound s
        → 0 < length (window s)
        → (d' : Decoder) × (nothing_left ps (record { s = s; seq_pos = ps }) ≡ (ok false, d'))
          × Took (record { s = s; seq_pos = ps }) 0 d'
    go s [] h octet =
        let (s', r, adv) = readable_bytes_yes s 1 h octet in
        (record { s = s'; seq_pos = [] }, rw r, record { stream = adv; sequences = refl })
    go s (p ∷ ps) h octet =
        (record { s = s; seq_pos = p ∷ ps }, refl, Took-refl (record { s = s; seq_pos = p ∷ ps }) h)

-- A header is found under its own class and tag.
pub header_found :
    (h : AsnHeader)
    → IsTag h
    → IsAllowed h
    → Finds (decode_header h.asn_class h.tag) (header_octets h) h
unfolding decode_header
header_found h t le = record { run = found }
  where
    found :
        (d : Decoder) (rest : List ℕ)
        → IsSound d.s
        → is_end_of_sequence d ≡ false
        → window d.s ≡ header_octets h ++ rest
        → (d' : Decoder) × (decode_header h.asn_class h.tag d ≡ (ok h, d'))
          × Took d (length (header_octets h)) d'
    found d rest sound open_still e =
        let octet : 0 < length (window d.s) =
          omega (arith, header_some h, ap length e, length-append (header_octets h) rest) in
        let (d₁, e₁, t₁) = nothing_left_no d sound octet in
        let (d₂, e₂, t₂) = (header_Gives h t le).run d₁ rest t₁.stream.sound (t₁.stream.left ∙ e) in
        let match : (h.asn_class == h.asn_class && (h.tag == h.tag)) ≡ true = ground arith in
        (
          d₂,
          rw (open_still, e₁, e₂, match),
          subst (λ n. Took d n d₂) (zero-add (length (header_octets h)))
              (Took-trans 0 (length (header_octets h)) t₁ t₂),
        )

pub Finds-last :
    {A B : Type 0} {m : M A} {a : A} {b : B} (f : A → M B) (bs : List ℕ)
    → Finds m bs a
    → Gives (f a) [] b
    → Finds (m >>= f) bs b
Finds-last {m = m} {b = b} f bs g k =
    subst (λ cs. Finds (m >>= f) cs b) (append-nil bs) (Finds-bind f bs [] g k)
