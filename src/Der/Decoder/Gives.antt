-- ===== src/Der/Decoder/Gives.antt =====
-- What a decoding step does on the octets that it is meant for.
use securepath.Base.{
  ℕ, ◌+◌, ◌≡◌, refl, ap, sym, ◌∙◌, Bool, true, List, [], ◌∷◌, ◌++◌, arith, length, take, drop,
  length-append, take_append, drop_append, append_assoc, append-nil, ok, get_or, subst,
}
use securepath.Der.Types.{Error}
use securepath.Der.Stream.Window.{IsSound, window, Advanced, Advanced-trans, Advanced-refl}
use securepath.Der.Stream.Reads.{read_lem}
use securepath.Der.Decoder.{
  Decoder, M, pure, then_do, ◌>>=◌, ◌>>◌, require, read, read_octet, with_stream,
}

-- `n` octets were taken, and no sequence was opened or closed.
pub record Took (d : Decoder) (n : ℕ) (d' : Decoder) : Type 0 where
  pub stream : Advanced d.s n d'.s
  pub sequences : d'.seq_pos ≡ d.seq_pos

-- On the octets `bs`, whatever follows them, `m` returns `a` and takes just these octets.
pub record Gives {A : Type 0} (m : M A) (bs : List ℕ) (a : A) : Type 0 where
  pub run :
      (d : Decoder) (rest : List ℕ)
      → IsSound d.s
      → window d.s ≡ bs ++ rest
      → (d' : Decoder) × (m d ≡ (ok a, d')) × Took d (length bs) d'

pub Took-rest :
    {d d' : Decoder} (bs rest : List ℕ)
    → Took d (length bs) d'
    → window d.s ≡ bs ++ rest
    → window d'.s ≡ rest
Took-rest bs rest t e =
    t.stream.left ∙ ap (drop (length bs)) e ∙ drop_append bs rest (length bs) refl

pub Took-trans : {a b c : Decoder} (m n : ℕ) → Took a m b → Took b n c → Took a (m + n) c
Took-trans m n x y = record {
  stream = Advanced-trans m n x.stream y.stream;
  sequences = y.sequences ∙ x.sequences;
}

pub Took-refl : (d : Decoder) → IsSound d.s → Took d 0 d
Took-refl d h = record { stream = Advanced-refl d.s h; sequences = refl }

pub Gives-pure : {A : Type 0} (a : A) → Gives (pure a) [] a
Gives-pure a = record { run = λ d rest h e. (d, refl, Took-refl d h) }

pub Gives-bind :
    {A B : Type 0} {m : M A} {a : A} {b : B} (f : A → M B) (bs cs : List ℕ)
    → Gives m bs a
    → Gives (f a) cs b
    → Gives (m >>= f) (bs ++ cs) b
Gives-bind {m = m} {b = b} f bs cs g k = record { run = both }
  where
    both :
        (d : Decoder) (rest : List ℕ)
        → IsSound d.s
        → window d.s ≡ (bs ++ cs) ++ rest
        → (d' : Decoder) × ((m >>= f) d ≡ (ok b, d')) × Took d (length (bs ++ cs)) d'
    both d rest h e =
        let here = e ∙ append_assoc bs cs rest in
        let (d₁, e₁, t₁) = g.run d (cs ++ rest) h here in
        let (d₂, e₂, t₂) = k.run d₁ rest t₁.stream.sound (Took-rest bs (cs ++ rest) t₁ here) in
        (
          d₂,
          ap (then_do f) e₁ ∙ e₂,
          subst (λ n. Took d n d₂) (sym (length-append bs cs))
              (Took-trans (length bs) (length cs) t₁ t₂),
        )

-- A check that passes, in front.
pub Gives-require :
    {B : Type 0} {m : M B} {b : B} (test : Bool) (x : Error) (cs : List ℕ)
    → test ≡ true
    → Gives m cs b
    → Gives (require test x >> m) cs b
Gives-require {m = m} test x cs p k = rw p (record { run = λ d rest h e. k.run d rest h e })

-- A last step on the value alone.
pub Gives-map :
    {A B : Type 0} {m : M A} {a : A} (f : A → B) (bs : List ℕ)
    → Gives m bs a
    → Gives (m >>= λ x. pure (f x)) bs (f a)
Gives-map f bs g = record {
  run = λ d rest h e.
      let (d₁, e₁, t₁) = g.run d rest h e in (d₁, ap (then_do (λ x. pure (f x))) e₁, t₁);
}

pub Gives-read : (bs : List ℕ) → Gives (read (length bs)) bs bs
unfolding read
Gives-read bs = record { run = taken }
  where
    taken :
        (d : Decoder) (rest : List ℕ)
        → IsSound d.s
        → window d.s ≡ bs ++ rest
        → (d' : Decoder) × (read (length bs) d ≡ (ok bs, d')) × Took d (length bs) d'
    taken d rest h e =
        let (s, r, t) =
          read_lem d.s (length bs) h (omega (arith, ap length e, length-append bs rest)) in
        (
          record d { s = s },
          ap (with_stream d) r
              ∙ ap (λ t. (ok t, record d { s = s }))
                  (ap (take (length bs)) e ∙ take_append bs rest (length bs) refl),
          record { stream = t; sequences = refl },
        )

pub Gives-octet : (b : ℕ) → Gives read_octet (b ∷ []) b
unfolding read_octet
Gives-octet b = Gives-map (λ t. get_or t 0 0) (b ∷ []) (Gives-read (b ∷ []))

pub Gives-read_count : (n : ℕ) (bs : List ℕ) → length bs ≡ n → Gives (read n) bs bs
Gives-read_count n bs e = subst (λ k. Gives (read k) bs bs) e (Gives-read bs)

-- A last step that takes nothing.
pub Gives-last :
    {A B : Type 0} {m : M A} {a : A} {b : B} (f : A → M B) (bs : List ℕ)
    → Gives m bs a
    → Gives (f a) [] b
    → Gives (m >>= f) bs b
Gives-last {m = m} {b = b} f bs g k =
    subst (λ cs. Gives (m >>= f) cs b) (append-nil bs) (Gives-bind f bs [] g k)
