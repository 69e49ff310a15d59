-- ===== src/Crypto/Chain/SearchFinds.antt =====
-- What the search for a chain finds.
use securepath.Base.{
  ℕ, zero, suc, ◌+◌, ◌^◌, ◌≡◌, refl, ap, sym, ◌∙◌, Bool, true, false, List, [], ◌∷◌, ◌++◌, Option,
  none, some, arith, ◌==◌, Result, ok, err, either_branch, bind_passes, ok_same, subst,
}
use mathlib.Core.List.{reverse, reverse-cons}
use securepath.Crypto.Keys.{Algorithms, PublicKey, Certificate, KeyCertificateData}
use securepath.Crypto.Chain.{
  Error, KeyCertPair, CertificateChain, key_certificate_id, back, extract, is_valid, is_authentic,
}
use securepath.Crypto.Chain.Authentic.{is_authentic-IsAuthentic}
use securepath.Crypto.Chain.Restricted.{subject, last_subject}
use securepath.Crypto.Chain.Search.{
  thrown_on, Found, Search, rises, kept_if, try_complete, follow_key, follow_root, follow_issuer,
  consider_level, consider, consider_found, unless_found, each_id, build_list,
  create_certificate_chain,
}

thrown_on_passes : {A : Type 0} (r : Result Error A) (x : A) → thrown_on r ≡ ok x → r ≡ ok x
thrown_on_passes (ok y) x h = ap ok (ok_same h)
thrown_on_passes (err e) x h = absurd (ground (arith, h))

some_chain : {c d : CertificateChain} → ◌≡◌ {A = Option CertificateChain} (some c) (some d) → c ≡ d
some_chain {c} e = ap (chain_or c) e
  where
    chain_or : CertificateChain → Option CertificateChain → CertificateChain
    chain_or d none = d
    chain_or d (some x) = x

-- A list that starts with the subject's key, or has none yet.
abbrev StartsWith : PublicKey → PublicKey → List KeyCertPair → Type 0
StartsWith key at [] = at ≡ key
StartsWith key at (e ∷ es) = e.subject ≡ key

-- A list with the new link at its end.
starts_append :
    (key at : PublicKey) (cert : Certificate) (list : List KeyCertPair)
    → StartsWith key at list
    → (e : KeyCertPair) × (es : List KeyCertPair) × (list
          ++ record { subject = at; cert = cert } ∷ []
        ≡ e ∷ es)
      × (e.subject ≡ key)
starts_append key at cert [] h = (record { subject = at; cert = cert }, [], refl, h)
starts_append key at cert (e ∷ es) h = (e, es ++ record { subject = at; cert = cert } ∷ [], refl, h)

module _ (a : Algorithms) (payload : List ℕ → Option KeyCertificateData)
    (find_root_key : List ℕ → Option PublicKey) (find_key : List ℕ → Option PublicKey)
    (find : List ℕ → Option Certificate) (key : PublicKey) where
  -- A chain that is authentic and ends with the key.
  abbrev IsFor : CertificateChain → Type 0
  IsFor c = (is_authentic a payload find_root_key find c ≡ ok true) × (subject a payload c ≡ ok key)

  abbrev Finds : Found → Type 0
  Finds r = (c : CertificateChain) → r ≡ ok (some c) → IsFor c

  nothing : Finds (ok none)
  nothing c h = absurd (ground (arith, ok_same h))

  last_of-append :
      (es : List KeyCertPair) (e : KeyCertPair)
      → last_subject a payload (es ++ e ∷ []) ≡ ok e.subject
  unfolding last_subject
  last_of-append [] e = refl
  last_of-append (f ∷ es) e = ap (λ (p : KeyCertPair). ok p.subject) (back-append f es)
    where
      back-append : (f : KeyCertPair) (es : List KeyCertPair) → back f (es ++ e ∷ []) ≡ e
      back-append f [] = refl
      back-append f (g ∷ es) = back-append g es

  is_valid-subject :
      (c : CertificateChain)
      → is_valid a payload c ≡ true
      → last_subject a payload c.chain ≡ ok key
      → subject a payload c ≡ ok key
  unfolding subject
  is_valid-subject c valid h = rw valid h

  authentic-valid :
      (c : CertificateChain)
      → is_authentic a payload find_root_key find c ≡ ok true
      → is_valid a payload c ≡ true
  unfolding is_valid
  authentic-valid c h =
      let i = is_authentic-IsAuthentic a payload find_root_key find c h in
      let lo = i.some_link in let root = i.root_named in ground arith

  try_complete-Finds :
      (cert : Certificate) (list : List KeyCertPair) (e : KeyCertPair) (es : List KeyCertPair)
      → list ≡ e ∷ es
      → e.subject ≡ key
      → Finds (try_complete a payload find_root_key find_key find cert list)
  unfolding try_complete kept_if
  try_complete-Finds cert list e es same is c h =
      let (b, said, kept) = bind_passes _ _ h in at_answer b (thrown_on_passes _ b said) kept
    where
      completed : CertificateChain
      completed = record { root_key_id = cert.sig.issuer; chain = reverse list }

      at_answer :
          (b : Bool)
          → is_authentic a payload find_root_key find completed ≡ ok b
          → kept_if a payload find_root_key find_key find completed b ≡ ok (some c)
          → IsFor c
      at_answer false said kept = absurd (ground (arith, ok_same kept))
      at_answer true said kept = subst IsFor (some_chain (ok_same kept)) (
        said,
        is_valid-subject completed (authentic-valid completed said) (
            ap (last_subject a payload) (ap reverse same ∙ reverse-cons e es)
            ∙ last_of-append (reverse es) e
            ∙ ap ok is),
      )

  -- A search that finds only chains for the key, from a list for it.
  abbrev FindsFor : Search → Type 0
  FindsFor more =
      (at : PublicKey) (level : ℕ) (e : KeyCertPair) (es list : List KeyCertPair)
      → list ≡ e ∷ es
      → e.subject ≡ key
      → Finds (more at (some level) list)

  module _ (more : Search) (finds : FindsFor more) where
    follow_issuer-Finds :
        (cert : Certificate) (level : ℕ) (e : KeyCertPair) (es list : List KeyCertPair)
        → list ≡ e ∷ es
        → e.subject ≡ key
        → Finds (follow_issuer a payload find_root_key find_key find more cert level list)
    unfolding follow_issuer follow_root follow_key
    follow_issuer-Finds cert level e es list same is = at_root (find_root_key cert.sig.issuer)
      where
        at_key :
            (o : Option PublicKey)
            → Finds (follow_key a payload find_root_key find_key find more level list o)
        at_key none = nothing
        at_key (some next) = finds next level e es list same is

        at_root :
            (o : Option PublicKey)
            → Finds (follow_root a payload find_root_key find_key find more cert level list o)
        at_root none = at_key (find_key cert.sig.issuer)
        at_root (some root) = try_complete-Finds cert list e es same is

    consider_found-Finds :
        (at : PublicKey) (last : Option ℕ) (list : List KeyCertPair) (o : Option Certificate)
        → StartsWith key at list
        → Finds (consider_found a payload find_root_key find_key find more at last list o)
    unfolding consider_found consider consider_level
    consider_found-Finds at last list none start = nothing
    consider_found-Finds at last list (some cert) start =
        either_branch Finds (cert.certificate_type == key_certificate_id)
          (λ _ c h.
            let (d, says, found) =
              bind_passes (thrown_on (extract a payload cert))
                (consider_level a payload find_root_key find_key find more at cert last list) h in
            at_level d c found)
          (λ _. nothing)
      where
        at_level :
            (d : KeyCertificateData)
            → Finds (consider_level a payload find_root_key find_key find more at cert last list d)
        at_level d =
            let (e, es, same, is) = starts_append key at cert list start in
            either_branch Finds (rises last d.ca_level)
              (λ _. follow_issuer-Finds cert d.ca_level e es _ same is) (λ _. nothing)

    each_id-Finds :
        (at : PublicKey) (last : Option ℕ) (list : List KeyCertPair) (ids : List (List ℕ))
        → StartsWith key at list
        → Finds (each_id a payload find_root_key find_key find more at last list ids)
    unfolding each_id unless_found
    each_id-Finds at last list [] start c h = nothing c h
    each_id-Finds at last list (id ∷ ids) start c h =
        let (o, said, rest) = bind_passes _ _ h in
        at_first o said (each_id-Finds at last list ids start) rest
      where
        at_first :
            (o : Option CertificateChain)
            → consider_found a payload find_root_key find_key find more at last list (find id)
              ≡ ok o
            → Finds (each_id a payload find_root_key find_key find more at last list ids)
            → unless_found a payload find_root_key find_key find
                (each_id a payload find_root_key find_key find more at last list ids)
                o
              ≡ ok (some c)
            → IsFor c
        at_first none said later h' = later c h'
        at_first (some x) said later h' =
            consider_found-Finds at last list (find id) start c (said ∙ h')

  build_list-Finds :
      (fuel : ℕ) (at : PublicKey) (last : Option ℕ) (list : List KeyCertPair)
      → StartsWith key at list
      → Finds (build_list a payload find_root_key find_key find fuel at last list)
  unfolding build_list
  build_list-Finds zero at last list start c h = absurd (ground (arith, h))
  build_list-Finds (suc fuel) at last list start c h =
      each_id-Finds (build_list a payload find_root_key find_key find fuel)
        (λ next level e es list' same is.
          build_list-Finds fuel next (some level) list' (subst (StartsWith key next) (sym same) is))
        at last list at.certificate_ids start c h

  -- A chain that the search finds is authentic, for the same stores, and its subject is the key that the
  -- chain was to be for.
  pub create_certificate_chain-is_authentic :
      (c : CertificateChain)
      → create_certificate_chain a payload find_root_key find_key find key ≡ ok (some c)
      → (is_authentic a payload find_root_key find c ≡ ok true) × (subject a payload c ≡ ok key)
  unfolding create_certificate_chain
  create_certificate_chain-is_authentic c h = build_list-Finds (2 ^ 16 + 1) key none [] refl c h
