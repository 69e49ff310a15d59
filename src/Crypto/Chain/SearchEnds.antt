-- ===== src/Crypto/Chain/SearchEnds.antt =====
-- The search for a chain ends, and what it finds is authentic.
use securepath.Base.{
  ℕ, zero, suc, ◌+◌, ◌^◌, ◌≤◌, ◌<◌, ◌≡◌, ◌≢◌, refl, ap, sym, ◌∙◌, Bool, true, false, List, [], ◌∷◌,
  Option, none, some, arith, ◌==◌, if◌then◌else◌, Result, ok, err, ◌>>=◌, either_branch, ok_same,
  inl, inr, Bool-cases,
}
use mathlib.Core.List.{reverse}
use securepath.Crypto.Keys.{Algorithms, PublicKey, Certificate, KeyCertificateData}
use securepath.Crypto.Chain.{
  Error, KeyCertPair, CertificateChain, key_certificate_id, extract, extracted, not_deserialised,
}
use securepath.Crypto.Chain.Search.{
  SearchError, out_of_fuel, thrown, thrown_on, Found, Search, rises, kept_if, try_complete,
  follow_key, follow_root, follow_issuer, consider_level, consider, consider_found, unless_found,
  each_id, build_list, create_certificate_chain,
}

abbrev Ends : Found → Type 0
Ends r = r ≢ err out_of_fuel

bind-Ends :
    {A : Type 0} (m : Result SearchError A) (f : A → Found)
    → m ≢ err out_of_fuel
    → ((v : A) → m ≡ ok v → Ends (f v))
    → Ends (m >>= f)
bind-Ends (ok v) f first rest = rest v refl
bind-Ends (err out_of_fuel) f first rest = absurd (first refl)
bind-Ends (err (thrown e)) f first rest = λ h. absurd (ground (arith, h))

thrown_on-Ends : {A : Type 0} (r : Result Error A) → thrown_on r ≢ err out_of_fuel
thrown_on-Ends (ok x) h = absurd (ground (arith, h))
thrown_on-Ends (err e) h = absurd (ground (arith, h))

returns-Ends : (c : Option CertificateChain) → Ends (ok c)
returns-Ends c h = absurd (ground (arith, h))

-- The least level that may come next.
abbrev rank : Option ℕ → ℕ
rank none = 0
rank (some level) = level + 1

rises-rank : (last : Option ℕ) (level : ℕ) → rises last level ≡ true → rank last ≤ level
rises-rank none level h = omega arith
rises-rank (some l) level h = ground (arith, h)

module _ (a : Algorithms) (payload : List ℕ → Option KeyCertificateData)
    (find_root_key : List ℕ → Option PublicKey) (find_key : List ℕ → Option PublicKey)
    (find : List ℕ → Option Certificate)
    (small : (octets : List ℕ) (d : KeyCertificateData)
      → payload octets ≡ some d
      → d.ca_level < 2 ^ 16) where
  extracted-small :
      (octets : List ℕ) (o : Option KeyCertificateData) (d : KeyCertificateData)
      → payload octets ≡ o
      → extracted a payload o ≡ ok d
      → d.ca_level < 2 ^ 16
  unfolding extracted
  extracted-small octets none d e h = absurd (ground (arith, h))
  extracted-small octets (some x) d e h = small octets d (e ∙ ap some (ok_same h))

  extract-small :
      (cert : Certificate) (d : KeyCertificateData)
      → extract a payload cert ≡ ok d
      → d.ca_level < 2 ^ 16
  unfolding extract
  extract-small cert d h = elim (Bool-cases (cert.certificate_type == key_certificate_id)) [
    | inl is ↦
        extracted-small cert.certificate_data (payload cert.certificate_data) d refl
          (sym (rw is refl) ∙ h)
    | inr isnt ↦ absurd (
        ground (
          arith,
          sym (
                ap
                  (λ t.
                    if t
                    then extracted a payload (payload cert.certificate_data)
                    else err not_deserialised)
                  isnt)
              ∙ h,
        ))
  ]

  -- A search that ends wherever the level is at least `level`.
  abbrev EndsFrom : ℕ → Search → Type 0
  EndsFrom level more =
      (subject : PublicKey) (next : ℕ) (list : List KeyCertPair)
      → level ≤ next
      → next < 2 ^ 16
      → Ends (more subject (some next) list)

  try_complete-Ends :
      (cert : Certificate) (list : List KeyCertPair)
      → Ends (try_complete a payload find_root_key find_key find cert list)
  unfolding try_complete kept_if
  try_complete-Ends cert list = bind-Ends _ _ (thrown_on-Ends _) (λ b said. kept b)
    where
      kept :
          (b : Bool)
          → Ends (
              kept_if a payload find_root_key find_key find
                (record { root_key_id = cert.sig.issuer; chain = reverse list })
                b)
      kept true = returns-Ends _
      kept false = returns-Ends _

  module _ (level : ℕ) (more : Search) (ends : EndsFrom level more) where
    follow_issuer-Ends :
        (cert : Certificate) (next : ℕ) (list : List KeyCertPair)
        → level ≤ next
        → next < 2 ^ 16
        → Ends (follow_issuer a payload find_root_key find_key find more cert next list)
    unfolding follow_issuer follow_root follow_key
    follow_issuer-Ends cert next list le lt = at_root (find_root_key cert.sig.issuer)
      where
        at_key :
            (o : Option PublicKey)
            → Ends (follow_key a payload find_root_key find_key find more next list o)
        at_key none = returns-Ends none
        at_key (some key) = ends key next list le lt

        at_root :
            (o : Option PublicKey)
            → Ends (follow_root a payload find_root_key find_key find more cert next list o)
        at_root none = at_key (find_key cert.sig.issuer)
        at_root (some root) = try_complete-Ends cert list

    each_id-Ends :
        (subject : PublicKey) (last : Option ℕ) (list : List KeyCertPair) (ids : List (List ℕ))
        → level ≤ rank last
        → Ends (each_id a payload find_root_key find_key find more subject last list ids)
    unfolding each_id consider_found consider consider_level unless_found
    each_id-Ends subject last list [] le = returns-Ends none
    each_id-Ends subject last list (id ∷ ids) le =
        bind-Ends _ _ (at_found (find id))
          (λ c said. stopped (each_id-Ends subject last list ids le) c)
      where
        at_level :
            (cert : Certificate) (d : KeyCertificateData)
            → extract a payload cert ≡ ok d
            → Ends
                (consider_level a payload find_root_key find_key find more subject cert last list d)
        at_level cert d says =
            either_branch Ends (rises last d.ca_level)
              (λ up.
                let r = rises-rank last d.ca_level up in
                follow_issuer-Ends cert d.ca_level _ (omega arith) (extract-small cert d says))
              (λ _. returns-Ends none)

        unthrown :
            (r : Result Error KeyCertificateData) (d : KeyCertificateData)
            → thrown_on r ≡ ok d
            → r ≡ ok d
        unthrown (ok x) d h = ap ok (ok_same h)
        unthrown (err e) d h = absurd (ground (arith, h))

        at_found :
            (o : Option Certificate)
            → Ends (consider_found a payload find_root_key find_key find more subject last list o)
        at_found none = returns-Ends none
        at_found (some cert) =
            either_branch Ends (cert.certificate_type == key_certificate_id)
              (λ _.
                bind-Ends _ _ (thrown_on-Ends _) (λ d says. at_level cert d (unthrown _ d says)))
              (λ _. returns-Ends none)

        stopped :
            Ends (each_id a payload find_root_key find_key find more subject last list ids)
            → (c : Option CertificateChain)
            → Ends (
                unless_found a payload find_root_key find_key find
                  (each_id a payload find_root_key find_key find more subject last list ids)
                  c)
        stopped rest none = rest
        stopped rest (some c) = returns-Ends (some c)

  build_list-Ends :
      (fuel : ℕ) (subject : PublicKey) (last : Option ℕ) (list : List KeyCertPair)
      → 2 ^ 16 < fuel + rank last
      → rank last ≤ 2 ^ 16
      → Ends (build_list a payload find_root_key find_key find fuel subject last list)
  unfolding build_list
  build_list-Ends zero subject last list enough bounded = absurd (omega arith)
  build_list-Ends (suc fuel) subject last list enough bounded =
      each_id-Ends (rank last) (build_list a payload find_root_key find_key find fuel)
        (λ key next list' le lt.
          build_list-Ends fuel key (some next) list' (omega arith) (omega arith))
        subject last list subject.certificate_ids (omega arith)

  -- The search comes to an end, with a chain, without one or with what a certificate throws, however the
  -- certificates refer to each other: the ca levels rise at each step and are below 2 ^ 16.
  pub create_certificate_chain-ends :
      (subject : PublicKey)
      → create_certificate_chain a payload find_root_key find_key find subject ≢ err out_of_fuel
  unfolding create_certificate_chain
  create_certificate_chain-ends subject =
      build_list-Ends (2 ^ 16 + 1) subject none [] (omega arith) (omega arith)
