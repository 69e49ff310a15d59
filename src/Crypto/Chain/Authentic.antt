-- ===== src/Crypto/Chain/Authentic.antt =====
-- `is_authentic` against what a chain promises.
use securepath.Base.{
  ℕ, ◌≤◌, ◌<◌, ◌≡◌, refl, ap, sym, ◌∙◌, Bool, true, false, List, [], ◌∷◌, ◌++◌, subst, Option, none,
  some, arith, length, ltb, ◌==◌, Result, ok, err, Bool-cases, inl, inr, if◌then◌else◌,
}
use securepath.Crypto.Keys.{Algorithms, PublicKey, Certificate, KeyCertificateData}
use securepath.Crypto.Chain.{
  Error, KeyCertPair, CertificateChain, CheckData, unrestricted, max_chain_length, checked,
  check_rest, check_chain, check_chain_element, from_root, is_authentic, is_valid,
  is_revoked_in_store, is_thrown, extract,
}
use securepath.Crypto.Chain.Links.{IsLink, limit_of, check_link-IsLink, IsLink-check_link}

abbrev passed_value : CheckData → Result Error (Option CheckData) → CheckData
passed_value d (ok (some x)) = x
passed_value d (ok none) = d
passed_value d (err e) = d

module _ (a : Algorithms) (payload : List ℕ → Option KeyCertificateData)
    (find_root_key : List ℕ → Option PublicKey) (find : List ℕ → Option Certificate) where
  -- Each link is one from the key before it, below the limit that it set, and the verifier's own
  -- store has no revoked copy of its certificate.
  abbrev pub AreLinks : PublicKey → CheckData → List KeyCertPair → Type 0
  AreLinks previous limit [] = Unit {0}
  AreLinks previous limit (e ∷ es) =
      (d : KeyCertificateData) × IsLink a payload previous limit e d
      × (is_revoked_in_store a payload find_root_key find e.cert previous ≡ false)
      × AreLinks e.subject (limit_of d) es

  abbrev revoked : Certificate → PublicKey → Bool
  revoked cert previous = is_revoked_in_store a payload find_root_key find cert previous

  checked_passes :
      (r : Result Error CheckData) (cert : Certificate) (previous : PublicKey) (next : CheckData)
      → checked a payload find_root_key find r cert previous ≡ ok (some next)
      → (r ≡ ok next) × (is_revoked_in_store a payload find_root_key find cert previous ≡ false)
  unfolding checked
  checked_passes (ok data_) cert previous next h = elim (Bool-cases (revoked cert previous)) [
    | inl bad ↦
        absurd (ground (arith, sym (ap (λ t. if t then ok none else ok (some data_)) bad) ∙ h))
    | inr kept ↦
        let same : ◌≡◌ {A = Result Error (Option CheckData)} (ok (some data_)) (ok (some next)) =
          sym (ap (λ t. if t then ok none else ok (some data_)) kept) ∙ h in
        (ap ok (ap (passed_value data_) same), kept)
  ]
  checked_passes (err e) cert previous next h = elim (Bool-cases (is_thrown e)) [
    | inl thrown ↦ absurd (ground (arith, sym (ap (λ t. if t then err e else ok none) thrown) ∙ h))
    | inr found ↦ absurd (ground (arith, sym (ap (λ t. if t then err e else ok none) found) ∙ h))
  ]

  check_rest_passes :
      (more : CheckData → Result Error Bool) (r : Result Error (Option CheckData))
      → check_rest a payload find_root_key find more r ≡ ok true
      → (next : CheckData) × (r ≡ ok (some next)) × (more next ≡ ok true)
  unfolding check_rest
  check_rest_passes more (err t) h = absurd (ground (arith, h))
  check_rest_passes more (ok none) h = absurd (ground (arith, h))
  check_rest_passes more (ok (some next)) h = (next, refl, h)

  check_chain-AreLinks :
      (es : List KeyCertPair) (previous : PublicKey) (limit : CheckData)
      → check_chain a payload find_root_key find es previous limit ≡ ok true
      → AreLinks previous limit es
  unfolding check_chain check_chain_element
  check_chain-AreLinks [] previous limit h = tt
  check_chain-AreLinks (e ∷ es) previous limit h =
      let (next, passed, more) = check_rest_passes _ _ h in
      let (linked, kept) = checked_passes _ e.cert previous next passed in
      let (d, link, same_limit) = check_link-IsLink a payload previous limit next e linked in
      (
        d,
        link,
        kept,
        check_chain-AreLinks es e.subject (limit_of d)
            (ap (check_chain a payload find_root_key find es e.subject) (sym same_limit) ∙ more),
      )

  AreLinks-check_chain :
      (es : List KeyCertPair) (previous : PublicKey) (limit : CheckData)
      → AreLinks previous limit es
      → check_chain a payload find_root_key find es previous limit ≡ ok true
  unfolding check_chain check_chain_element checked check_rest
  AreLinks-check_chain [] previous limit h = refl
  AreLinks-check_chain (e ∷ es) previous limit (d, link, kept, more) =
      rw (IsLink-check_link a payload previous limit e d link, kept)
        (AreLinks-check_chain es e.subject (limit_of d) more)

  -- A chain the verifier may rely on.
  pub record IsAuthentic (c : CertificateChain) : Type 0 where
    pub root : PublicKey
    pub rooted : find_root_key c.root_key_id ≡ some root
    pub root_named : 0 < length c.root_key_id
    pub some_link : 0 < length c.chain
    pub short : length c.chain ≤ max_chain_length
    pub links : AreLinks root unrestricted c.chain

  from_root_passes :
      (es : List KeyCertPair) (r : Option PublicKey)
      → from_root a payload find_root_key find es r ≡ ok true
      → (root : PublicKey) × (r ≡ some root) × AreLinks root unrestricted es
  unfolding from_root
  from_root_passes es none h = absurd (ground (arith, h))
  from_root_passes es (some root) h = (root, refl, check_chain-AreLinks es root unrestricted h)

  -- Where `is_authentic` says true, the chain has at least one and at most `max_chain_length` links,
  -- starts at a known root key, and each link is signed, unrevoked (by the stapled revocation and by
  -- the verifier's store), issued by and about the keys around it, and below the ca level and within
  -- the restrictions of the one before it.
  pub is_authentic-IsAuthentic :
      (c : CertificateChain) → is_authentic a payload find_root_key find c ≡ ok true → IsAuthentic c
  unfolding is_authentic is_valid
  is_authentic-IsAuthentic c h = elim (Bool-cases (ltb max_chain_length (length c.chain))) [
    | inl long ↦ absurd (ground (arith, h, long))
    | inr short ↦ elim (Bool-cases (is_valid a payload c)) [
      | inl valid ↦
          let (root, rooted, links) =
            from_root_passes c.chain (find_root_key c.root_key_id) (stepped c short valid h) in
          record {
            root = root;
            rooted = rooted;
            root_named = ground (arith, valid);
            some_link = ground (arith, valid);
            short = ground (arith, short);
            links = links;
          }
      | inr invalid ↦ absurd (ground (arith, h, short, invalid))
    ]
  ]
    where
      stepped :
          (c : CertificateChain)
          → ltb max_chain_length (length c.chain) ≡ false
          → is_valid a payload c ≡ true
          → is_authentic a payload find_root_key find c ≡ ok true
          → from_root a payload find_root_key find c.chain (find_root_key c.root_key_id) ≡ ok true
      stepped c short valid h = sym (rw (short, valid) refl) ∙ h

  -- Each such chain is accepted: `is_authentic` says true and does not throw.
  pub IsAuthentic-is_authentic :
      (c : CertificateChain) → IsAuthentic c → is_authentic a payload find_root_key find c ≡ ok true
  unfolding is_authentic is_valid from_root
  IsAuthentic-is_authentic c i =
      let short : ltb max_chain_length (length c.chain) ≡ false =
        let le = i.short in ground arith in
      let links : (length c.chain == 0) ≡ false = let lt = i.some_link in ground arith in
      let root : (length c.root_key_id == 0) ≡ false = let lt = i.root_named in ground arith in
      rw (short, links, root, i.rooted) (AreLinks-check_chain c.chain i.root unrestricted i.links)

  -- Under a key of ca level `n` there are at most `n` links: the levels fall with each link.
  AreLinks-length :
      (es : List KeyCertPair) (previous : PublicKey) (limit : CheckData)
      → AreLinks previous limit es
      → length es ≤ limit.ca_level
  AreLinks-length [] previous limit h = omega arith
  AreLinks-length (e ∷ es) previous limit (d, link, kept, more) =
      omega (arith, AreLinks-length es e.subject (limit_of d) more, link.lower)

  abbrev ca_level_in : Result Error KeyCertificateData → ℕ
  ca_level_in (ok d) = d.ca_level
  ca_level_in (err e) = 0

  AreLinks-after :
      (front : List KeyCertPair) (e : KeyCertPair) (es : List KeyCertPair) (d : KeyCertificateData)
      (previous : PublicKey) (limit : CheckData)
      → AreLinks previous limit (front ++ e ∷ es)
      → extract a payload e.cert ≡ ok d
      → length es ≤ d.ca_level
  AreLinks-after [] e es d previous limit (d', link, kept, more) says =
      let same = ap ca_level_in (sym link.says ∙ says) in
      let few = AreLinks-length es e.subject (limit_of d') more in omega arith
  AreLinks-after (f ∷ front) e es d previous limit (d', link, kept, more) says =
      AreLinks-after front e es d f.subject (limit_of d') more says

  -- In a chain that `is_authentic` accepts, a link whose certificate says ca level `n` has at most `n`
  -- links after it, wherever it stands and whatever the stores and the root keys.
  pub is_authentic-length :
      (c : CertificateChain) (front : List KeyCertPair) (e : KeyCertPair) (es : List KeyCertPair)
      (d : KeyCertificateData)
      → is_authentic a payload find_root_key find c ≡ ok true
      → c.chain ≡ front ++ e ∷ es
      → extract a payload e.cert ≡ ok d
      → length es ≤ d.ca_level
  is_authentic-length c front e es d accepted at says =
      let i = is_authentic-IsAuthentic c accepted in
      AreLinks-after front e es d i.root unrestricted
        (subst (AreLinks i.root unrestricted) at i.links) says
