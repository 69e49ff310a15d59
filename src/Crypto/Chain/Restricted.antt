-- ===== src/Crypto/Chain/Restricted.antt =====
-- The subject of a chain, and is_authentic with a restriction that the subject must allow.
use securepath.Base.{
  ℕ, ◌≡◌, refl, ap, ◌∙◌, Bool, true, false, List, [], ◌∷◌, Option, arith, Result, ok, err, ◌>>=◌,
  if◌then◌else◌, bind_passes, ok_same,
}
use securepath.Crypto.Keys.{Algorithms, PublicKey, Certificate, KeyCertificateData, is_subset_of}
use securepath.Crypto.Chain.{
  Error, invalid_certificate_chain, KeyCertPair, CertificateChain, back, is_valid, is_authentic,
  back_data,
}
use securepath.Crypto.Chain.Authentic.{IsAuthentic, is_authentic-IsAuthentic}

module _ (a : Algorithms) (payload : List ℕ → Option KeyCertificateData) where
  unfoldable pub last_subject : List KeyCertPair → Result Error PublicKey
  last_subject [] = err invalid_certificate_chain
  last_subject (e ∷ es) = ok (back e es).subject

  unfoldable pub subject : CertificateChain → Result Error PublicKey
  unfolding last_subject
  subject c = if is_valid a payload c then last_subject c.chain else err invalid_certificate_chain

  last_restrictions : List KeyCertPair → Result Error (List ℕ)
  last_restrictions [] = err invalid_certificate_chain
  last_restrictions (e ∷ es) = do d ← back_data a payload (back e es); ok d.restriction

  unfoldable pub subject_restrictions : CertificateChain → Result Error (List ℕ)
  unfolding last_restrictions back_data
  subject_restrictions c =
      if is_valid a payload c then last_restrictions c.chain else err invalid_certificate_chain

  module _ (find_root_key : List ℕ → Option PublicKey) (find : List ℕ → Option Certificate) where
    unfoldable pub allows : CertificateChain → List ℕ → Bool → Result Error Bool
    allows c rest false = ok false
    allows c rest true = do mine ← subject_restrictions c; ok (is_subset_of rest mine)

    -- The overload with a restriction: the empty host name is no restriction.
    unfoldable pub is_authentic_within : CertificateChain → List ℕ → Result Error Bool
    unfolding allows
    is_authentic_within c rest = is_authentic a payload find_root_key find c >>= allows c rest

    allows_passes :
        (c : CertificateChain) (rest : List ℕ) (b : Bool)
        → allows c rest b ≡ ok true
        → (b ≡ true)
          × (mine : List ℕ) × (subject_restrictions c ≡ ok mine)
          × (is_subset_of rest mine ≡ true)
    unfolding allows
    allows_passes c rest false h = absurd (ground (arith, h))
    allows_passes c rest true h =
        let (mine, found, within) = bind_passes _ _ h in (refl, mine, found, ok_same within)

    pub is_authentic_within-IsAuthentic :
        (c : CertificateChain) (rest : List ℕ)
        → is_authentic_within c rest ≡ ok true
        → IsAuthentic a payload find_root_key find c
          × (mine : List ℕ) × (subject_restrictions c ≡ ok mine)
          × (is_subset_of rest mine ≡ true)
    unfolding is_authentic_within
    is_authentic_within-IsAuthentic c rest h =
        let (b, said, allowed) = bind_passes _ _ h in
        let (so, mine, found, within) = allows_passes c rest b allowed in
        (
          is_authentic-IsAuthentic a payload find_root_key find c (said ∙ ap ok so),
          mine,
          found,
          within,
        )
