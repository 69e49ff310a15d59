-- ===== src/Crypto/Chain/Extend.antt =====
-- `add_link` against `is_authentic`.
use securepath.Base.{
  ℕ, ◌<◌, ◌≡◌, refl, ap, sym, ◌∙◌, subst, true, false, List, [], ◌∷◌, ◌++◌, Option, arith, length,
  ◌==◌, Result, ok, err, ◌>>=◌, length-append,
}
use securepath.Crypto.Keys.{Algorithms, PublicKey, Certificate, KeyCertificateData}
use securepath.Crypto.Chain.{
  Error, KeyCertPair, CertificateChain, CheckData, unrestricted, max_chain_length, check_link,
  subject_data, add_link, is_authentic, is_valid, is_revoked_in_store,
}
use securepath.Crypto.Chain.Links.{limit_of, check_link-IsLink, bind_ok}
use securepath.Crypto.Chain.Authentic.{AreLinks, is_authentic-IsAuthentic, IsAuthentic-is_authentic}

abbrev subject_of :
    PublicKey × CheckData → Result Error (PublicKey × CheckData) → PublicKey × CheckData
subject_of p (ok q) = q
subject_of p (err e) = p

abbrev chain_of : CertificateChain → Result Error CertificateChain → CertificateChain
chain_of c (ok d) = d
chain_of c (err e) = c

module _ (a : Algorithms) (payload : List ℕ → Option KeyCertificateData)
    (find_root_key : List ℕ → Option PublicKey) (find : List ℕ → Option Certificate) where
  -- A link that is checked against the last one of the chain.
  AreLinks-append :
      (es : List KeyCertPair) (e new : KeyCertPair) (previous : PublicKey) (limit next : CheckData)
      (last : PublicKey × CheckData)
      → AreLinks a payload find_root_key find previous limit (e ∷ es)
      → subject_data a payload true (e ∷ es) ≡ ok last
      → check_link a payload new.subject new.cert last.0 last.1 ≡ ok next
      → is_revoked_in_store a payload find_root_key find new.cert last.0 ≡ false
      → AreLinks a payload find_root_key find previous limit ((e ∷ es) ++ new ∷ [])
  unfolding subject_data
  AreLinks-append [] e new previous limit next last (d, link, kept, more) h checked fresh =
      let found : subject_data a payload true (e ∷ []) ≡ ok (e.subject, limit_of d) =
        rw link.says refl in
      let same : (e.subject, limit_of d) ≡ last = ap (subject_of last) (sym found ∙ h) in
      let (d', link', e') = check_link-IsLink a payload last.0 last.1 next new checked in
      let tail : AreLinks a payload find_root_key find last.0 last.1 (new ∷ []) =
        (d', link', fresh, tt) in
      (
        d,
        link,
        kept,
        subst
            (λ (p : PublicKey × CheckData).
              AreLinks a payload find_root_key find p.0 p.1 (new ∷ []))
            (sym same) tail,
      )
  AreLinks-append (f ∷ es) e new previous limit next last (d, link, kept, more) h checked fresh = (
    d,
    link,
    kept,
    AreLinks-append es f new e.subject (limit_of d) next last more h checked fresh,
  )

  -- What `add_link` has checked when it returns.
  add_link_checked :
      (c c' : CertificateChain) (key : PublicKey) (cert : Certificate)
      → is_valid a payload c ≡ true
      → 0 < length c.chain
      → add_link a payload c key cert ≡ ok c'
      → (last : PublicKey × CheckData) × (next : CheckData) × (subject_data a payload true c.chain
          ≡ ok last)
        × (check_link a payload key cert last.0 last.1 ≡ ok next)
        × (c' ≡ record c { chain = c.chain ++ record { subject = key; cert = cert } ∷ [] })
  unfolding add_link
  add_link_checked c c' key cert valid lo h =
      let links : (length c.chain == 0) ≡ false = ground arith in
      let opened : (subject_data a payload true c.chain >>= λ last.
      check_link a payload key cert last.0 last.1 >>= λ checked.
      ok (record c { chain = c.chain ++ record { subject = key; cert = cert } ∷ [] }))
          ≡ ok c' =
        sym (rw (links, valid) refl) ∙ h in
      let (last, found, h₁) = bind_ok a payload _ _ opened in
      let (next, checked, h₂) = bind_ok a payload _ _ h₁ in
      (last, next, found, checked, sym (ap (chain_of c) h₂))

  -- A chain that `add_link` extends stays authentic, where it was so before, has a place left and the
  -- verifier's store holds no copy of the new certificate that any key revoked.
  pub add_link-is_authentic :
      (c c' : CertificateChain) (key : PublicKey) (cert : Certificate)
      → is_authentic a payload find_root_key find c ≡ ok true
      → length c.chain < max_chain_length
      → ((issuer : PublicKey)
          → is_revoked_in_store a payload find_root_key find cert issuer ≡ false)
      → add_link a payload c key cert ≡ ok c'
      → is_authentic a payload find_root_key find c' ≡ ok true
  unfolding is_valid
  add_link-is_authentic c c' key cert h room fresh added =
      let i = is_authentic-IsAuthentic a payload find_root_key find c h in
      let valid : is_valid a payload c ≡ true =
        let lo = i.some_link in let root = i.root_named in ground arith in
      let (last, next, found, checked, same) =
        add_link_checked c c' key cert valid i.some_link added in
      let new : KeyCertPair = record { subject = key; cert = cert } in
      let longer = length-append c.chain (new ∷ []) in
      rw same (
        IsAuthentic-is_authentic a payload find_root_key find
          (record c { chain = c.chain ++ new ∷ [] })
          (record {
            root = i.root;
            rooted = i.rooted;
            root_named = i.root_named;
            some_link = omega arith;
            short = omega arith;
            links =
                extended c.chain new i.root last next i.some_link i.links found checked
                  (fresh last.0);
          }))
    where
      extended :
          (es : List KeyCertPair) (new : KeyCertPair) (root : PublicKey)
          (last : PublicKey × CheckData) (next : CheckData)
          → 0 < length es
          → AreLinks a payload find_root_key find root unrestricted es
          → subject_data a payload true es ≡ ok last
          → check_link a payload new.subject new.cert last.0 last.1 ≡ ok next
          → is_revoked_in_store a payload find_root_key find new.cert last.0 ≡ false
          → AreLinks a payload find_root_key find root unrestricted (es ++ new ∷ [])
      extended [] new root last next lo links found checked fresh = absurd (omega arith)
      extended (e ∷ es) new root last next lo links found checked fresh =
          AreLinks-append es e new root unrestricted next last links found checked fresh
