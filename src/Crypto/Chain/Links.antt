-- ===== src/Crypto/Chain/Links.antt =====
-- What a chain of links promises, said without the code: each link by the one before it.
use securepath.Base.{
  ℕ, ◌<◌, ◌≡◌, refl, ap, sym, Bool, true, false, not, List, Option, arith, leb, ◌==◌, ==_iff,
  Result, ok, err, guard, ◌>>◌, ◌>>=◌,
}
use securepath.Crypto.Keys.{
  Algorithms, PublicKey, KeyCertificateData, same, same_lem, same_refl, references_certificate,
  is_subset_of, certificate_id, key_verify_me, certificate_is_authentic,
}
use securepath.Crypto.Chain.{
  Error, invalid_certificate_chain_ca_level, invalid_data, KeyCertPair, CheckData,
  key_certificate_id, extract, check_link, check_link_certificate, check_link_data,
}

-- What a link allows for the next one.
abbrev pub limit_of : KeyCertificateData → CheckData
limit_of d = record { ca_level = d.ca_level; restriction = d.restrictions }

module _ (a : Algorithms) (payload : List ℕ → Option KeyCertificateData) where
  -- The subject's certificate is signed by the key before it, is not revoked by a stapled
  -- revocation, says what the chain needs, and the subject's key signs itself and names it.
  pub record IsLink (previous : PublicKey) (limit : CheckData) (e : KeyCertPair)
      (d : KeyCertificateData) : Type 0 where
    pub authentic : certificate_is_authentic a e.cert previous ≡ true
    pub key_signed : key_verify_me a e.subject ≡ true
    pub key_certificate : e.cert.certificate_type ≡ key_certificate_id
    pub issued : e.cert.sig.issuer ≡ previous.id
    pub says : extract a payload e.cert ≡ ok d
    pub about : d.subject ≡ e.subject.id
    pub named : references_certificate e.subject (certificate_id a e.cert) ≡ true
    pub lower : d.ca_level < limit.ca_level
    pub narrower : is_subset_of d.restrictions limit.restriction ≡ true

  guard_ok :
      {A : Type 0} {k : Result Error A} {x : A} (test : Bool) (e : Error)
      → (guard test e >> k) ≡ ok x
      → (test ≡ true) × (k ≡ ok x)
  guard_ok true e h = (refl, h)
  guard_ok false e h = absurd (ground (arith, h))

  pub bind_ok :
      {A B : Type 0} {x : B} (m : Result Error A) (f : A → Result Error B)
      → (m >>= f) ≡ ok x
      → (v : A) × (m ≡ ok v) × (f v ≡ ok x)
  bind_ok (ok v) f h = (v, refl, h)
  bind_ok (err e) f h = absurd (ground (arith, h))

  last_guard : {x : Unit {0}} (test : Bool) (e : Error) → guard test e ≡ ok x → test ≡ true
  last_guard true e h = refl
  last_guard false e h = absurd (ground (arith, h))

  abbrev ok_value : {A : Type 0} → A → Result Error A → A
  ok_value d (ok x) = x
  ok_value d (err e) = d

  -- A link passes the checks just if it is one, and then sets the limit for the next.
  pub check_link-IsLink :
      (previous : PublicKey) (limit next : CheckData) (e : KeyCertPair)
      → check_link a payload e.subject e.cert previous limit ≡ ok next
      → (d : KeyCertificateData) × IsLink previous limit e d × (next ≡ limit_of d)
  unfolding check_link check_link_certificate check_link_data
  check_link-IsLink previous limit next e h =
      let (_, first, h₁) = bind_ok _ _ h in
      let (d, says, h₂) = bind_ok _ _ h₁ in
      let (authentic, f₁) = guard_ok _ _ first in
      let (key_signed, f₂) = guard_ok _ _ f₁ in
      let (is_type, f₃) = guard_ok _ _ f₂ in
      let issued = last_guard _ _ f₃ in
      let (about, s₁) = guard_ok _ _ h₂ in
      let (named, s₂) = guard_ok _ _ s₁ in
      let (lower, s₃) =
        guard_ok (not (leb limit.ca_level d.ca_level)) invalid_certificate_chain_ca_level s₂ in
      let last : (is_subset_of d.restrictions limit.restriction ≡ true)
          × (◌≡◌ {A = Result Error CheckData} (ok (limit_of d)) (ok next)) =
        guard_ok (is_subset_of d.restrictions limit.restriction) invalid_data s₃ in
      (
        d,
        record {
          authentic = authentic;
          key_signed = key_signed;
          key_certificate = (==_iff _ _).0 is_type;
          issued = sym (same_lem _ _ issued);
          says = says;
          about = same_lem _ _ about;
          named = named;
          lower = ground (arith, lower);
          narrower = last.0;
        },
        sym (ap (ok_value next) last.1),
      )

  pub IsLink-check_link :
      (previous : PublicKey) (limit : CheckData) (e : KeyCertPair) (d : KeyCertificateData)
      → IsLink previous limit e d
      → check_link a payload e.subject e.cert previous limit ≡ ok (limit_of d)
  unfolding check_link check_link_certificate check_link_data
  IsLink-check_link previous limit e d l =
      let is_type : (e.cert.certificate_type == key_certificate_id) ≡ true =
        (==_iff _ _).1 l.key_certificate in
      let issued : same previous.id e.cert.sig.issuer ≡ true =
        rw l.issued (same_refl previous.id) in
      let about : same d.subject e.subject.id ≡ true = rw l.about (same_refl e.subject.id) in
      let bound = l.lower in
      let lower : not (leb limit.ca_level d.ca_level) ≡ true = ground arith in
      rw (l.authentic, l.key_signed, is_type, issued, l.says, about, l.named, lower, l.narrower)
        refl
