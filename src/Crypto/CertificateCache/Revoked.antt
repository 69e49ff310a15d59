-- ===== src/Crypto/CertificateCache/Revoked.antt =====
-- When a revoked certificate is kept, and when it is not.
use securepath.Base.{
  ℕ, ◌≡◌, refl, ap, ◌∙◌, true, false, List, [], ◌∷◌, Option, none, some, arith, if◌then◌else◌,
}
use securepath.Crypto.Keys.{Algorithms, Certificate, Revocation, same, same_refl, certificate_id}
use securepath.Crypto.CertificateCache.{
  CertificateStore, put, CertificateCache, has_revocation, known_revoked, or_else, find_in,
  put_first, put_each, insert, keep, find_cached, find,
}

abbrev cert_or : Certificate → Option Certificate → Certificate
cert_or c none = c
cert_or c (some x) = x

module _ (a : Algorithms) where
  refused :
      (new : Certificate) (s : CertificateCache) (old : Certificate) (r : Revocation)
      → s.certs (certificate_id a new) ≡ some old
      → old.revocation ≡ some r
      → insert a new s ≡ (true, s)
  unfolding insert
  refused new s old r kept revoked =
      let known : known_revoked (s.certs (certificate_id a new)) ≡ true =
        ap known_revoked kept ∙ ap has_revocation revoked in
      rw known refl

  -- Once `find` gave a revoked certificate, the cache throws where any certificate is to
  -- replace it, and stays as it is.
  pub insert-find :
      (new old : Certificate) (r : Revocation) (s : CertificateCache)
      → certificate_id a old ≡ certificate_id a new
      → (find a (certificate_id a new) s).0 ≡ some old
      → old.revocation ≡ some r
      → insert a new (find a (certificate_id a new) s).1
        ≡ (true, (find a (certificate_id a new) s).1)
  unfolding find find_cached keep
  insert-find new old r s same_id found revoked = cached (s.certs (certificate_id a new)) refl found
    where
      cid : List ℕ
      cid = certificate_id a new

      kept :
          (o : Option Certificate)
          → (keep a o s).0 ≡ some old
          → insert a new (keep a o s).1 ≡ (true, (keep a o s).1)
      kept none h = absurd (ground (arith, h))
      kept (some c) h =
          let is : c ≡ old = ap (cert_or c) h in
          let here : same (certificate_id a new) (certificate_id a c) ≡ true =
            ap (λ t. same (certificate_id a new) t) (ap (certificate_id a) is ∙ same_id)
            ∙ same_refl (certificate_id a new) in
          refused new (record s { certs = put (certificate_id a c) c s.certs }) c r
            (ap (λ t. if t then some c else s.certs (certificate_id a new)) here)
            (ap (λ (t : Certificate). t.revocation) is ∙ revoked)

      cached :
          (o : Option Certificate)
          → s.certs (certificate_id a new) ≡ o
          → (find_cached a (certificate_id a new) o s).0 ≡ some old
          → insert a new (find_cached a (certificate_id a new) o s).1
            ≡ (true, (find_cached a (certificate_id a new) o s).1)
      cached (some c) at h = refused new s old r (at ∙ h) revoked
      cached none at h = kept (find_in (certificate_id a new) s.backends) h

  put_each-throws :
      (new old : Certificate) (r : Revocation) (bs : List CertificateStore)
      → find_in (certificate_id a new) bs ≡ some old
      → old.revocation ≡ some r
      → (put_each a new bs).0 ≡ true
  unfolding put_each put_first find_in or_else
  put_each-throws new old r [] found revoked = absurd (ground (arith, found))
  put_each-throws new old r (b ∷ bs) found revoked =
      at_first (b (certificate_id a new)) found (put_each-throws new old r bs)
    where
      at_first :
          (o : Option Certificate)
          → or_else o (find_in (certificate_id a new) bs) ≡ some old
          → (find_in (certificate_id a new) bs ≡ some old
              → old.revocation ≡ some r
              → (put_each a new bs).0 ≡ true)
          → (put_first a new b bs (put_each a new bs) (known_revoked o)).0 ≡ true
      at_first none h rest = rest h revoked
      at_first (some c) h rest =
          let known : known_revoked (some c) ≡ true =
            ap (λ t. has_revocation (cert_or c t).revocation) h ∙ ap has_revocation revoked in
          rw known refl

  -- Where a certificate is revoked in the backends and not cached yet, inserting another of its id
  -- throws, and the cache gives the other one from then on.
  pub insert-uncached :
      (new old : Certificate) (r : Revocation) (s : CertificateCache)
      → s.certs (certificate_id a new) ≡ none
      → find_in (certificate_id a new) s.backends ≡ some old
      → old.revocation ≡ some r
      → ((insert a new s).0 ≡ true)
        × ((find a (certificate_id a new) (insert a new s).1).0 ≡ some new)
  unfolding insert find find_cached
  insert-uncached new old r s at found revoked =
      let unknown : known_revoked (s.certs (certificate_id a new)) ≡ false = ap known_revoked at in
      (
        rw unknown (put_each-throws new old r s.backends found revoked),
        rw (unknown, same_refl (certificate_id a new)) refl,
      )
