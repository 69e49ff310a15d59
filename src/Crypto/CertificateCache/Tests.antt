-- ===== src/Crypto/CertificateCache/Tests.antt =====
-- The cache with a certificate that is revoked in its backend.
use securepath.Base.{◌≡◌, refl, true, [], ◌∷◌, none, some}
use securepath.Crypto.Keys.{Certificate, Revocation, same, certificate_id}
use securepath.Crypto.Chain.Tests.{trusting, certificate_for}
use securepath.Crypto.CertificateCache.{
  put, CertificateCache, or_else, find_in, insert, keep, find_cached, find, certificate_cache,
}
use securepath.Crypto.CertificateCache.Revoked.{insert-find, insert-uncached}

abbrev revocation : Revocation
revocation = record { cid = 100 ∷ 2 ∷ []; sig = record { issuer = 1 ∷ []; octets = 7 ∷ [] } }

abbrev revoked : Certificate
revoked = record (certificate_for 2 1) { revocation = some revocation }

abbrev cache : CertificateCache
cache = certificate_cache (put (100 ∷ 2 ∷ []) revoked (λ k. none))

found_revoked :
    (find trusting (certificate_id trusting (certificate_for 2 1)) cache).0 ≡ some revoked
unfolding find find_cached keep find_in or_else certificate_cache certificate_id same
found_revoked = refl

same_id : certificate_id trusting revoked ≡ certificate_id trusting (certificate_for 2 1)
unfolding certificate_id
same_id = refl

insert-find_example :
    insert trusting
      (certificate_for 2 1)
      (find trusting (certificate_id trusting (certificate_for 2 1)) cache).1
    ≡ (true, (find trusting (certificate_id trusting (certificate_for 2 1)) cache).1)
insert-find_example =
    insert-find trusting (certificate_for 2 1) revoked revocation cache same_id found_revoked refl

not_cached : cache.certs (certificate_id trusting (certificate_for 2 1)) ≡ none
unfolding certificate_cache
not_cached = refl

in_backend : find_in (certificate_id trusting (certificate_for 2 1)) cache.backends ≡ some revoked
unfolding find_in or_else certificate_cache certificate_id same
in_backend = refl

insert-uncached_example :
    ((insert trusting (certificate_for 2 1) cache).0 ≡ true)
    × ((find trusting
          (certificate_id trusting (certificate_for 2 1))
          (insert trusting (certificate_for 2 1) cache).1).0
        ≡ some (certificate_for 2 1))
insert-uncached_example =
    insert-uncached trusting (certificate_for 2 1) revoked revocation cache not_cached in_backend
      refl
