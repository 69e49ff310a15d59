-- ===== src/Crypto/CertificateCache.antt =====
-- securepath/crypto/certificate_cache.cpp, and insert of certificate_database.cpp: a cache of certificates in front of stores, which keeps a
-- certificate that it knows to be revoked.
pub mod Revoked
mod Tests
use securepath.Base.{ℕ, Bool, true, false, List, [], ◌∷◌, Option, none, some, map, if◌then◌else◌}
use securepath.Crypto.Keys.{Algorithms, Certificate, Revocation, same, certificate_id}

abbrev pub CertificateStore : Type 0
CertificateStore = List ℕ → Option Certificate

abbrev pub put : List ℕ → Certificate → CertificateStore → CertificateStore
put key cert m = λ k. if same k key then some cert else m k

abbrev pub without : List ℕ → CertificateStore → CertificateStore
without key m = λ k. if same k key then none else m k

pub record CertificateCache : Type 0 where
  pub certs : CertificateStore
  pub backends : List CertificateStore

abbrev pub has_revocation : Option Revocation → Bool
has_revocation none = false
has_revocation (some r) = true

-- `it != certs_.end() && it->second.revocation()`
abbrev pub known_revoked : Option Certificate → Bool
known_revoked none = false
known_revoked (some cert) = has_revocation cert.revocation

unfoldable pub or_else : Option Certificate → Option Certificate → Option Certificate
or_else (some cert) rest = some cert
or_else none rest = rest

unfoldable pub find_in : List ℕ → List CertificateStore → Option Certificate
unfolding or_else
find_in cid [] = none
find_in cid (b ∷ bs) = or_else (b cid) (find_in cid bs)

module _ (a : Algorithms) where
  -- certificate_database::insert, which throws where the stored certificate is revoked.
  unfoldable pub put_first :
      Certificate
      → CertificateStore
      → List CertificateStore
      → Bool × List CertificateStore
      → Bool
      → Bool × List CertificateStore
  put_first cert b bs rest true = (true, b ∷ bs)
  put_first cert b bs rest false = (rest.0, put (certificate_id a cert) cert b ∷ rest.1)

  -- One backend after the other, until one throws.
  unfoldable pub put_each : Certificate → List CertificateStore → Bool × List CertificateStore
  unfolding put_first
  put_each cert [] = (false, [])
  put_each cert (b ∷ bs) =
      put_first cert b bs (put_each cert bs) (known_revoked (b (certificate_id a cert)))

  -- Whether it throws, and the cache as it is left.
  unfoldable pub insert : Certificate → CertificateCache → Bool × CertificateCache
  unfolding put_each
  insert cert s =
      let done = put_each cert s.backends in
      if known_revoked (s.certs (certificate_id a cert))
      then (true, s)
      else (done.0, record { certs = put (certificate_id a cert) cert s.certs; backends = done.1 })

  unfoldable pub remove : List ℕ → CertificateCache → CertificateCache
  remove id s = record { certs = without id s.certs; backends = map (without id) s.backends }

  unfoldable pub keep :
      Option Certificate → CertificateCache → Option Certificate × CertificateCache
  keep none s = (none, s)
  keep (some cert) s = (some cert, record s { certs = put (certificate_id a cert) cert s.certs })

  unfoldable pub find_cached :
      List ℕ → Option Certificate → CertificateCache → Option Certificate × CertificateCache
  unfolding keep find_in
  find_cached cid (some cert) s = (some cert, s)
  find_cached cid none s = keep (find_in cid s.backends) s

  unfoldable pub find : List ℕ → CertificateCache → Option Certificate × CertificateCache
  unfolding find_cached
  find cid s = find_cached cid (s.certs cid) s

unfoldable pub certificate_cache : CertificateStore → CertificateCache
certificate_cache b = record { certs = λ k. none; backends = b ∷ [] }
