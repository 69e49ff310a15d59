-- ===== src/Crypto/Keys.antt =====
-- securepath/crypto/public_key.cpp, certificate.cpp, certificate_revocation.cpp, signature.hpp and
-- key_certificate.cpp. Botan's algorithms are a record of functions; the framed and serialised
-- message under a signature is a value of `Signed`, one constructor for each context.
use securepath.Base.{
  ℕ, ◌+◌, ◌-◌, ◌≡◌, refl, Bool, true, false, ◌&&◌, ◌||◌, not, List, [], ◌∷◌, Option, none, some,
  map, arith, length, drop, leb, ◌==◌, if◌then◌else◌, ==_iff,
}

-- Equality of octet strings, strings and the identifiers made of them.
unfoldable pub same : List ℕ → List ℕ → Bool
same [] [] = true
same [] (b ∷ ys) = false
same (a ∷ xs) [] = false
same (a ∷ xs) (b ∷ ys) = (a == b) && same xs ys

pub same_lem : (xs ys : List ℕ) → same xs ys ≡ true → xs ≡ ys
unfolding same
same_lem [] [] h = refl
same_lem [] (b ∷ ys) h = absurd (ground (arith, h))
same_lem (a ∷ xs) [] h = absurd (ground (arith, h))
same_lem (a ∷ xs) (b ∷ ys) h =
    let first : (a == b) ≡ true = ground (arith, h) in
    let rest : same xs ys ≡ true = ground (arith, h) in
    cc ((==_iff a b).0 first, same_lem xs ys rest)

pub same_refl : (xs : List ℕ) → same xs xs ≡ true
unfolding same
same_refl [] = refl
same_refl (a ∷ xs) = let e : (a == a) ≡ true = ground arith in rw (e, same_refl xs)

pub record Signature : Type 0 where
  pub issuer : List ℕ
  pub octets : List ℕ

-- What a signature is made over: "sp-key", "sp-cert" and "sp-revocation", and the channel binding
-- under "sp-tls-auth".
pub data Signed : Type 0 where
  sp_key : List ℕ → List (List ℕ) → Signed
  sp_cert : ℕ → List ℕ → Signed
  sp_revocation : List ℕ → Signed
  sp_tls_auth : List ℕ → Signed

-- `verify_framed` on the key's material, `construct_id` (a hash of it), and the hash that is the id
-- of a certificate, of its serialised signature.
pub record Algorithms : Type 0 where
  pub verify : List ℕ → Signed → List ℕ → Bool
  pub construct_id : List ℕ → List ℕ
  pub signature_hash : Signature → List ℕ

pub record PublicKey : Type 0 where
  pub id : List ℕ
  pub material : List ℕ
  pub certificate_ids : List (List ℕ)
  pub sig : Signature

pub record Revocation : Type 0 where
  pub cid : List ℕ
  pub sig : Signature

pub record Certificate : Type 0 where
  pub certificate_type : ℕ
  pub certificate_data : List ℕ
  pub sig : Signature
  pub revocation : Option Revocation

abbrev pub member : List ℕ → List (List ℕ) → Bool
member id [] = false
member id (x ∷ xs) = same id x || member id xs

unfoldable pub references_certificate : PublicKey → List ℕ → Bool
references_certificate key id = member id key.certificate_ids

-- `std::tolower` in the C locale, and key_cert_restriction, by its host name.
pub to_lower : List ℕ → List ℕ
to_lower = map (λ c. if leb 65 c && leb c 90 then c + 32 else c)

pub ends_with : List ℕ → List ℕ → Bool
ends_with s suffix =
    leb (length suffix) (length s) && same (drop (length s - length suffix) s) suffix

-- `"." + host`, unless it starts with the dot.
pub with_dot : List ℕ → List ℕ
with_dot [] = 46 ∷ []
with_dot (c ∷ host) = if c == 46 then c ∷ host else 46 ∷ c ∷ host

unfoldable pub is_subset_of : List ℕ → List ℕ → Bool
unfolding to_lower ends_with with_dot
is_subset_of mine [] = true
is_subset_of mine (c ∷ other) =
    same (to_lower mine) (to_lower (c ∷ other))
    || ends_with (to_lower mine) (with_dot (to_lower (c ∷ other)))

pub record KeyCertificateData : Type 0 where
  pub subject : List ℕ
  pub ca_level : ℕ
  pub restrictions : List ℕ

module _ (a : Algorithms) where
  open a use {verify, construct_id, signature_hash}

  unfoldable pub certificate_id : Certificate → List ℕ
  certificate_id cert = signature_hash cert.sig

  unfoldable pub key_verify_me : PublicKey → Bool
  key_verify_me key =
      verify key.material (sp_key key.material key.certificate_ids) key.sig.octets
      && same (construct_id key.material) key.id

  unfoldable pub certificate_verify_me : Certificate → PublicKey → Bool
  certificate_verify_me cert key =
      verify key.material (sp_cert cert.certificate_type cert.certificate_data) cert.sig.octets

  unfoldable pub revocation_verify_me : Revocation → PublicKey → Bool
  revocation_verify_me rev key = verify key.material (sp_revocation rev.cid) rev.sig.octets

  unfoldable pub revoked_by : Certificate → PublicKey → Option Revocation → Bool
  revoked_by cert key none = false
  revoked_by cert key (some rev) =
      not (length cert.sig.octets == 0)
      && same rev.cid (certificate_id cert)
      && revocation_verify_me rev key

  unfoldable pub is_revoked : Certificate → PublicKey → Bool
  unfolding revoked_by
  is_revoked cert key = revoked_by cert key cert.revocation

  unfoldable pub certificate_is_authentic : Certificate → PublicKey → Bool
  certificate_is_authentic cert key = certificate_verify_me cert key && not (is_revoked cert key)
