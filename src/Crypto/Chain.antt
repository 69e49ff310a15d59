-- ===== src/Crypto/Chain.antt =====
-- securepath/crypto/certificate_chain.cpp and certificate_chain.hpp: checking and extending a chain.
-- The search for one is in Search.
pub mod Links
pub mod Authentic
pub mod Extend
pub mod Restricted
pub mod Search
pub mod SearchEnds
pub mod SearchFinds
pub mod Tests
use securepath.Base.{
  ℕ, zero, suc, ◌-◌, ◌^◌, Bool, true, false, ◌&&◌, not, List, [], ◌∷◌, ◌++◌, Option, none, some,
  length, ltb, leb, ◌==◌, if◌then◌else◌, Result, ok, err, ◌>>=◌, ◌>>◌, guard,
}
use securepath.Crypto.Keys.{
  Algorithms, PublicKey, Certificate, KeyCertificateData, same, references_certificate,
  is_subset_of, certificate_id, key_verify_me, is_revoked, certificate_is_authentic,
}

-- The codes of the checks; `not_deserialised` is what `extract` throws, for a
-- wrong type or a payload that cannot be read.
pub data Error : Type 0 where
  invalid_certificate invalid_public_key invalid_data invalid_certificate_chain : Error
  invalid_certificate_chain_ca_level no_such_root_key not_deserialised : Error

pub is_thrown : Error → Bool
is_thrown not_deserialised = true
is_thrown e = false

pub record KeyCertPair : Type 0 where
  pub subject : PublicKey
  pub cert : Certificate

pub record CertificateChain : Type 0 where
  pub root_key_id : List ℕ
  pub chain : List KeyCertPair

abbrev pub max_chain_length : ℕ
max_chain_length = 16

abbrev pub key_certificate_id : ℕ
key_certificate_id = 1

-- std::numeric_limits<int>::max()
abbrev pub any_ca_level : ℕ
any_ca_level = 2 ^ 31 - 1

pub record CheckData : Type 0 where
  pub ca_level : ℕ
  pub restriction : List ℕ

abbrev pub unrestricted : CheckData
unrestricted = record { ca_level = any_ca_level; restriction = [] }

-- The last link of a chain.
abbrev pub back : KeyCertPair → List KeyCertPair → KeyCertPair
back e [] = e
back e (f ∷ es) = back f es

-- `payload` is asn_der_deserialise<key_certificate_data>, with none where that throws.
module _ (a : Algorithms) (payload : List ℕ → Option KeyCertificateData) where
  extracted : Option KeyCertificateData → Result Error KeyCertificateData
  extracted none = err not_deserialised
  extracted (some d) = ok d

  unfoldable pub extract : Certificate → Result Error KeyCertificateData
  unfolding extracted
  extract cert =
      if cert.certificate_type == key_certificate_id
      then extracted (payload cert.certificate_data)
      else err not_deserialised

  unfoldable pub check_link_certificate :
      PublicKey → Certificate → PublicKey → Result Error (Unit {0})
  check_link_certificate key cert previous_key = do
    guard (certificate_is_authentic a cert previous_key) invalid_certificate
    guard (key_verify_me a key) invalid_public_key
    guard (cert.certificate_type == key_certificate_id) invalid_certificate
    guard (same previous_key.id cert.sig.issuer) invalid_data

  unfoldable pub check_link_data :
      PublicKey → Certificate → KeyCertificateData → CheckData → Result Error CheckData
  check_link_data key cert key_cert data_ = do
    guard (same key_cert.subject key.id) invalid_data
    guard (references_certificate key (certificate_id a cert)) invalid_data
    guard (not (leb data_.ca_level key_cert.ca_level)) invalid_certificate_chain_ca_level
    guard (is_subset_of key_cert.restrictions data_.restriction) invalid_data
    ok (record { ca_level = key_cert.ca_level; restriction = key_cert.restrictions })

  unfoldable pub check_link :
      PublicKey → Certificate → PublicKey → CheckData → Result Error CheckData
  check_link key cert previous_key data_ = do
    check_link_certificate key cert previous_key
    key_cert ← extract cert
    check_link_data key cert key_cert data_

  -- `is_valid`: there is a link, and the root's id is not empty.
  unfoldable pub is_valid : CertificateChain → Bool
  is_valid c = not (length c.chain == 0) && not (length c.root_key_id == 0)

  back_data : KeyCertPair → Result Error CheckData
  back_data e = do
    key_cert ← extract e.cert
    ok (record { ca_level = key_cert.ca_level; restriction = key_cert.restrictions })

  -- The subject with its ca level and its restrictions, each of which throws on an invalid chain.
  unfoldable pub subject_data : Bool → List KeyCertPair → Result Error (PublicKey × CheckData)
  unfolding back_data
  subject_data valid [] = err invalid_certificate_chain
  subject_data false (e ∷ es) = err invalid_certificate_chain
  subject_data true (e ∷ es) = do data_ ← back_data (back e es); ok ((back e es).subject, data_)

  -- add_link on a chain that has links.
  unfoldable pub add_link :
      CertificateChain → PublicKey → Certificate → Result Error CertificateChain
  add_link c key cert = if length c.chain == 0 then err no_such_root_key else do
    last ← subject_data (is_valid c) c.chain
    checked ← check_link key cert last.0 last.1
    ok (record c { chain = c.chain ++ record { subject = key; cert = cert } ∷ [] })

  module _ (find_root_key : List ℕ → Option PublicKey) (find : List ℕ → Option Certificate) where
    revoked_copy : Option Certificate → PublicKey → Bool
    revoked_copy none previous = false
    revoked_copy (some stored) previous = is_revoked a stored previous

    unfoldable pub is_revoked_in_store : Certificate → PublicKey → Bool
    unfolding revoked_copy
    is_revoked_in_store cert previous = revoked_copy (find (certificate_id a cert)) previous

    -- An error of the checks is `false`; what `extract` throws is not caught.
    unfoldable pub checked :
        Result Error CheckData → Certificate → PublicKey → Result Error (Option CheckData)
    unfolding is_thrown
    checked (err e) cert previous = if is_thrown e then err e else ok none
    checked (ok data_) cert previous =
        if is_revoked_in_store cert previous then ok none else ok (some data_)

    unfoldable pub check_chain_element :
        KeyCertPair → PublicKey → CheckData → Result Error (Option CheckData)
    unfolding checked
    check_chain_element e previous data_ =
        checked (check_link e.subject e.cert previous data_) e.cert previous

    -- The loop over the links, from the root on.
    check_rest :
        (CheckData → Result Error Bool) → Result Error (Option CheckData) → Result Error Bool
    check_rest more (err t) = err t
    check_rest more (ok none) = ok false
    check_rest more (ok (some data_)) = more data_

    unfoldable pub check_chain : List KeyCertPair → PublicKey → CheckData → Result Error Bool
    unfolding check_rest
    check_chain [] previous data_ = ok true
    check_chain (e ∷ es) previous data_ =
        check_rest (λ next. check_chain es e.subject next) (check_chain_element e previous data_)

    from_root : List KeyCertPair → Option PublicKey → Result Error Bool
    unfolding check_chain
    from_root es none = ok false
    from_root es (some root) = check_chain es root unrestricted

    unfoldable pub is_authentic : CertificateChain → Result Error Bool
    unfolding from_root
    is_authentic c =
        if ltb max_chain_length (length c.chain)
        then ok false
        else if is_valid c
        then from_root c.chain (find_root_key c.root_key_id)
        else ok false

    -- The overload that takes the keys: an empty chain starts at a root key.
    start_at :
        CertificateChain
        → PublicKey
        → Certificate
        → Option PublicKey
        → Result Error CertificateChain
    start_at c key cert none = err no_such_root_key
    start_at c key cert (some root) = do
      checked ← check_link key cert root unrestricted
      ok (record { root_key_id = root.id; chain = record { subject = key; cert = cert } ∷ [] })

    unfoldable pub add_link_from :
        CertificateChain → PublicKey → Certificate → Result Error CertificateChain
    unfolding start_at
    add_link_from c key cert =
        if length c.chain == 0
        then start_at c key cert (find_root_key cert.sig.issuer)
        else add_link c key cert
