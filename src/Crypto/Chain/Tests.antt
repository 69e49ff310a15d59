-- ===== src/Crypto/Chain/Tests.antt =====
-- Chains on concrete keys, with algorithms that accept every signature.
use securepath.Base.{
  ℕ, ◌-◌, ◌^◌, ◌≤◌, ◌<◌, ◌≡◌, ◌≢◌, refl, ap, err, true, false, List, [], ◌∷◌, Option, none, some,
  arith, if◌then◌else◌, ok,
}
use securepath.Crypto.Keys.{
  Algorithms, PublicKey, Certificate, KeyCertificateData, same, references_certificate, revoked_by,
  is_subset_of, certificate_id, key_verify_me, certificate_verify_me, is_revoked,
  certificate_is_authentic,
}
use securepath.Crypto.Chain
use securepath.Crypto.Chain.{KeyCertPair, CertificateChain, unrestricted}
use securepath.Crypto.Chain.Authentic.{
  IsAuthentic, is_authentic-IsAuthentic, IsAuthentic-is_authentic, is_authentic-length,
}
use securepath.Crypto.Chain.Restricted.{subject}
use securepath.Crypto.Chain.Search.{out_of_fuel, create_certificate_chain}
use securepath.Crypto.Chain.SearchEnds.{create_certificate_chain-ends}
use securepath.Crypto.Chain.SearchFinds.{create_certificate_chain-is_authentic}
use securepath.Crypto.Chain.Extend.{add_link-is_authentic}

abbrev pub trusting : Algorithms
trusting = record {
  verify = λ key message sig. true;
  construct_id = λ material. material;
  signature_hash = λ sig. sig.octets;
}

abbrev pub payload : List ℕ → Option KeyCertificateData
payload [] = none
payload (n ∷ ns) = some (record { subject = n ∷ []; ca_level = 10 - n; restrictions = [] })

abbrev pub key : ℕ → List ℕ → PublicKey
key n cert = record {
  id = n ∷ [];
  material = n ∷ [];
  certificate_ids = cert ∷ [];
  sig = record { issuer = n ∷ []; octets = 0 ∷ [] };
}

abbrev pub certificate_for : ℕ → ℕ → Certificate
certificate_for subject issuer = record {
  certificate_type = 1;
  certificate_data = subject ∷ [];
  sig = record { issuer = issuer ∷ []; octets = 100 ∷ subject ∷ [] };
  revocation = none;
}

abbrev pub link : ℕ → ℕ → KeyCertPair
link subject issuer = record {
  subject = key subject (100 ∷ subject ∷ []);
  cert = certificate_for subject issuer;
}

abbrev pub root_key : List ℕ → Option PublicKey
root_key id = if same id (1 ∷ []) then some (key 1 []) else none

abbrev pub empty_store : List ℕ → Option Certificate
empty_store id = none

abbrev pub chain : CertificateChain
chain = record { root_key_id = 1 ∷ []; chain = link 2 1 ∷ [] }

abbrev longer_chain : CertificateChain
longer_chain = record { root_key_id = 1 ∷ []; chain = link 2 1 ∷ link 3 2 ∷ [] }

chain_is_authentic : Chain.is_authentic trusting payload root_key empty_store chain ≡ ok true
unfolding Chain.is_authentic Chain.is_valid Chain.from_root Chain.check_chain Chain.check_rest
    Chain.check_chain_element Chain.checked Chain.check_link Chain.check_link_certificate
    Chain.check_link_data Chain.extract Chain.extracted Chain.is_revoked_in_store Chain.revoked_copy
    same references_certificate revoked_by is_subset_of certificate_id key_verify_me
    certificate_verify_me is_revoked certificate_is_authentic
chain_is_authentic = refl

is_authentic-IsAuthentic_example : IsAuthentic trusting payload root_key empty_store chain
is_authentic-IsAuthentic_example =
    is_authentic-IsAuthentic trusting payload root_key empty_store chain chain_is_authentic

chain_IsAuthentic : IsAuthentic trusting payload root_key empty_store chain
chain_IsAuthentic =
    is_authentic-IsAuthentic trusting payload root_key empty_store chain chain_is_authentic

IsAuthentic-is_authentic_example :
    Chain.is_authentic trusting payload root_key empty_store chain ≡ ok true
IsAuthentic-is_authentic_example =
    IsAuthentic-is_authentic trusting payload root_key empty_store chain chain_IsAuthentic

link_added :
    Chain.add_link trusting payload chain (key 3 (100 ∷ 3 ∷ [])) (certificate_for 3 2)
    ≡ ok longer_chain
unfolding Chain.add_link Chain.is_valid Chain.subject_data Chain.back_data Chain.check_link
    Chain.check_link_certificate Chain.check_link_data Chain.extract Chain.extracted same
    references_certificate revoked_by is_subset_of certificate_id key_verify_me
    certificate_verify_me is_revoked certificate_is_authentic
link_added = refl

never_revoked :
    (issuer : PublicKey)
    → Chain.is_revoked_in_store trusting payload root_key empty_store (certificate_for 3 2) issuer
      ≡ false
unfolding Chain.is_revoked_in_store Chain.revoked_copy
never_revoked issuer = refl

add_link-is_authentic_example :
    Chain.is_authentic trusting payload root_key empty_store longer_chain ≡ ok true
add_link-is_authentic_example =
    add_link-is_authentic trusting payload root_key empty_store chain longer_chain
      (key 3 (100 ∷ 3 ∷ [])) (certificate_for 3 2) chain_is_authentic (omega arith) never_revoked
      link_added

abbrev no_key : List ℕ → Option PublicKey
no_key id = none

abbrev one_store : List ℕ → Option Certificate
one_store id = if same id (100 ∷ 2 ∷ []) then some (certificate_for 2 1) else none

small_levels :
    (octets : List ℕ) (d : KeyCertificateData) → payload octets ≡ some d → d.ca_level < 2 ^ 16
small_levels [] d h = absurd (ground (arith, h))
small_levels (n ∷ ns) d h = let e : 10 - n ≡ d.ca_level = ap (level_of d) h in omega arith
  where
    level_of : KeyCertificateData → Option KeyCertificateData → ℕ
    level_of x none = x.ca_level
    level_of x (some y) = y.ca_level

create_certificate_chain-ends_example :
    create_certificate_chain trusting payload root_key no_key one_store (key 2 (100 ∷ 2 ∷ []))
    ≢ err out_of_fuel
create_certificate_chain-ends_example =
    create_certificate_chain-ends trusting payload root_key no_key one_store small_levels
      (key 2 (100 ∷ 2 ∷ []))

chain_found :
    create_certificate_chain trusting payload root_key no_key one_store (key 2 (100 ∷ 2 ∷ []))
    ≡ ok (some chain)
unfolding create_certificate_chain Chain.is_authentic Chain.is_valid Chain.from_root
    Chain.check_chain Chain.check_rest Chain.check_chain_element Chain.checked Chain.check_link
    Chain.check_link_certificate Chain.check_link_data Chain.extract Chain.extracted
    Chain.is_revoked_in_store Chain.revoked_copy same references_certificate revoked_by is_subset_of
    certificate_id key_verify_me certificate_verify_me is_revoked certificate_is_authentic
chain_found = refl

create_certificate_chain-is_authentic_example :
    (Chain.is_authentic trusting payload root_key one_store chain ≡ ok true)
    × (subject trusting payload chain ≡ ok (key 2 (100 ∷ 2 ∷ [])))
create_certificate_chain-is_authentic_example =
    create_certificate_chain-is_authentic trusting payload root_key no_key one_store
      (key 2 (100 ∷ 2 ∷ [])) chain chain_found

longer_is_authentic :
    Chain.is_authentic trusting payload root_key empty_store longer_chain ≡ ok true
longer_is_authentic =
    add_link-is_authentic trusting payload root_key empty_store chain longer_chain
      (key 3 (100 ∷ 3 ∷ [])) (certificate_for 3 2) chain_is_authentic (omega arith) never_revoked
      link_added

link_says :
    Chain.extract trusting payload (certificate_for 2 1)
    ≡ ok (record { subject = 2 ∷ []; ca_level = 8; restrictions = [] })
unfolding Chain.extract Chain.extracted
link_says = refl

is_authentic-length_example : 1 ≤ 8
is_authentic-length_example =
    is_authentic-length trusting payload root_key empty_store longer_chain [] (link 2 1)
      (link 3 2 ∷ []) (record { subject = 2 ∷ []; ca_level = 8; restrictions = [] })
      longer_is_authentic refl link_says
