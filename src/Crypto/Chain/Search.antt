-- ===== src/Crypto/Chain/Search.antt =====
-- create_certificate_chain: the search for a chain from a subject's key up to a root key.
use securepath.Base.{
  ℕ, zero, suc, ◌+◌, ◌^◌, Bool, true, false, List, [], ◌∷◌, ◌++◌, Option, none, some, ltb, ◌==◌,
  if◌then◌else◌, Result, ok, err, ◌>>=◌,
}
use mathlib.Core.List.{reverse}
use securepath.Crypto.Keys.{Algorithms, PublicKey, Certificate, KeyCertificateData}
use securepath.Crypto.Chain.{
  Error, KeyCertPair, CertificateChain, key_certificate_id, extract, is_authentic,
}

-- `out_of_fuel` is the model's own, the rest is what the code throws.
pub data SearchError : Type 0 where
  out_of_fuel : SearchError
  thrown : Error → SearchError

abbrev pub thrown_on : {A : Type 0} → Result Error A → Result SearchError A
thrown_on (ok x) = ok x
thrown_on (err e) = err (thrown e)

abbrev pub Found : Type 0
Found = Result SearchError (Option CertificateChain)

-- build_list of the rest of the fuel: a subject, the ca level below it and the list so far.
abbrev pub Search : Type 0
Search = PublicKey → Option ℕ → List KeyCertPair → Found

-- `!last_ca_level || *last_ca_level < ca_level`
abbrev pub rises : Option ℕ → ℕ → Bool
rises none level = true
rises (some last) level = ltb last level

module _ (a : Algorithms) (payload : List ℕ → Option KeyCertificateData)
    (find_root_key : List ℕ → Option PublicKey) (find_key : List ℕ → Option PublicKey)
    (find : List ℕ → Option Certificate) where
  -- The chain is kept where it is authentic.
  unfoldable pub kept_if : CertificateChain → Bool → Found
  kept_if c true = ok (some c)
  kept_if c false = ok none

  unfoldable pub try_complete : Certificate → List KeyCertPair → Found
  unfolding kept_if
  try_complete cert list =
      let c : CertificateChain = record { root_key_id = cert.sig.issuer; chain = reverse list } in
      thrown_on (is_authentic a payload find_root_key find c) >>= kept_if c

  unfoldable pub follow_key : Search → ℕ → List KeyCertPair → Option PublicKey → Found
  follow_key more ca_level list none = ok none
  follow_key more ca_level list (some key) = more key (some ca_level) list

  unfoldable pub follow_root :
      Search → Certificate → ℕ → List KeyCertPair → Option PublicKey → Found
  unfolding try_complete follow_key
  follow_root more cert ca_level list (some root) = try_complete cert list
  follow_root more cert ca_level list none =
      follow_key more ca_level list (find_key cert.sig.issuer)

  unfoldable pub follow_issuer : Search → Certificate → ℕ → List KeyCertPair → Found
  unfolding follow_root
  follow_issuer more cert ca_level list =
      follow_root more cert ca_level list (find_root_key cert.sig.issuer)

  unfoldable pub consider_level :
      Search → PublicKey → Certificate → Option ℕ → List KeyCertPair → KeyCertificateData → Found
  unfolding follow_issuer
  consider_level more subject cert last list d =
      if rises last d.ca_level
      then follow_issuer more cert d.ca_level
          (list ++ record { subject = subject; cert = cert } ∷ [])
      else ok none

  unfoldable pub consider : Search → PublicKey → Certificate → Option ℕ → List KeyCertPair → Found
  unfolding consider_level
  consider more subject cert last list =
      if cert.certificate_type == key_certificate_id
      then thrown_on (extract a payload cert) >>= consider_level more subject cert last list
      else ok none

  unfoldable pub consider_found :
      Search → PublicKey → Option ℕ → List KeyCertPair → Option Certificate → Found
  unfolding consider
  consider_found more subject last list none = ok none
  consider_found more subject last list (some cert) = consider more subject cert last list

  -- The loop ends at the first chain.
  unfoldable pub unless_found : Found → Option CertificateChain → Found
  unless_found rest (some c) = ok (some c)
  unless_found rest none = rest

  unfoldable pub each_id : Search → PublicKey → Option ℕ → List KeyCertPair → List (List ℕ) → Found
  unfolding consider_found unless_found
  each_id more subject last list [] = ok none
  each_id more subject last list (id ∷ ids) =
      consider_found more subject last list (find id)
      >>= unless_found (each_id more subject last list ids)

  unfoldable pub build_list : ℕ → Search
  unfolding each_id
  build_list zero subject last list = err out_of_fuel
  build_list (suc fuel) subject last list =
      each_id (build_list fuel) subject last list subject.certificate_ids

  -- The levels rise at each step and have 16 bits.
  unfoldable pub create_certificate_chain : PublicKey → Found
  unfolding build_list
  create_certificate_chain subject = build_list (2 ^ 16 + 1) subject none []
