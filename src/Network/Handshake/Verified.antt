-- ===== src/Network/Handshake/Verified.antt =====
-- `verify_credentials` against what it promises of the peer.
use securepath.Base.{
  ℕ, ◌≡◌, refl, ap, ◌∙◌, Bool, true, false, ◌&&◌, List, Option, none, some, arith, Result, ok,
  if◌then◌else◌, bind_passes, ok_same,
}
use securepath.Crypto.Keys.{PublicKey, sp_tls_auth, is_subset_of, same_lem}
use securepath.Crypto.Chain.{Error, CertificateChain}
use securepath.Crypto.Chain.Authentic.{IsAuthentic, is_authentic-IsAuthentic}
use securepath.Crypto.Chain.Restricted.{
  subject, subject_restrictions, is_authentic_within-IsAuthentic,
}
use securepath.Network.Handshake.{HandshakeBinding, AuthCredentials, Context}
use securepath.Network.Handshake.PkHandshake.{chain_is_authentic, holds_binding, verify_credentials}

pub both : (p q : Bool) → (p && q) ≡ true → (p ≡ true) × (q ≡ true)
both true q h = (refl, h)
both false q h = absurd (ground (arith, h))

module _ (c : Context) where
  abbrev pub IsAuthenticChain : CertificateChain → Type 0
  IsAuthenticChain chain =
      IsAuthentic c.algorithms c.payload c.find_root_key c.find_certificate chain

  -- The asked host name is within the restrictions of the chain's last certificate.
  abbrev pub Allows : CertificateChain → Option (List ℕ) → Type 0
  Allows chain none = Unit {0}
  Allows chain (some rest) =
      (mine : List ℕ) × (subject_restrictions c.algorithms c.payload chain ≡ ok mine)
      × (is_subset_of rest mine ≡ true)

  -- An authentic chain, that allows the host, whose subject the key is, and the key's signature on
  -- the other side's binding.
  pub record IsVerified (creds : AuthCredentials) (b : HandshakeBinding) (rest : Option (List ℕ))
      : Type 0 where
    pub authentic : IsAuthenticChain creds.chain
    pub allowed : Allows creds.chain rest
    pub last : PublicKey
    pub is_subject : subject c.algorithms c.payload creds.chain ≡ ok last
    pub same_key : last.id ≡ creds.key.id
    pub signed :
        c.algorithms.verify creds.key.material (sp_tls_auth b.remote) creds.sig.octets ≡ true

  chain_is_authentic-Allows :
      (chain : CertificateChain) (rest : Option (List ℕ))
      → chain_is_authentic c chain rest ≡ ok true
      → IsAuthenticChain chain × Allows chain rest
  unfolding chain_is_authentic
  chain_is_authentic-Allows chain none h = (
    is_authentic-IsAuthentic c.algorithms c.payload c.find_root_key c.find_certificate chain h,
    tt,
  )
  chain_is_authentic-Allows chain (some rest) h =
      let (authentic, mine, found, within) =
        is_authentic_within-IsAuthentic c.algorithms c.payload c.find_root_key c.find_certificate
          chain rest h in
      (authentic, (mine, found, within))

  abbrev judged : AuthCredentials → HandshakeBinding → Bool → Result Error Bool
  judged creds b authentic = if authentic then holds_binding c creds b else ok false

  judged_passes :
      (creds : AuthCredentials) (b : HandshakeBinding) (authentic : Bool)
      → judged creds b authentic ≡ ok true
      → (authentic ≡ true) × (holds_binding c creds b ≡ ok true)
  judged_passes creds b true h = (refl, h)
  judged_passes creds b false h = absurd (ground (arith, h))

  -- The checks pass only for credentials that are verified.
  pub verify_credentials-IsVerified :
      (creds : AuthCredentials) (b : HandshakeBinding) (rest : Option (List ℕ))
      → verify_credentials c creds b rest ≡ ok true
      → IsVerified creds b rest
  unfolding verify_credentials holds_binding
  verify_credentials-IsVerified creds b rest h =
      let (t, said, more) = bind_passes _ _ h in
      let (so, held) = judged_passes creds b t more in
      let (authentic, allowed) = chain_is_authentic-Allows creds.chain rest (said ∙ ap ok so) in
      let (last, found, tests) = bind_passes _ _ held in
      let (same_id, signed) = both _ _ (ok_same tests) in
      record {
        authentic = authentic;
        allowed = allowed;
        last = last;
        is_subject = found;
        same_key = same_lem _ _ same_id;
        signed = signed;
      }
