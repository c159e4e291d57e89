-- ===== src/Config/Raw/Pinned.antt =====
-- src/config/raw.rs: the identity that Identity::from_seed makes, and what Peer::verify admits.
use tls.Base.{
  ℕ, ◌≡◌, ◌↔◌, refl, sym, ap, subst, ◌∙◌, Bool, true, false, Option, none, some, Result, ok, err,
  List, [], ◌∷◌, ◌++◌, length, arith,
}
use tls.Outside.{Outside}
use tls.Error.{Error}
use tls.Config.{Crypto}
use tls.Config.Raw.{
  certify, pkcs8_prefix, RawKeys, spki_prefix, decode_spki, Identity, Peer, loaded, try_load,
  from_seed, try_public_key_from_seed, new_peer, verify, verify_server_cert, verify_client_cert,
}
use tls.Config.Raw.Bytes.{same_bytes_sound, same_bytes_self, decode_spki_iff, decode_spki-length}

module _ ⦃o : Outside⦄ ⦃c : Crypto⦄ ⦃k : RawKeys⦄ where
  open k use {any_eddsa_type, CertifiedKey, certified, chain, SigningKey, Algorithms}

  -- A certified key keeps the chain that it is made of.
  pub record RawKeysLaws : Type 0 where
    pub chain-certified :
        (certs : List (List ℕ)) (key : SigningKey) → chain (certified certs key) ≡ certs

  -- A verifier is asked about the first certificate and those behind it; rustls refuses an empty
  -- chain itself.
  abbrev pub admits : (List ℕ → List (List ℕ) → Result o.TlsError (Unit {0})) → List (List ℕ) → Bool
  admits verifier [] = false
  admits verifier (leaf ∷ rest) = elim (verifier leaf rest) [ ok u ↦ true | err cause ↦ false ]

  admits-verify :
      (pin : List ℕ) (algs : Algorithms) (certs : List (List ℕ))
      → (admits (verify (new_peer pin algs)) certs ≡ true) ↔ (certs ≡ (spki_prefix ++ pin) ∷ [])
  unfolding verify new_peer
  admits-verify pin algs [] = (λ e. ground arith, λ e. ground arith)
  admits-verify pin algs (leaf ∷ []) = (
    λ e. ap (λ l. l ∷ []) (same_bytes_sound leaf (spki_prefix ++ pin) (ground arith)),
    λ e.
        subst (λ certs. admits (verify (new_peer pin algs)) certs ≡ true) (sym e)
          (ground (arith, same_bytes_self (spki_prefix ++ pin))),
  )
  admits-verify pin algs (leaf ∷ next ∷ rest) = (λ e. ground arith, λ e. ground arith)

  server_cert-verify :
      (peer : Peer) (certs : List (List ℕ))
      → admits (verify_server_cert peer) certs ≡ admits (verify peer) certs
  unfolding verify_server_cert
  server_cert-verify peer [] = refl
  server_cert-verify peer (leaf ∷ rest) = ground arith

  client_cert-verify :
      (peer : Peer) (certs : List (List ℕ))
      → admits (verify_client_cert peer) certs ≡ admits (verify peer) certs
  unfolding verify_client_cert
  client_cert-verify peer [] = refl
  client_cert-verify peer (leaf ∷ rest) = ground arith

  -- Either verifier admits one certificate, which holds the pinned key, and nothing else.
  pub admits_iff :
      (pin : List ℕ) (algs : Algorithms) (certs : List (List ℕ))
      → ((admits (verify_server_cert (new_peer pin algs)) certs ≡ true)
          ↔ (certs ≡ (spki_prefix ++ pin) ∷ []))
        × ((admits (verify_client_cert (new_peer pin algs)) certs ≡ true)
            ↔ (certs ≡ (spki_prefix ++ pin) ∷ []))
  admits_iff pin algs certs =
      let (to, from) = admits-verify pin algs certs in
      let server = server_cert-verify (new_peer pin algs) certs in
      let client = client_cert-verify (new_peer pin algs) certs in
      (
        (λ e. to (sym server ∙ e), λ e. server ∙ from e),
        (λ e. to (sym client ∙ e), λ e. client ∙ from e),
      )

  loaded-length :
      (result : Result o.TlsError SigningKey) (key : SigningKey) (public : List ℕ)
      → loaded result ≡ ok (key, public)
      → length public ≡ 32
  unfolding loaded
  loaded-length (err cause) key public e = absurd (ground arith)
  loaded-length (ok made) key public e = grind (arith, decode_spki-length)

  -- What certify returns is made of the key that it is given.
  certify-ok :
      (made : Result Error (SigningKey × List ℕ)) (cert_box chain_box : Option o.AllocError)
      → (id : Identity) → certify made cert_box chain_box ≡ ok id
      → (key : SigningKey) × (made ≡ ok (key, id.identity_key))
        × (id.key ≡ certified ((spki_prefix ++ id.identity_key) ∷ []) key)
  unfolding certify
  certify-ok (err cause) cert_box chain_box id e = absurd (ground arith)
  certify-ok (ok (key, public)) (some cause) chain_box id e = absurd (ground arith)
  certify-ok (ok (key, public)) none (some cause) id e = absurd (ground arith)
  certify-ok (ok (key, public)) none none id e = (key, ground arith, ground arith)

  -- What an identity presents: one certificate, which holds its key.
  pub from_seed-chain :
      (laws : RawKeysLaws) (seed : List ℕ) (cert_box chain_box : Option o.AllocError)
      (id : Identity)
      → from_seed seed cert_box chain_box ≡ ok id
      → chain id.key ≡ (spki_prefix ++ id.identity_key) ∷ []
  unfolding from_seed
  from_seed-chain laws seed cert_box chain_box id e =
      let (key, f, g) = certify-ok (try_load seed).0 cert_box chain_box id e in
      ap chain g ∙ laws.chain-certified ((spki_prefix ++ id.identity_key) ∷ []) key

  -- The certificate that an identity made of a seed presents stands alone, is read as the identity's
  -- public key, and that key is 32 bytes long, where a certified key keeps its chain.
  pub from_seed-decode_spki :
      (laws : RawKeysLaws) (seed : List ℕ) (cert_box chain_box : Option o.AllocError)
      (id : Identity)
      → from_seed seed cert_box chain_box ≡ ok id
      → (leaf : List ℕ) × (chain id.key ≡ leaf ∷ [])
        × (decode_spki leaf ≡ some id.identity_key)
        × (length id.identity_key ≡ 32)
  unfolding from_seed try_load
  from_seed-decode_spki laws seed cert_box chain_box id e =
      let (key, f, g) = certify-ok (try_load seed).0 cert_box chain_box id e in
      let n = loaded-length (any_eddsa_type (pkcs8_prefix ++ seed)) key id.identity_key f in
      (
        spki_prefix ++ id.identity_key,
        from_seed-chain laws seed cert_box chain_box id e,
        (decode_spki_iff (spki_prefix ++ id.identity_key) id.identity_key).1 (refl, n),
        n,
      )

  abbrev key_of : Result Error Identity → Result Error (List ℕ)
  key_of (ok id) = ok id.identity_key
  key_of (err cause) = err cause

  key_of-certify :
      (made : Result Error (SigningKey × List ℕ))
      → key_of (certify made none none)
        ≡ elim made [ err cause ↦ err cause | ok (key, public) ↦ ok public ]
  unfolding certify
  key_of-certify (ok (key, public)) = refl
  key_of-certify (err cause) = refl

  -- The public key derived without an identity is the key of the identity that the same seed makes,
  -- and where it is not derived the identity fails with the same error, as long as allocation does
  -- not fail.
  pub try_public_key_from_seed-from_seed :
      (seed : List ℕ) → try_public_key_from_seed seed ≡ key_of (from_seed seed none none)
  unfolding try_public_key_from_seed from_seed
  try_public_key_from_seed-from_seed seed = sym (key_of-certify (try_load seed).0)
