-- ===== src/Config/Raw.antt =====
-- src/config/raw.rs: pinned Ed25519 raw public keys. Bytes are numbers, and an array of a fixed size
-- is a list. Whether an allocation succeeds is an argument.
pub mod Bytes
pub mod Pinned
pub mod Settings
use tls.Base.{
  ℕ, zero, suc, Bool, true, false, not, ◌&&◌, ◌||◌, Option, none, some, Result, ok, err, List, [],
  ◌∷◌, ◌++◌, ◌==◌, length, is_nil,
}
use tls.Outside.{Outside}
use tls.Error.{Error, from_tls, from_alloc}
use tls.Config.{Crypto}

-- What the module takes from rustls and AWS-LC: signing keys with their DER, the errors that it
-- raises, the verification of a raw-key signature, and a certified key.
pub record RawKeys ⦃o : Outside⦄ ⦃c : Crypto⦄ : Type 1 where
  pub SigningKey : Type 0
  pub any_eddsa_type : List ℕ → Result o.TlsError SigningKey
  pub public_key : SigningKey → Option (List ℕ)
  pub inconsistent_keys : o.TlsError
  pub bad_encoding : o.TlsError
  pub verification_failure : o.TlsError
  pub tls12_not_offered : o.TlsError
  pub Scheme : Type 0
  pub ed25519 : Scheme
  pub DistinguishedName : Type 0
  pub Algorithms : Type 0
  pub algorithms : c.Builder → Algorithms
  pub Signature : Type 0
  pub verify_raw_key : List ℕ → List ℕ → Signature → Algorithms → Result o.TlsError (Unit {0})
  pub CertifiedKey : Type 0
  pub certified : List (List ℕ) → SigningKey → CertifiedKey
  pub chain : CertifiedKey → List (List ℕ)

-- SPKI and PKCS8.
abbrev pub spki_prefix : List ℕ
spki_prefix = 0x30 ∷ 0x2a ∷ 0x30 ∷ 0x05 ∷ 0x06 ∷ 0x03 ∷ 0x2b ∷ 0x65 ∷ 0x70 ∷ 0x03 ∷ 0x21 ∷ 0x00 ∷ []

abbrev pub pkcs8_prefix : List ℕ
pkcs8_prefix =
    0x30 ∷ 0x2e ∷ 0x02 ∷ 0x01 ∷ 0x00 ∷ 0x30 ∷ 0x05 ∷ 0x06 ∷ 0x03 ∷ 0x2b ∷ 0x65 ∷ 0x70 ∷ 0x04 ∷ 0x22
    ∷ 0x04 ∷ 0x20 ∷ []

-- Equality of byte strings, and slice::strip_prefix.
pub same_bytes : List ℕ → List ℕ → Bool
same_bytes [] [] = true
same_bytes [] (y ∷ ys) = false
same_bytes (x ∷ xs) [] = false
same_bytes (x ∷ xs) (y ∷ ys) = let rest = same_bytes xs ys in (x == y) && rest

pub strip_prefix : List ℕ → List ℕ → Option (List ℕ)
strip_prefix xs [] = some xs
strip_prefix [] (p ∷ ps) = none
strip_prefix (x ∷ xs) (p ∷ ps) =
    let rest = strip_prefix xs ps in elim (x == p) [ true ↦ rest | false ↦ none ]

-- The public key in an SPKI: the prefix, then 32 bytes.
unfoldable pub decode_spki : List ℕ → Option (List ℕ)
unfolding strip_prefix
decode_spki der = elim (strip_prefix der spki_prefix) [
  | none ↦ none
  | some bytes ↦ elim (length bytes == 32) [ true ↦ some bytes | false ↦ none ]
]

-- The loop that overwrites a buffer.
pub wipe : List ℕ → List ℕ
wipe [] = []
wipe (byte ∷ bytes) = 0 ∷ wipe bytes

module _ ⦃o : Outside⦄ ⦃c : Crypto⦄ ⦃k : RawKeys⦄ where
  open o use {TlsError, AllocError}
  open k use {
    SigningKey, any_eddsa_type, public_key, inconsistent_keys, bad_encoding, verification_failure,
    tls12_not_offered, Scheme, ed25519, DistinguishedName, Algorithms, algorithms, Signature,
    verify_raw_key, CertifiedKey, certified,
  }

  pub record Identity : Type 0 where
    pub key : CertifiedKey
    pub identity_key : List ℕ

  -- Identity::public_key.
  abbrev pub identity_public_key : Identity → List ℕ
  identity_public_key identity = identity.identity_key

  -- The part of Identity::try_load after the buffer is overwritten.
  pub loaded : Result TlsError SigningKey → Result Error (SigningKey × List ℕ)
  loaded (err cause) = err (from_tls cause)
  loaded (ok key) = elim (public_key key) [
    | none ↦ err (from_tls inconsistent_keys)
    | some spki ↦ elim (decode_spki spki) [
      | none ↦ err (from_tls bad_encoding)
      | some public ↦ ok (key, public)
    ]
  ]

  -- Identity::try_load, with what it leaves in the buffer that held the seed.
  unfoldable pub try_load : List ℕ → Result Error (SigningKey × List ℕ) × List ℕ
  unfolding loaded wipe
  try_load seed =
      let encoded = pkcs8_prefix ++ seed in
      let result = any_eddsa_type encoded in (loaded result, wipe encoded)

  -- Identity::from_seed after try_load. `cert_box` and `chain_box` say which allocation fails.
  pub certify :
      Result Error (SigningKey × List ℕ)
      → Option AllocError
      → Option AllocError
      → Result Error Identity
  certify (err cause) cert_box chain_box = err cause
  certify (ok (key, public)) (some cause) chain_box = err (from_alloc cause)
  certify (ok (key, public)) none (some cause) = err (from_alloc cause)
  certify (ok (key, public)) none none =
      let cert = spki_prefix ++ public in
      ok (record { key = certified (cert ∷ []) key; identity_key = public })

  -- Identity::from_seed.
  unfoldable pub from_seed : List ℕ → Option AllocError → Option AllocError → Result Error Identity
  unfolding try_load certify
  from_seed seed cert_box chain_box = certify (try_load seed).0 cert_box chain_box

  -- Identity::try_public_key_from_seed.
  pub try_public_key_from_seed : List ℕ → Result Error (List ℕ)
  unfolding try_load
  try_public_key_from_seed seed = elim (try_load seed).0 [
    | err cause ↦ err cause
    | ok (key, public) ↦ ok public
  ]

  pub record Peer : Type 0 where
    pub spki : List ℕ
    pub algs : Algorithms

  -- Peer::new.
  pub new_peer : List ℕ → Algorithms → Peer
  new_peer public algs = record { spki = spki_prefix ++ public; algs = algs }

  -- Peer::verify.
  pub verify : Peer → List ℕ → List (List ℕ) → Result TlsError (Unit {0})
  unfolding same_bytes
  verify peer leaf chain = elim (not (is_nil chain) || not (same_bytes leaf peer.spki)) [
    | true ↦ err verification_failure
    | false ↦ ok tt
  ]

  -- Peer::verify_server_cert and verify_client_cert. The name, the OCSP response and the time are not
  -- looked at.
  unfoldable pub verify_server_cert : Peer → List ℕ → List (List ℕ) → Result TlsError (Unit {0})
  unfolding verify
  verify_server_cert peer leaf chain = elim (verify peer leaf chain) [
    | err cause ↦ err cause
    | ok _ ↦ ok tt
  ]

  unfoldable pub verify_client_cert : Peer → List ℕ → List (List ℕ) → Result TlsError (Unit {0})
  unfolding verify
  verify_client_cert peer leaf chain = elim (verify peer leaf chain) [
    | err cause ↦ err cause
    | ok _ ↦ ok tt
  ]

  -- The rest of ServerCertVerifier for Peer.
  pub verify_tls12_signature : Peer → List ℕ → List ℕ → Signature → Result TlsError (Unit {0})
  verify_tls12_signature peer message cert dss = err tls12_not_offered

  pub verify_tls13_signature : Peer → List ℕ → List ℕ → Signature → Result TlsError (Unit {0})
  verify_tls13_signature peer message cert dss = verify_raw_key message cert dss peer.algs

  pub supported_verify_schemes : Peer → List Scheme
  supported_verify_schemes peer = ed25519 ∷ []

  pub requires_raw_public_keys : Peer → Bool
  requires_raw_public_keys peer = true

  -- The rest of ClientCertVerifier for Peer.
  pub client_tls12_signature : Peer → List ℕ → List ℕ → Signature → Result TlsError (Unit {0})
  client_tls12_signature peer message cert dss = err tls12_not_offered

  pub client_tls13_signature : Peer → List ℕ → List ℕ → Signature → Result TlsError (Unit {0})
  client_tls13_signature peer message cert dss = verify_raw_key message cert dss peer.algs

  pub client_verify_schemes : Peer → List Scheme
  client_verify_schemes peer = ed25519 ∷ []

  pub client_raw_public_keys : Peer → Bool
  client_raw_public_keys peer = true

  pub root_hint_subjects : Peer → List DistinguishedName
  root_hint_subjects peer = []
