-- ===== src/Config/Raw/Settings/Mutual.antt =====
-- src/config/raw.rs: what a server and a client with pins admit of each other.
use tls.Base.{
  ℕ, ◌≡◌, ◌↔◌, sym, ap, ◌∙◌, inl, inr, Result-cases, Bool, true, none, some, ok, List, [], ◌∷◌,
  ◌++◌, arith,
}
use tls.Outside.{Outside}
use tls.Config.{Crypto, client_tls13, server_tls13}
use tls.Config.Raw.{
  RawKeys, spki_prefix, Identity, from_seed, new_peer, verify_server_cert, verify_client_cert,
}
use tls.Config.Raw.Pinned.{RawKeysLaws, admits, admits_iff, from_seed-chain}
use tls.Config.Raw.Settings.{
  ServerSettings, ClientSettings, server_auth, mutual_client, client_admits, server_admits,
}

spki-injective : (xs ys : List ℕ) → (spki_prefix ++ xs) ∷ [] ≡ (spki_prefix ++ ys) ∷ [] → xs ≡ ys
spki-injective xs ys e = ground arith

module _ ⦃o : Outside⦄ ⦃c : Crypto⦄ ⦃k : RawKeys⦄ where
  open k use {algorithms, chain, Algorithms}

  -- An identity that is made of a seed presents the pinned key exactly when the pin is its key.
  shown-from_seed :
      (laws : RawKeysLaws) (seed : List ℕ) (id : Identity) (pin : List ℕ)
      → from_seed seed none none ≡ ok id
      → (chain id.key ≡ (spki_prefix ++ pin) ∷ []) ↔ (pin ≡ id.identity_key)
  shown-from_seed laws seed id pin e =
      let shown = from_seed-chain laws seed none none id e in
      (
        λ same. spki-injective pin id.identity_key (sym same ∙ shown),
        λ same. shown ∙ ap (λ key. (spki_prefix ++ key) ∷ []) (sym same),
      )

  -- Of a peer with a pin, so do both verifiers.
  admits-from_seed :
      (laws : RawKeysLaws) (seed : List ℕ) (id : Identity) (pin : List ℕ) (algs : Algorithms)
      → from_seed seed none none ≡ ok id
      → ((admits (verify_server_cert (new_peer pin algs)) (chain id.key) ≡ true)
          ↔ (pin ≡ id.identity_key))
        × ((admits (verify_client_cert (new_peer pin algs)) (chain id.key) ≡ true)
            ↔ (pin ≡ id.identity_key))
  admits-from_seed laws seed id pin algs e =
      let (to, from) = shown-from_seed laws seed id pin e in
      let ((server_to, server_from), (client_to, client_from)) =
        admits_iff pin algs (chain id.key) in
      (
        (λ yes. to (server_to yes), λ same. server_from (from same)),
        (λ yes. to (client_to yes), λ same. client_from (from same)),
      )

  server_auth-ok :
      (id : Identity) (pin : List ℕ) (shared : Bool) (s : ServerSettings)
      → server_auth id pin shared ≡ ok s
      → (algs : Algorithms) × (s.own_key ≡ id.key) × (s.pinned ≡ some (new_peer pin algs))
  unfolding server_auth
  server_auth-ok id pin shared s e = elim (Result-cases server_tls13) [
    | inl (builder, f) ↦ (algorithms builder, ground arith, ground arith)
    | inr (cause, f) ↦ absurd (ground arith)
  ]

  mutual_client-ok :
      (id : Identity) (pin : List ℕ) (shared : Bool) (t : ClientSettings)
      → mutual_client id pin shared ≡ ok t
      → (algs : Algorithms) × (t.client_key ≡ some id.key) × (t.server_pin ≡ new_peer pin algs)
  unfolding mutual_client
  mutual_client-ok id pin shared t e = elim (Result-cases client_tls13) [
    | inl (builder, f) ↦ (algorithms builder, ground arith, ground arith)
    | inr (cause, f) ↦ absurd (ground arith)
  ]

  -- A server with a pinned client key and a client with a pinned server key, both made of seeds, admit
  -- each other exactly when each pin is the key of the other's identity, where a certified key keeps
  -- its chain.
  pub server_auth-mutual :
      (laws : RawKeysLaws) (own_seed peer_seed : List ℕ) (own peer : Identity)
      (pin peer_pin : List ℕ)
      → (shared peer_shared : Bool) (s : ServerSettings) (t : ClientSettings)
      → from_seed own_seed none none ≡ ok own
      → from_seed peer_seed none none ≡ ok peer
      → server_auth own pin shared ≡ ok s
      → mutual_client peer peer_pin peer_shared ≡ ok t
      → ((server_admits s t ≡ true) ↔ (pin ≡ peer.identity_key))
        × ((client_admits t s ≡ true) ↔ (peer_pin ≡ own.identity_key))
  unfolding server_admits client_admits
  server_auth-mutual laws own_seed peer_seed own peer pin peer_pin shared peer_shared s t eo ep es
        et =
      let (algs, own_key, pinned) = server_auth-ok own pin shared s es in
      let (peer_algs, client_key, server_pin) = mutual_client-ok peer peer_pin peer_shared t et in
      (
        rw (pinned, client_key) (admits-from_seed laws peer_seed peer pin algs ep).1,
        rw (server_pin, own_key) (admits-from_seed laws own_seed own peer_pin peer_algs eo).0,
      )
