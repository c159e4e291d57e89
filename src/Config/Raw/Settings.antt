-- ===== src/Config/Raw/Settings.antt =====
-- src/config/raw.rs: the configurations of Identity::server_with and Identity::client_with, and that
-- an end configured with a pin admits exactly the identity with the pinned key.
pub mod Mutual
use tls.Base.{ℕ, zero, Bool, true, false, not, Option, none, some, Result, ok, err, List}
use tls.Outside.{Outside}
use tls.Error.{Error}
use tls.Config.{Crypto, client_tls13, server_tls13}
use tls.Config.Raw.{RawKeys, Identity, Peer, new_peer, verify_server_cert, verify_client_cert}
use tls.Config.Raw.Pinned.{admits}

module _ ⦃o : Outside⦄ ⦃c : Crypto⦄ ⦃k : RawKeys⦄ where
  open k use {algorithms, CertifiedKey, chain}

  -- What a configuration says of the peer and of itself. `pinned` is `none` for NoClientAuth.
  pub record ServerSettings : Type 0 where
    pub pinned : Option Peer
    pub own_key : CertifiedKey
    pub send_tls13_tickets : ℕ
    pub stores_sessions : Bool
    pub cache_disabled : Bool

  pub record ClientSettings : Type 0 where
    pub server_pin : Peer
    pub client_key : Option CertifiedKey
    pub resumes : Bool
    pub cache_disabled : Bool

  -- Identity::server_with. The builder's defaults are overwritten; the cache of compressed
  -- certificates is disabled unless it is shared, which `Arc::get_mut` finds.
  pub server_with : Identity → Option (List ℕ) → Bool → Result Error ServerSettings
  unfolding new_peer
  server_with identity pin shared_cache = elim server_tls13 [
    | err cause ↦ err cause
    | ok builder ↦ ok (record {
      pinned = elim pin [ some key ↦ some (new_peer key (algorithms builder)) | none ↦ none ];
      own_key = identity.key;
      send_tls13_tickets = 0;
      stores_sessions = false;
      cache_disabled = not shared_cache;
    })
  ]

  -- Identity::client_with.
  pub client_with : List ℕ → Option Identity → Bool → Result Error ClientSettings
  unfolding new_peer
  client_with pin identity shared_cache = elim client_tls13 [
    | err cause ↦ err cause
    | ok builder ↦ ok (record {
      server_pin = new_peer pin (algorithms builder);
      client_key = elim identity [ some own ↦ some own.key | none ↦ none ];
      resumes = false;
      cache_disabled = not shared_cache;
    })
  ]

  -- Identity::server, server_auth, client and mutual (`mutual_client`).
  pub server : Identity → Bool → Result Error ServerSettings
  unfolding server_with
  server identity shared_cache = server_with identity none shared_cache

  unfoldable pub server_auth : Identity → List ℕ → Bool → Result Error ServerSettings
  unfolding server_with
  server_auth identity pin shared_cache = server_with identity (some pin) shared_cache

  pub client : List ℕ → Bool → Result Error ClientSettings
  unfolding client_with
  client pin shared_cache = client_with pin none shared_cache

  unfoldable pub mutual_client : Identity → List ℕ → Bool → Result Error ClientSettings
  unfolding client_with
  mutual_client identity pin shared_cache = client_with pin (some identity) shared_cache

  -- What a server presents to a client, and a client to a server, which NoClientAuth does not ask for.
  pub client_admits : ClientSettings → ServerSettings → Bool
  client_admits own peer = admits (verify_server_cert own.server_pin) (chain peer.own_key)

  pub server_admits : ServerSettings → ClientSettings → Bool
  server_admits own peer = elim own.pinned [
    | none ↦ true
    | some pin ↦ elim peer.client_key [
      | none ↦ false
      | some key ↦ admits (verify_client_cert pin) (chain key)
    ]
  ]
