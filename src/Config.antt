-- ===== src/Config.antt =====
-- src/config/mod.rs: the cryptography and the clock of TLS 1.3 configurations. Suites, groups and
-- builders are rustls's.
pub mod Groups
pub mod Raw
use tls.Base.{ℕ, ◌-◌, Bool, true, false, Option, none, some, Result, ok, err, List, [], ◌∷◌, leb}
use tls.Outside.{Outside}
use tls.Error.{Error, tls_error}

pub record Crypto ⦃o : Outside⦄ : Type 1 where
  pub Suite : Type 0
  pub Group : Type 0
  pub is_tls13 : Suite → Bool
  pub is_hybrid : Group → Bool
  pub default_suites : List Suite
  pub default_groups : List Group
  -- `builder_with_details` and `with_protocol_versions(&[&TLS13])` of either side.
  pub Builder : Type 0
  pub client_builder : List Suite → List Group → Result o.TlsError Builder
  pub server_builder : List Suite → List Group → Result o.TlsError Builder

-- Vec::retain.
unfoldable pub retain {ℓ} : {A : Type ℓ} → (A → Bool) → List A → List A
retain p [] = []
retain p (x ∷ xs) = let rest = retain p xs in elim (p x) [ true ↦ x ∷ rest | false ↦ rest ]

-- slice::sort_by_key at a Boolean key, the stable sort: an element goes behind those before it whose
-- key is not greater.
pub insert_by {ℓ} : {A : Type ℓ} → (A → Bool) → A → List A → List A
insert_by key x [] = x ∷ []
insert_by key x (y ∷ ys) =
    let behind = y ∷ insert_by key x ys in
    elim (key x) [ false ↦ x ∷ y ∷ ys | true ↦ elim (key y) [ true ↦ x ∷ y ∷ ys | false ↦ behind ] ]

pub sort_by_key {ℓ} : {A : Type ℓ} → (A → Bool) → List A → List A
unfolding insert_by
sort_by_key key [] = []
sort_by_key key (x ∷ xs) = insert_by key x (sort_by_key key xs)

module _ ⦃o : Outside⦄ ⦃c : Crypto⦄ where
  open c use {
    Suite, Group, is_tls13, is_hybrid, default_suites, default_groups, Builder, client_builder,
    server_builder,
  }

  -- CryptoProvider.
  pub record Provider : Type 0 where
    pub cipher_suites : List Suite
    pub kx_groups : List Group

  -- ProviderExt::tls13. Its key is whether a group is X25519MLKEM768.
  unfoldable pub tls13 : Provider
  unfolding retain sort_by_key
  tls13 = record {
    cipher_suites = retain is_tls13 default_suites;
    kx_groups = sort_by_key is_hybrid default_groups;
  }

  -- Ext::try_tls13 of a client and of a server.
  unfoldable pub client_tls13 : Result Error Builder
  client_tls13 = elim (client_builder tls13.cipher_suites tls13.kx_groups) [
    | ok builder ↦ ok builder
    | err cause ↦ err (tls_error cause)
  ]

  unfoldable pub server_tls13 : Result Error Builder
  server_tls13 = elim (server_builder tls13.cipher_suites tls13.kx_groups) [
    | ok builder ↦ ok builder
    | err cause ↦ err (tls_error cause)
  ]

-- Time::current_time, over what the system clock says and the epoch.
pub current_time : ℕ → ℕ → Option ℕ
current_time now epoch = elim (leb epoch now) [ true ↦ some (now - epoch) | false ↦ none ]
