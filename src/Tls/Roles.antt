-- ===== src/Tls/Roles.antt =====
-- src/tls/roles/mod.rs and src/tls/client.rs: what a server and a client open. The connections are
-- rustls's, and the copies of the protocols are o3's.
pub mod Causes
pub mod Laws
pub mod Configs
use tls.Base.{ℕ, zero, suc, Bool, true, false, Option, none, some, Result, ok, err, List, [], ◌∷◌}
use tls.Outside.{Outside}
use tls.Error.{Error, tls_error, from_tls, allocation}
use tls.Tls.Endpoint.Open.{Roles}

-- rustls::ServerConnection, ClientConnection and their configurations, and recycle::Store; the
-- Box::try_copy of bytes and the Block::try_clone of a list, by a copy of its elements.
pub record Handshakes ⦃o : Outside⦄ : Type 1 where
  pub ServerConfig : Type 0
  pub ServerConnection : Type 0
  pub new_server : ServerConfig → Result o.TlsError ServerConnection
  pub reject_early_data : ServerConnection → ServerConnection
  pub of_server : ServerConnection → o.Native
  pub ClientConfig : Type 0
  pub ServerName : Type 0
  pub alpn_protocols : ClientConfig → List (List ℕ)
  pub new_with_alpn : ClientConfig → ServerName → List (List ℕ) → Result o.TlsError o.Native
  pub try_copy : List ℕ → Result o.AllocError (List ℕ)
  pub try_clone :
      List (List ℕ) → (List ℕ → Result o.AllocError (List ℕ)) → Result o.AllocError (List (List ℕ))
  pub SessionStore : Type 0
  pub take_session : SessionStore → Option SessionStore
  pub return_session : SessionStore → SessionStore

module _ ⦃o : Outside⦄ ⦃h : Handshakes⦄ where
  open o use {AllocError, Native}
  open h use {
    ServerConfig, new_server, reject_early_data, of_server, ClientConfig, ServerName,
    alpn_protocols, new_with_alpn, try_copy, try_clone, SessionStore, take_session, return_session,
  }

  -- client::Plan.
  pub record ClientPlan : Type 0 where
    pub config : ClientConfig
    pub name : ServerName

  -- client::Plan::new.
  abbrev pub client_plan : ClientConfig → ServerName → ClientPlan
  client_plan config name = record { config = config; name = name }

  -- `open` of Server.
  pub open_server : ServerConfig → Result Error Native
  open_server config = elim (new_server config) [
    | err cause ↦ err (from_tls cause)
    | ok conn ↦ ok (of_server (reject_early_data conn))
  ]

  -- `open` of Client.
  pub open_client : ClientPlan → Result Error Native
  open_client plan = elim (try_clone (alpn_protocols plan.config) (λ protocol. try_copy protocol)) [
    | err cause ↦ err (allocation cause)
    | ok protocols ↦ elim (new_with_alpn plan.config plan.name protocols) [
      | ok conn ↦ ok conn
      | err cause ↦ err (tls_error cause)
    ]
  ]

  -- The roles, with SEND_ON_OPEN.
  abbrev pub server_role : Roles
  server_role = record {
    Config = ServerConfig;
    send_on_open = false;
    open_role = open_server;
    Sessions = SessionStore;
    take_session = take_session;
    return_session = return_session;
  }

  abbrev pub client_role : Roles
  client_role = record {
    Config = ClientPlan;
    send_on_open = true;
    open_role = open_client;
    Sessions = SessionStore;
    take_session = take_session;
    return_session = return_session;
  }
