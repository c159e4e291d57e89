-- ===== src/Tls/Roles/Configs.antt =====
-- src/tls/endpoint/mod.rs: the configurations that each role starts from.
use tls.Outside.{Outside}
use tls.Tls.Endpoint.Bootstrap.{Config, from_role}
use tls.Tls.Roles.{Handshakes, ClientPlan, client_plan, server_role, client_role}

module _ ⦃o : Outside⦄ ⦃h : Handshakes⦄ where
  open h use {ServerConfig, ClientConfig, ServerName}

  -- From a client::Plan, and Config::client.
  pub of_client_plan : ClientPlan → Config ⦃r = client_role⦄
  of_client_plan plan = from_role ⦃r = client_role⦄ plan

  pub client : ClientConfig → ServerName → Config ⦃r = client_role⦄
  client config name = from_role ⦃r = client_role⦄ (client_plan config name)

  -- From a native server configuration.
  pub of_server_config : ServerConfig → Config ⦃r = server_role⦄
  of_server_config config = from_role ⦃r = server_role⦄ config
