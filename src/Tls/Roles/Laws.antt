-- ===== src/Tls/Roles/Laws.antt =====
-- Both roles keep what Runtime::open expects of a role.
use tls.Base.{◌≡◌, false, ok, arith}
use tls.Outside.{Outside}
use tls.Tls.Endpoint.Open.Unavailable.{RoleLaws}
use tls.Tls.Roles.{Handshakes, open_server, server_role, client_role}
use tls.Tls.Roles.Causes.{open_client-lacks, open_server-lacks}

module _ ⦃o : Outside⦄ ⦃h : Handshakes⦄ where
  -- A new server has nothing to send before it has read from its client.
  pub record ServerLaws : Type 0 where
    pub new_server-quiet :
        (config : h.ServerConfig) (native : o.Native)
        → open_server config ≡ ok native
        → o.wants_write native ≡ false

  pub server_role-RoleLaws : ServerLaws → RoleLaws ⦃r = server_role⦄
  server_role-RoleLaws laws = record {
    open_role-lacks = open_server-lacks;
    open_role-quiet = λ {config} {native} late e. laws.new_server-quiet config native e;
  }

  pub client_role-RoleLaws : RoleLaws ⦃r = client_role⦄
  client_role-RoleLaws = record {
    open_role-lacks = open_client-lacks;
    open_role-quiet = λ late e. absurd (ground (arith, late));
  }
