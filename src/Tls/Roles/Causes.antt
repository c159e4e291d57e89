-- ===== src/Tls/Roles/Causes.antt =====
-- Neither role lacks a buffer when it opens.
use tls.Base.{◌≡◌, false, arith}
use tls.Outside.{Outside}
use tls.State.Causes.{lacks_buffer}
use tls.Tls.Roles.{Handshakes, ClientPlan, open_server, open_client}

module _ ⦃o : Outside⦄ ⦃h : Handshakes⦄ where
  pub open_client-lacks : (plan : ClientPlan) → lacks_buffer (open_client plan) ≡ false
  unfolding open_client
  open_client-lacks plan = ground arith

  pub open_server-lacks : (config : h.ServerConfig) → lacks_buffer (open_server config) ≡ false
  unfolding open_server
  open_server-lacks config = ground arith
