-- ===== src/Tls/Protocol.antt =====
-- src/tls/protocol.rs: the requests of the runtime to the send path, Egress, in any order.
pub mod Loans
pub mod Pipe
use tls.Base.{ℕ, Bool, not, ◌==◌, List, [], ◌∷◌}
use tls.Outside.{Outside}
use tls.Outside.Progress.{Progress}
use tls.Outside.Vectored.{Vectored}
use tls.Tls.Link.{Link}
use tls.Tls.Senders.{prepare, prepare_many, after_send, settle, flush, prepare_drain, close}

module _ ⦃o : Outside⦄ where
  -- Egress::has_capacity.
  pub has_capacity : o.Pool → Bool
  has_capacity pool = not (o.available pool == 0)

  module _ ⦃d : Progress⦄ ⦃v : Vectored⦄ where
    -- The methods of send::Policy that Egress has, with their arguments. `sent` is what the socket
    -- has taken, and `draining` says that there is a `terminal::Drain`.
    pub data Request : Type 0 where
      prepares : d.Plain → Request
      prepares_many : v.Many → Request
      after : (sent : ℕ) → Request
      settles : (sent : ℕ) (draining : Bool) → Request
      flushes : Request
      drains : (draining : Bool) → Request
      closes : Request

    -- The link after a request.
    unfoldable pub serve : Link → Request → Link
    serve l (prepares plain) = (prepare l plain).1
    serve l (prepares_many plain) = (prepare_many l plain).1
    serve l (after sent) = (after_send l sent).1
    serve l (settles sent draining) = (settle l sent draining).2
    serve l flushes = (flush l).1
    serve l (drains draining) = (prepare_drain l draining).2
    serve l closes = (close l).1

    unfoldable pub run : Link → List Request → Link
    run l [] = l
    run l (r ∷ rs) = run (serve l r) rs
