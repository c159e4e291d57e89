-- ===== src/Tls/Senders/Failure.antt =====
-- What the operations of the send path report of a failure.
use tls.Base.{ℕ, ◌≡◌, true, not, ◌||◌, arith}
use tls.Outside.{Outside}
use tls.Outside.Progress.{Progress}
use tls.Tls.{Connection, drain}
use tls.Tls.Drain.{is_some, drain-failed, drain-local_closed, drain-peer_closed}
use tls.Tls.Buffer.{put_back-conn}
use tls.Tls.Link.{Processed, output, terminal, eof, Prepared, Link}
use tls.Tls.Encrypt.{Attempts, seal, one}
use tls.Tls.Encrypt.Failure.{is_terminal, Flags, seal-Flags}
use tls.Tls.Senders.{refill, prepare_into, prepare_with, prepare, after_send, flush}

module _ ⦃o : Outside⦄ where
  open o use {Cursor}

  abbrev pub value : {A : Type 0} → Processed A → A
  value (output a) = a
  value (terminal a _) = a
  value (eof a) = a

  -- A failure that is reported is a failure of the connection, a failed connection stays so, and a
  -- failure asks the runtime to close after it.
  pub record Reports (c : Connection) (r : Processed Prepared) (c' : Connection) : Type 0 where
    pub flags : Flags c r c'
    pub closes : (not (is_terminal r) || (value r).close_after) ≡ true

  -- A flush fails the connection exactly when it reports a failure or it had failed before, keeps
  -- its closing flags, and asks to close after a failure.
  pub flush-Reports : (l : Link) → Reports l.conn (flush l).0 (flush l).1.conn
  unfolding flush
  flush-Reports l =
      grind (arith, put_back-conn, drain-failed, drain-local_closed, drain-peer_closed)

  refill-Flags :
      (conn : Connection) (out : Cursor)
      → ((refill conn out).1.failed ≡ (is_some (refill conn out).0 || conn.failed))
        × ((refill conn out).1.local_closed ≡ conn.local_closed)
        × ((refill conn out).1.peer_closed ≡ conn.peer_closed)
  unfolding refill
  refill-Flags conn out =
      ground (arith, drain-failed conn out, drain-local_closed conn out, drain-peer_closed conn out)

  -- After a send the connection has failed exactly when the refill reports a failure or it had
  -- failed before, its closing flags are kept, and a failure asks to close.
  pub after_send-Flags :
      (l : Link) (sent : ℕ)
      → Flags l.conn (after_send l sent).0 (after_send l sent).1.conn
        × ((not (is_terminal (after_send l sent).0)
              || (value (after_send l sent).0).prepared.close_after)
            ≡ true)
  unfolding after_send
  after_send-Flags l sent = grind (arith, drain-failed, drain-local_closed, drain-peer_closed)

  module _ (a : Attempts) where
    prepare_into-Reports :
        (l : Link) (c : Cursor) (plain : a.Left)
        → Reports l.conn (prepare_into a l c plain).0 (prepare_into a l c plain).1.conn
    unfolding prepare_into
    prepare_into-Reports l c plain =
        let (_, conn, out) = drain l.conn c in
        let (_, conn', out', _) = seal a conn out plain in
        ground (
          arith,
          drain-failed l.conn c,
          drain-local_closed l.conn c,
          drain-peer_closed l.conn c,
          seal-Flags a conn out plain,
          put_back-conn l conn out,
          put_back-conn l conn' out',
        )

    pub prepare_with-Reports :
        (l : Link) (plain : a.Left)
        → Reports l.conn (prepare_with a l plain).0 (prepare_with a l plain).1.conn
    unfolding prepare_with
    prepare_with-Reports l plain = grind (arith, prepare_into-Reports)

  -- Preparing a send fails the connection exactly when it reports a failure or it had failed
  -- before, keeps its closing flags, and asks to close after a failure.
  pub prepare-Reports :
      ⦃d : Progress⦄ (l : Link) (plain : d.Plain)
      → Reports l.conn (prepare l plain).0 (prepare l plain).1.conn
  unfolding prepare
  prepare-Reports l plain = prepare_with-Reports one l plain
