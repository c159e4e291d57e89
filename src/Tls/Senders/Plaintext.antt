-- ===== src/Tls/Senders/Plaintext.antt =====
-- Plaintext under `prepare`.
use tls.Base.{◌≡◌, true, ◌++◌, arith}
use tls.Outside.{Outside}
use tls.Outside.Laws.{PlainLaws}
use tls.Outside.Progress.{Progress, PlanLaws}
use tls.State.Moved.{drain-keeps}
use tls.Tls.{Connection, drain}
use tls.Tls.Drain.{drain-native, drain-failed, drain-local_closed}
use tls.Tls.Buffer.{put_back-conn}
use tls.Tls.Link.{Link}
use tls.Outside.Vectored.{Vectored, VectoredLaws}
use tls.Tls.Encrypt.{Attempts, seal, one}
use tls.Tls.Encrypt.Vectored.{many}
use tls.Tls.Encrypt.Vectored.Gathered.{many-Conserves}
use tls.Tls.Encrypt.Accepts.{Conserves, one-Conserves}
use tls.Tls.Encrypt.Plaintext.{is_shut, seal-shut, seal-plaintext}
use tls.Tls.Senders.{prepare_into, prepare_with, prepare, prepare_many}

module _ ⦃o : Outside⦄ (a : Attempts) (plains : PlainLaws) (conserves : Conserves a plains) where
  open o use {Cursor}
  open a use {Left, left}
  open plains use {accepted}

  drain-accepted :
      (conn : Connection) (out : Cursor) → accepted (drain conn out).1.native ≡ accepted conn.native
  drain-accepted conn out =
      rw drain-native
        (drain-keeps accepted (λ m s. plains.write_tls-accepted _ m s) conn.native out)

  prepare_into-plaintext :
      (l : Link) (c : Cursor) (plain : Left)
      → accepted (prepare_into a l c plain).1.conn.native ++ left (prepare_into a l c plain).2
        ≡ accepted l.conn.native ++ left plain
  unfolding prepare_into
  prepare_into-plaintext l c plain =
      let (_, conn, out) = drain l.conn c in
      let (_, conn', out', _) = seal a conn out plain in
      ground (
        arith,
        drain-accepted l.conn c,
        seal-plaintext a plains conserves conn out plain,
        put_back-conn l conn out,
        put_back-conn l conn' out',
      )

  pub prepare_with-plaintext :
      (l : Link) (plain : Left)
      → let (_, l', plain') = prepare_with a l plain in
        accepted l'.conn.native ++ left plain' ≡ accepted l.conn.native ++ left plain
  unfolding prepare_with
  prepare_with-plaintext l plain = grind (arith, prepare_into-plaintext)

module _ ⦃o : Outside⦄ (plains : PlainLaws) where
  open plains use {accepted}

  -- Preparing a send neither loses, repeats nor reorders plaintext, a failure included: what rustls
  -- has accepted, followed by what the plan has left, is the same before and after.
  pub prepare-plaintext :
      ⦃d : Progress⦄ (plans : PlanLaws) (l : Link) (plain : d.Plain)
      → let (_, l', plain') = prepare l plain in
        accepted l'.conn.native ++ d.rest plain' ≡ accepted l.conn.native ++ d.rest plain
  unfolding prepare
  prepare-plaintext plans l plain =
      prepare_with-plaintext one plains (one-Conserves plains plans) l plain

  -- Preparing a send of several buffers neither loses, repeats nor reorders plaintext, a failure
  -- included: what rustls has accepted, followed by what the plan has left, is the same before and
  -- after, wherever in a buffer the writes of rustls end.
  pub prepare_many-plaintext :
      ⦃v : Vectored⦄ (laws : VectoredLaws) (l : Link) (plain : v.Many)
      → let (_, l', plain') = prepare_many l plain in
        accepted l'.conn.native ++ v.many_rest plain' ≡ accepted l.conn.native ++ v.many_rest plain
  unfolding prepare_many
  prepare_many-plaintext laws l plain =
      prepare_with-plaintext many plains (many-Conserves plains laws) l plain

module _ ⦃o : Outside⦄ where
  drain-shut :
      (conn : Connection) (out : o.Cursor) → is_shut conn ≡ true → is_shut (drain conn out).1 ≡ true
  drain-shut conn out h = ground (arith, drain-failed conn out, drain-local_closed conn out)

  module _ (a : Attempts) where
    prepare_into-shut :
        (l : Link) (c : o.Cursor) (plain : a.Left)
        → is_shut l.conn ≡ true
        → (prepare_into a l c plain).2 ≡ plain
    unfolding prepare_into
    prepare_into-shut l c plain h =
        let (_, conn, out) = drain l.conn c in
        ground (arith, drain-shut l.conn c h, seal-shut a conn out plain)

    pub prepare_with-shut :
        (l : Link) (plain : a.Left) → is_shut l.conn ≡ true → (prepare_with a l plain).2 ≡ plain
    unfolding prepare_with
    prepare_with-shut l plain h = grind (arith, prepare_into-shut)

  -- After a failure, or once this side has closed, `prepare` consumes no plaintext.
  pub prepare-shut :
      ⦃d : Progress⦄ (l : Link) (plain : d.Plain)
      → is_shut l.conn ≡ true
      → (prepare l plain).2 ≡ plain
  unfolding prepare
  prepare-shut l plain h = prepare_with-shut one l plain h
