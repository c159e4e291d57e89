-- ===== src/Tls/Session/Latched.antt =====
-- The flags of a connection over its life.
use tls.Base.{◌≡◌, true, not, ◌||◌, arith}
use tls.Outside.{Outside}
use tls.Outside.Progress.{Progress}
use tls.Outside.Vectored.{Vectored}
use tls.Outside.Slots.{Slots}
use tls.Outside.Chunks.{Chunks}
use tls.State.Input.Rule.{ReadKeeps}
use tls.Tls.{Connection}
use tls.Tls.Encrypt.{Attempts, seal, one}
use tls.Tls.Encrypt.Vectored.{many}
use tls.Tls.Encrypt.Failure.{seal-Flags}
use tls.Tls.Senders.Rule.{SendKeeps}
use tls.Tls.Waiters.{Lanes}
use tls.Tls.Session.{Session, Event, step}
use tls.Tls.Session.Rule.{After, conn_of, Encrypts-all, reading_of, step-Kept}

module _ ⦃o : Outside⦄ where
  -- Each flag that was set is still set.
  abbrev pub Latched : Connection → Connection → Type 0
  Latched c c' =
      ((not c.failed || c'.failed) ≡ true)
      × ((not c.local_closed || c'.local_closed) ≡ true)
      × ((not c.peer_closed || c'.peer_closed) ≡ true)

  pub Latched-refl : (c : Connection) → Latched c c
  Latched-refl c = (ground arith, ground arith, ground arith)

  module _ (c : Connection) where
    Latched-ReadKeeps : ReadKeeps (Latched c)
    Latched-ReadKeeps = record {
      on_read_tls = λ conn bs h. h;
      on_process = λ conn h. h;
      on_probe = λ conn h. h;
      on_fill_buf = λ conn h. h;
      on_consume = λ conn k h. h;
      on_peer_closed = λ conn closed h. (h.0, h.1, ground arith);
      on_fail = λ conn h. (ground arith, h.1, h.2);
    }

    Latched-SendKeeps : SendKeeps (Latched c)
    Latched-SendKeeps = record {
      on_drain = λ conn out h. h;
      on_fail = λ conn h. (ground arith, h.1, h.2);
      on_notify = λ conn h. (h.0, ground arith, h.2);
    }

    seal-Latched :
        (a : Attempts) (conn : Connection) (out : o.Cursor) (plain : a.Left)
        → Latched c conn
        → Latched c (seal a conn out plain).1
    seal-Latched a conn out plain h =
        let f = seal-Flags a conn out plain in
        (
          ground (arith, h.0, f.failed),
          ground (arith, h.1, f.local_closed),
          ground (arith, h.2, f.peer_closed),
        )

module _ ⦃o : Outside⦄ ⦃s : Slots⦄ ⦃l : Lanes⦄ ⦃k : Chunks⦄ ⦃d : Progress⦄ ⦃v : Vectored⦄
    (c : Connection) where
  pub step-Latched :
      (st : Session) (e : Event)
      → Latched c (conn_of st)
      → After (λ st'. Latched c (conn_of st')) (step st e)
  step-Latched st e h =
      step-Kept (Latched c) (reading_of (Latched c) (Latched-ReadKeeps c)) (Latched-SendKeeps c) st
        e
        (Encrypts-all (Latched c) (Latched-SendKeeps c) (seal-Latched c one) (seal-Latched c many)
          st e)
        h
