-- ===== src/Tls/Policy/Silent.antt =====
-- A receive delivers plaintext in its read alone.
use tls.Base.{◌≡◌, refl, Bool, some, Result}
use tls.Outside.{Outside}
use tls.Outside.Laws.{ReadLaws}
use tls.Outside.Slots.{Slots}
use tls.Error.{Error}
use tls.State.Staged.{Release}
use tls.Tls.{Connection}
use tls.Tls.Link.{Processed}
use tls.Tls.Encrypt.Silent.{SendLaws}
use tls.Tls.Senders.Silent.{delivers-SendKeeps}
use tls.Tls.Waiters.{Lanes}
use tls.Tls.Policy.Rule.{outcome_conn, try_reserve-Kept, finish-Kept}
use tls.Tls.Policy.{Worker, Transaction, Outcome, try_reserve, Reader, returned, finish, process}

module _ ⦃o : Outside⦄ ⦃s : Slots⦄ ⦃l : Lanes⦄ where
  open o use {Reserve}

  abbrev pub outcome_native : Outcome → o.Native
  outcome_native out = (outcome_conn out).native

  pub try_reserve-native :
      (b : Bool) (w : Worker) → outcome_native (try_reserve b w) ≡ w.conn.native
  try_reserve-native b w =
      try_reserve-Kept (λ conn. conn.native ≡ w.conn.native) (λ _ h. h) b w refl

  module _ (reads : ReadLaws) (sends : SendLaws reads) where
    open reads use {delivered}

    finish-delivered :
        {T : Type 0} (x : T) (r : Result Error (Unit {0})) (t : Transaction Release)
        → delivered (finish x r t).1.conn.native ≡ delivered t.worker.conn.native
    finish-delivered x r t =
        finish-Kept (λ conn. delivered conn.native ≡ delivered t.worker.conn.native)
          (delivers-SendKeeps reads sends (delivered t.worker.conn.native)) x r t refl

    -- A receive leaves what its read has delivered.
    pub process-delivered :
        {T : Type 0} (read : Reader T) (t : Transaction Reserve) (x : T)
        (r : Result Error (Unit {0})) (freed : Release) (conn : Connection)
        → read t.worker.conn t.lease ≡ some (x, r, freed, conn)
        → (p : Processed T) × (w : Worker) × (process read t ≡ some (p, w))
          × (delivered w.conn.native ≡ delivered conn.native)
    unfolding process
    process-delivered read t x r freed conn e =
        let w : Worker = record t.worker {
          conn = conn;
          receive = returned freed t.worker.receive;
        } in
        let t' : Transaction Release = record { worker = w; loan = t.loan; lease = freed } in
        ((finish x r t').0, (finish x r t').1, rw (e, process) refl, finish-delivered x r t')
