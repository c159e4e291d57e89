-- ===== src/Tls/Session/Reads.antt =====
-- The plaintext that a receive of a connection hands out, and what the receive makes of the
-- connection.
use tls.Base.{ℕ, ◌≡◌, refl, Option, none, some, Result, List, [], ◌++◌, append-nil}
use tls.Outside.{Outside}
use tls.Outside.Laws.{ReadLaws}
use tls.Outside.Slots.{Slots}
use tls.Error.{Error}
use tls.State.Staged.{Release}
use tls.Tls.{Connection}
use tls.Tls.Senders.Rule.{SendKeeps}
use tls.Tls.Waiters.{Lanes}
use tls.Tls.Policy.{Outcome, is_ready, is_blocked, is_failed, Reader}
use tls.Tls.Policy.Fresh.{LeaseFresh}
use tls.Tls.Policy.Rule.{process_after}
use tls.Tls.Policy.Silent.{outcome_native}
use tls.Tls.Session.{Session, receive_outcome}
use tls.Tls.Session.Rule.{After, conn_of, wait_for-Kept}

module _ ⦃o : Outside⦄ ⦃s : Slots⦄ ⦃l : Lanes⦄ where
  -- The plaintext of what a read hands out, which `shown` tells, and of a receive, admitted or not.
  abbrev shown_by :
      {T : Type 0}
      → (T → List ℕ)
      → Option (T × Result Error (Unit {0}) × Release × Connection)
      → List ℕ
  shown_by shown none = []
  shown_by shown (some (x, r, freed, conn)) = shown x

  abbrev pub outcome_bytes : {T : Type 0} → (T → List ℕ) → Reader T → Outcome → List ℕ
  outcome_bytes shown read (is_ready txn) = shown_by shown (read txn.worker.conn txn.lease)
  outcome_bytes shown read (is_blocked kind w) = []
  outcome_bytes shown read (is_failed cause w) = []

  -- There is a session after, and it has the property.
  abbrev pub Returned : (Session → Type 0) → Option Session → Type 0
  Returned Q none = ⊥
  Returned Q (some st) = Q st

  pub After-Returned : (Q : Session → Type 0) (r : Option Session) → Returned Q r → After Q r
  After-Returned Q none h = tt
  After-Returned Q (some st) h = h

-- `H all` relates the plaintext that has been handed out to a connection.
module _ ⦃o : Outside⦄ (reading : ReadLaws) (H : List ℕ → Connection → Type 0) where
  open o use {Reserve, chunk_slice, freeze}
  open reading use {delivered}

  -- The send path keeps it, and it holds where all that was delivered has been handed out.
  pub record Accounts : Type 0 where
    pub keeps : (all : List ℕ) → SendKeeps (H all)
    pub exact : (all : List ℕ) (conn : Connection) → delivered conn.native ≡ all → H all conn

  -- A read that starts with an empty slot returns, and adds what it hands out.
  abbrev pub Hands :
      {T : Type 0}
      → (T → List ℕ)
      → (Connection → Reserve → Option (T × Result Error (Unit {0}) × Release × Connection))
      → Type 0
  Hands {T} shown read =
      (conn : Connection) (lease : Reserve)
      → chunk_slice (freeze lease) ≡ []
      → (r : T × Result Error (Unit {0}) × Release × Connection) × (read conn lease ≡ some r)
        × H (delivered conn.native ++ shown r.0) r.3

  module _ ⦃s : Slots⦄ ⦃l : Lanes⦄ (accounts : Accounts) where
    nothing_shown : (conn : Connection) → H (delivered conn.native ++ []) conn
    nothing_shown conn = rw append-nil (accounts.exact (delivered conn.native) conn refl)

    pub receive_outcome-Hands :
        {T : Type 0} (shown : T → List ℕ) (read : Reader T)
        → Hands shown read
        → (credit : Option l.Held) (st : Session) (out : Outcome) → LeaseFresh out
        → Returned
            (λ st'.
              H (delivered (outcome_native out) ++ outcome_bytes shown read out) (conn_of st'))
            (receive_outcome read credit st out)
    unfolding receive_outcome
    receive_outcome-Hands shown read hands credit st (is_failed cause w) h = nothing_shown w.conn
    receive_outcome-Hands shown read hands credit st (is_blocked kind w) h =
        wait_for-Kept (H (delivered w.conn.native ++ [])) st w kind credit (nothing_shown w.conn)
    receive_outcome-Hands shown read hands credit st (is_ready txn) h =
        let ((x, r, freed, conn), e, got) = hands txn.worker.conn txn.lease h in
        let all = delivered txn.worker.conn.native ++ shown x in
        let (p, w, run, kept) = process_after (H all) (accounts.keeps all) read txn e got in
        rw (run, e, receive_outcome) kept
