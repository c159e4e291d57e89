-- ===== src/Tls/Senders/Silent.antt =====
-- The send path leaves the plaintext that the reader has delivered as it is.
use tls.Base.{ℕ, ◌≡◌, refl, ◌∙◌, Bool, List}
use tls.Outside.{Outside}
use tls.Outside.Laws.{ReadLaws}
use tls.State.Moved.{drain-keeps}
use tls.Tls.{Connection, drain, emit_into}
use tls.Tls.Link.{Link}
use tls.Tls.Encrypt.{Attempts}
use tls.Tls.Encrypt.Silent.{SendLaws, Silent, seal-delivered}
use tls.Tls.Senders.Rule.{
  SendKeeps, emit_into-Kept, drain-Kept, after_send-Kept, settle-Kept, flush-Kept,
  prepare_drain-Kept, close-Kept, prepare_with-Kept,
}
use tls.Tls.Senders.{prepare_with, after_send, settle, flush, prepare_drain, close}

module _ ⦃o : Outside⦄ (reads : ReadLaws) (sends : SendLaws reads) where
  open o use {Cursor}
  open reads use {delivered}

  abbrev pub link_delivered : Link → List ℕ
  link_delivered l = delivered l.conn.native

  -- The rule for connections that have delivered `bytes`.
  pub delivers-SendKeeps : (bytes : List ℕ) → SendKeeps (λ conn. delivered conn.native ≡ bytes)
  delivers-SendKeeps bytes = record {
    on_drain = λ conn out h. drain-keeps delivered sends.write_tls-delivered conn.native out ∙ h;
    on_fail = λ conn h. h;
    on_notify = λ conn h. sends.send_close_notify-delivered conn.native ∙ h;
  }

  drain-delivered :
      (conn : Connection) (out : Cursor)
      → delivered (drain conn out).1.native ≡ delivered conn.native
  drain-delivered conn out = drain-Kept _ (delivers-SendKeeps (delivered conn.native)) conn out refl

  pub emit_into-delivered :
      (conn : Connection) (out : Cursor)
      → delivered (emit_into conn out).1.native ≡ delivered conn.native
  emit_into-delivered conn out =
      emit_into-Kept _ (delivers-SendKeeps (delivered conn.native)) conn out refl

  pub after_send-delivered :
      (l : Link) (sent : ℕ) → link_delivered (after_send l sent).1 ≡ link_delivered l
  after_send-delivered l sent =
      after_send-Kept _ (delivers-SendKeeps (link_delivered l)) l sent refl

  pub settle-delivered :
      (l : Link) (sent : ℕ) (draining : Bool)
      → link_delivered (settle l sent draining).2 ≡ link_delivered l
  settle-delivered l sent draining =
      settle-Kept _ (delivers-SendKeeps (link_delivered l)) l sent draining refl

  pub flush-delivered : (l : Link) → link_delivered (flush l).1 ≡ link_delivered l
  flush-delivered l = flush-Kept _ (delivers-SendKeeps (link_delivered l)) l refl

  pub prepare_drain-delivered :
      (l : Link) (draining : Bool) → link_delivered (prepare_drain l draining).2 ≡ link_delivered l
  prepare_drain-delivered l draining =
      prepare_drain-Kept _ (delivers-SendKeeps (link_delivered l)) l draining refl

  pub close-delivered : (l : Link) → link_delivered (close l).1 ≡ link_delivered l
  close-delivered l = close-Kept _ (delivers-SendKeeps (link_delivered l)) l refl

  pub prepare_with-delivered :
      (a : Attempts) (silent : Silent reads a) (l : Link) (plain : a.Left)
      → link_delivered (prepare_with a l plain).1 ≡ link_delivered l
  prepare_with-delivered a silent l plain =
      prepare_with-Kept _ (delivers-SendKeeps (link_delivered l)) a
        (λ conn out p h. seal-delivered reads sends a silent conn out p ∙ h) l plain refl
