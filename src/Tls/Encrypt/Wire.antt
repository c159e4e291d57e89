-- ===== src/Tls/Encrypt/Wire.antt =====
-- Encryption only appends to the ciphertext on its way to the socket.
use tls.Base.{
  ℕ, sym, ap, ◌∙◌, List, ◌++◌, Extends, Extends-refl, Extends-trans, Extends-of_eq, append_assoc,
}
use tls.Outside.{Outside}
use tls.Outside.Laws.{CursorLaws, WriteLaws}
use tls.State
use tls.State.Moved.{drain-Moved}
use tls.Tls.{Connection}
use tls.Tls.Encrypt.{Attempts, seal}
use tls.Tls.Encrypt.Rule.{Keeps, seal-Kept}
use tls.Tls.Encrypt.Accepts.{Queues}

module _ ⦃o : Outside⦄ (writes : WriteLaws) where
  open o use {Cursor, Native, as_slice}
  open writes use {queued}

  -- The ciphertext between rustls and the socket, oldest first.
  abbrev pub wire : Native → Cursor → List ℕ
  wire n out = as_slice out ++ queued n

module _ ⦃o : Outside⦄ (cursors : CursorLaws) (writes : WriteLaws) where
  open o use {Cursor, Native, as_slice}
  open writes use {queued}

  drained-Extends :
      (n : Native) (out : Cursor)
      → Extends (wire writes n out) (wire writes (State.drain n out).1 (State.drain n out).2)
  drained-Extends n out = Extends-of_eq (drain-Moved cursors writes n out).conserved

  module _ (a : Attempts) (queues : Queues a writes) where
    open a use {Left, attempt}

    attempt-Extends :
        (n : Native) (out : Cursor) (plain : Left)
        → Extends (wire writes n out) (wire writes (attempt n plain).1 out)
    attempt-Extends n out plain =
        let (t, e) = queues n plain in
        (t, ap (◌++◌ (as_slice out)) e ∙ sym (append_assoc (as_slice out) (queued n) t))

    wire-Keeps : (base : List ℕ) → Keeps a (λ n out p. Extends base (wire writes n out))
    wire-Keeps base = record {
      on_attempt = λ n out p h. Extends-trans base _ _ h (attempt-Extends n out p);
      on_drain = λ n out p h. Extends-trans base _ _ h (drained-Extends n out);
    }

    pub seal-Extends :
        (conn : Connection) (out : Cursor) (plain : Left)
        → let (_, conn', out', _) = seal a conn out plain in
          Extends (wire writes conn.native out) (wire writes conn'.native out')
    seal-Extends conn out plain =
        seal-Kept a (λ n c p. Extends (wire writes conn.native out) (wire writes n c))
          (wire-Keeps _) conn out plain (Extends-refl _)
