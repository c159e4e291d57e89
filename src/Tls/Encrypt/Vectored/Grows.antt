-- ===== src/Tls/Encrypt/Vectored/Grows.antt =====
-- Encryption of several buffers only adds to the plaintext that rustls has accepted.
use tls.Base.{ℕ, inl, inr, Result-cases, List, Extends, Extends-of_eq}
use tls.Outside.{Outside}
use tls.Outside.Laws.{PlainLaws}
use tls.Outside.Vectored.{Vectored}
use tls.Tls.Encrypt.Grows.{Grows}
use tls.Tls.Encrypt.Vectored.{write_parts, many}

module _ ⦃o : Outside⦄ (plains : PlainLaws) where
  open plains use {accepted}

  write_vectored-Grows :
      (n : o.Native) (bs : List (List ℕ))
      → Extends (accepted n) (accepted (o.write_vectored n bs).1)
  write_vectored-Grows n bs = elim (Result-cases (o.write_vectored n bs).0) [
    | inl (k, e) ↦ (_, (plains.write_vectored-ok n bs e).1)
    | inr (c, e) ↦ Extends-of_eq (plains.write_vectored-err n bs e)
  ]

  pub many-Grows : ⦃v : Vectored⦄ → Grows plains many
  unfolding write_parts
  many-Grows n p = write_vectored-Grows n _
