-- ===== src/Tls/Encrypt/Vectored/Silent.antt =====
-- The vectored rounds leave the plaintext that the reader has delivered as it is.
use tls.Outside.{Outside}
use tls.Outside.Laws.{ReadLaws}
use tls.Outside.Vectored.{Vectored}
use tls.Tls.Encrypt.Silent.{SendLaws, Silent}
use tls.Tls.Encrypt.Vectored.{write_parts, many}

module _ ⦃o : Outside⦄ ⦃v : Vectored⦄ (reads : ReadLaws) (sends : SendLaws reads) where
  pub many-Silent : Silent reads many
  unfolding write_parts
  many-Silent n p = sends.write_vectored-delivered n _
