-- ===== src/Outside/Laws.antt =====
-- The documented behaviour of the crates that the theorems rely on. Each record is one contract,
-- and a theorem takes those it needs.
use tls.Base.{
  ℕ, suc, ◌+◌, ◌≤◌, ◌≡◌, ◌↔◌, min, true, false, none, some, ok, err, List, [], ◌++◌, length, take,
  drop, flatten,
}
use tls.Outside.{Outside}

module _ ⦃o : Outside⦄ where
  open o use {
    IoError, Cursor, Spare, Pool, Native, as_slice, is_empty, spare_len, consume_max, spare,
    remaining, append, commit, view, available, give_back, wants_write, is_handshaking, write_tls,
    write, write_vectored, send_close_notify, check, Reserve, try_append, freeze, chunk_slice,
    read_tls, process_new_packets, fill_buf, consume,
  }

  -- A cursor holds unsent bytes, in order, and has room for more: `append` takes what fits.
  pub record CursorLaws : Type 0 where
    pub is_empty_iff : (c : Cursor) → (is_empty c ≡ true) ↔ (as_slice c ≡ [])
    pub as_slice-consume_max :
        (c : Cursor) (k : ℕ) → as_slice (consume_max c k) ≡ drop k (as_slice c)
    pub as_slice-spare : (c : Cursor) → as_slice (commit (spare c)) ≡ as_slice c
    pub remaining-spare : (c : Cursor) → remaining (spare c) ≡ spare_len c
    pub spare_len-commit : (s : Spare) → spare_len (commit s) ≡ remaining s
    pub append-count : (s : Spare) (bs : List ℕ) → (append s bs).0 ≡ min (length bs) (remaining s)
    pub append-remaining :
        (s : Spare) (bs : List ℕ) → remaining (append s bs).1 + (append s bs).0 ≡ remaining s
    pub append-bytes :
        (s : Spare) (bs : List ℕ)
        → as_slice (commit (append s bs).1) ≡ as_slice (commit s) ++ take (remaining s) bs

  -- A pool lends a fixed number of slots, one for each cursor.
  pub record PoolLaws : Type 0 where
    pub view-empty : {p q : Pool} {c : Cursor} → view p ≡ some (c, q) → as_slice c ≡ []
    pub view-available :
        {p q : Pool} {c : Cursor} → view p ≡ some (c, q) → available p ≡ suc (available q)
    pub view-none : {p : Pool} → view p ≡ none → available p ≡ 0
    pub give_back-available :
        (c : Cursor) (p : Pool) → available (give_back c p) ≡ suc (available p)

  -- rustls queues encrypted records, `queued`, and offers chunks of them to the writer that
  -- `write_tls` is given, once a call. It drops from the queue what the writer took, and reports
  -- the writer's count. Other calls append to the queue.
  pub record WriteLaws : Type 0 where
    pub queued : Native → List ℕ
    pub offer : Native → List (List ℕ)
    pub wants_write_iff : (n : Native) → (wants_write n ≡ false) ↔ (queued n ≡ [])
    pub write_tls-ok :
        (wv : Spare → List (List ℕ) → ℕ × Spare) (n : Native) (s : Spare) {k : ℕ}
        → (write_tls wv n s).0 ≡ ok k
        → ((wv s (offer n)).0 ≡ k)
          × ((write_tls wv n s).2 ≡ (wv s (offer n)).1)
          × (queued n ≡ take k (flatten (offer n)) ++ queued (write_tls wv n s).1)
    pub write_tls-err :
        (wv : Spare → List (List ℕ) → ℕ × Spare) (n : Native) (s : Spare) {e : IoError}
        → (write_tls wv n s).0 ≡ err e
        → ((write_tls wv n s).2 ≡ s) × (queued (write_tls wv n s).1 ≡ queued n)
    pub write-queued :
        (n : Native) (bs : List ℕ) → (t : List ℕ) × (queued (write n bs).1 ≡ queued n ++ t)
    pub write_vectored-queued :
        (n : Native) (bs : List (List ℕ))
        → (t : List ℕ) × (queued (write_vectored n bs).1 ≡ queued n ++ t)
    pub send_close_notify-queued :
        (n : Native) → (t : List ℕ) × (queued (send_close_notify n) ≡ queued n ++ t)

  -- The writer of rustls accepts a prefix of what it is given, in order, and accepts nothing when
  -- it fails; sending the records accepts no plaintext.
  pub record PlainLaws : Type 0 where
    pub accepted : Native → List ℕ
    pub write-ok :
        (n : Native) (bs : List ℕ) {k : ℕ}
        → (write n bs).0 ≡ ok k
        → (k ≤ length bs) × (accepted (write n bs).1 ≡ accepted n ++ take k bs)
    pub write-err :
        (n : Native) (bs : List ℕ) {e : IoError}
        → (write n bs).0 ≡ err e
        → accepted (write n bs).1 ≡ accepted n
    pub write_vectored-ok :
        (n : Native) (bs : List (List ℕ)) {k : ℕ}
        → (write_vectored n bs).0 ≡ ok k
        → (k ≤ length (flatten bs))
          × (accepted (write_vectored n bs).1 ≡ accepted n ++ take k (flatten bs))
    pub write_vectored-err :
        (n : Native) (bs : List (List ℕ)) {e : IoError}
        → (write_vectored n bs).0 ≡ err e
        → accepted (write_vectored n bs).1 ≡ accepted n
    pub write_tls-accepted :
        (wv : Spare → List (List ℕ) → ℕ × Spare) (n : Native) (s : Spare)
        → accepted (write_tls wv n s).1 ≡ accepted n

  -- Reading, and the close notification, accept no plaintext to send.
  pub record QuietLaws (plains : PlainLaws) : Type 0 where
    pub read_tls-accepted :
        (n : Native) (bs : List ℕ) → plains.accepted (read_tls n bs).1 ≡ plains.accepted n
    pub process-accepted :
        (n : Native) → plains.accepted (process_new_packets n).1 ≡ plains.accepted n
    pub fill_buf-accepted : (n : Native) → plains.accepted (fill_buf n).1 ≡ plains.accepted n
    pub consume-accepted : (n : Native) (k : ℕ) → plains.accepted (consume n k) ≡ plains.accepted n
    pub send_close_notify-accepted :
        (n : Native) → plains.accepted (send_close_notify n) ≡ plains.accepted n

  -- `check` compares; a span keeps what is appended to it, and freezing it changes no byte.
  pub record ReserveLaws : Type 0 where
    pub check_iff : (a l : ℕ) → (check a l ≡ ok tt) ↔ (a ≤ l)
    pub try_append-ok :
        (r : Reserve) (bs : List ℕ) {r' : Reserve}
        → try_append r bs ≡ ok r'
        → chunk_slice (freeze r') ≡ chunk_slice (freeze r) ++ bs

  -- rustls reads at most what it is given. `delivered` is the plaintext that the reader has handed
  -- out and that was consumed: only `consume` adds to it, and adds what `fill_buf` showed.
  pub record ReadLaws : Type 0 where
    pub delivered : Native → List ℕ
    pub read_tls-count :
        (n : Native) (bs : List ℕ) {k : ℕ} → (read_tls n bs).0 ≡ ok k → k ≤ length bs
    pub read_tls-delivered : (n : Native) (bs : List ℕ) → delivered (read_tls n bs).1 ≡ delivered n
    pub process-delivered : (n : Native) → delivered (process_new_packets n).1 ≡ delivered n
    pub write-delivered : (n : Native) (bs : List ℕ) → delivered (write n bs).1 ≡ delivered n
    pub fill_buf-delivered : (n : Native) → delivered (fill_buf n).1 ≡ delivered n
    pub consume-delivered :
        (n : Native) {p : List ℕ}
        → (fill_buf n).0 ≡ ok p
        → delivered (consume (fill_buf n).1 (length p)) ≡ delivered n ++ p

  -- `received` is the ciphertext that rustls has taken: only `read_tls` adds to it, and adds the
  -- front of what it is given, as much as it reports.
  pub record FeedLaws : Type 0 where
    pub received : Native → List ℕ
    pub read_tls-ok :
        (n : Native) (bs : List ℕ) {k : ℕ}
        → (read_tls n bs).0 ≡ ok k
        → received (read_tls n bs).1 ≡ received n ++ take k bs
    pub read_tls-err :
        (n : Native) (bs : List ℕ) {e : IoError}
        → (read_tls n bs).0 ≡ err e
        → received (read_tls n bs).1 ≡ received n
    pub process-received : (n : Native) → received (process_new_packets n).1 ≡ received n
    pub write-received : (n : Native) (bs : List ℕ) → received (write n bs).1 ≡ received n
    pub fill_buf-received : (n : Native) → received (fill_buf n).1 ≡ received n
    pub consume-received : (n : Native) (k : ℕ) → received (consume n k) ≡ received n
