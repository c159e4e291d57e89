-- ===== src/Examples/Toy.antt =====
-- The operations of the small model, and proofs that it meets the contracts.
use tls.Base.{
  ℕ, zero, suc, ◌-◌, ◌≤◌, ◌≡◌, ◌↔◌, refl, sym, ap, min, Bool, true, false, not, Option, none, some,
  Result, ok, err, List, [], ◌∷◌, ◌++◌, length, take, drop, flatten, is_nil, leb, if◌then◌else◌,
  arith, append-nil, take-append-drop, take-all,
}
use tls.Outside.{Outside}
use tls.Outside.Laws.{CursorLaws, PoolLaws, WriteLaws, PlainLaws, ReserveLaws, ReadLaws}
use tls.Outside.Progress.{Progress, PlanLaws}

pub record ToyCursor : Type 0 where
  pub bytes : List ℕ
  pub room : ℕ

-- `sealed` is queued for the socket, `incoming` has been read and not processed, `plain` waits for
-- the reader, and `accepted` is all plaintext written and `handed` all plaintext consumed.
pub record ToyNative : Type 0 where
  pub sealed : List ℕ
  pub incoming : List ℕ
  pub plain : List ℕ
  pub accepted : List ℕ
  pub handed : List ℕ
  pub shaking : Bool

abbrev pub toy_append : ToyCursor → List ℕ → ℕ × ToyCursor
toy_append s bs = (
  min (length bs) s.room,
  record { bytes = s.bytes ++ take s.room bs; room = s.room - min (length bs) s.room },
)

abbrev pub toy_view : ℕ → Option (ToyCursor × ℕ)
toy_view zero = none
toy_view (suc n) = some (record { bytes = []; room = 8 }, n)

abbrev pub toy_write : ToyNative → List ℕ → Result (Unit {0}) ℕ × ToyNative
toy_write n bs = (ok (length bs), record n { sealed = n.sealed ++ bs; accepted = n.accepted ++ bs })

abbrev toy_check : ℕ → ℕ → Result (Unit {0}) (Unit {0})
toy_check a l = if leb a l then ok tt else err tt

instance abbrev pub toy : Outside
toy = record {
  TlsError = Unit {0};
  IoError = Unit {0};
  AllocError = Unit {0};
  BoundedError = Unit {0};
  ConsumeError = Unit {0};
  is_would_block = λ _. true;
  Cursor = ToyCursor;
  Spare = ToyCursor;
  Pool = ℕ;
  as_slice = λ c. c.bytes;
  is_empty = λ c. is_nil c.bytes;
  spare_len = λ c. c.room;
  consume_max = λ c k. record c { bytes = drop k c.bytes };
  spare = λ c. c;
  remaining = λ s. s.room;
  append = toy_append;
  commit = λ s. s;
  view = toy_view;
  available = λ p. p;
  give_back = λ c p. suc p;
  check = toy_check;
  Reserve = List ℕ;
  Chunk = List ℕ;
  try_append = λ r bs. ok (r ++ bs);
  freeze = λ r. r;
  chunk_slice = λ c. c;
  Native = ToyNative;
  wants_write = λ n. not (is_nil n.sealed);
  is_handshaking = λ n. n.shaking;
  send_close_notify = λ n. record n { sealed = n.sealed ++ 0 ∷ [] };
  write_tls = λ wv n s.
      let (k, s') = wv s (n.sealed ∷ []) in (ok k, record n { sealed = drop k n.sealed }, s');
  write = toy_write;
  write_vectored = λ n bs. toy_write n (flatten bs);
  read_tls = λ n bs. (ok (length bs), record n { incoming = n.incoming ++ bs });
  process_new_packets = λ n. (ok false, record n { incoming = []; plain = n.plain ++ n.incoming });
  fill_buf = λ n. (ok n.plain, n);
  consume = λ n k. record n { plain = drop k n.plain; handed = n.handed ++ take k n.plain };
}

pub is_nil_iff : (xs : List ℕ) → (is_nil xs ≡ true → xs ≡ []) × (xs ≡ [] → is_nil xs ≡ true)
is_nil_iff xs = ground arith

abbrev pub toy_cursors : CursorLaws
toy_cursors = record {
  is_empty_iff = λ c. is_nil_iff c.bytes;
  as_slice-consume_max = λ c k. refl;
  as_slice-spare = λ c. refl;
  remaining-spare = λ c. refl;
  spare_len-commit = λ s. refl;
  append-count = λ s bs. refl;
  append-remaining = λ s bs. omega arith;
  append-bytes = λ s bs. refl;
}

pub toy_view-empty :
    (p : ℕ) {q : ℕ} {c : ToyCursor} → toy_view p ≡ some (c, q) → (c.bytes ≡ []) × (p ≡ suc q)
toy_view-empty zero e = cc
toy_view-empty (suc n) e = ground arith

pub toy_view-none : (p : ℕ) → toy_view p ≡ none → p ≡ 0
toy_view-none zero e = refl
toy_view-none (suc n) e = cc

abbrev pub toy_pools : PoolLaws
toy_pools = record {
  view-empty = λ {p} e. (toy_view-empty p e).0;
  view-available = λ {p} e. (toy_view-empty p e).1;
  view-none = λ {p} e. toy_view-none p e;
  give_back-available = λ c p. refl;
}

pub never_err :
    {A B : Type 0} {a : A} {e : Unit {0}} → ◌≡◌ {A = Result (Unit {0}) A} (ok a) (err e) → B
never_err e = cc

pub toy_wants :
    (n : ToyNative)
    → (not (is_nil n.sealed) ≡ false → n.sealed ≡ [])
      × (n.sealed ≡ [] → not (is_nil n.sealed) ≡ false)
toy_wants n = ground arith

pub toy_write_tls :
    (wv : ToyCursor → List (List ℕ) → ℕ × ToyCursor) (n : ToyNative) (s : ToyCursor) {k : ℕ}
    → ◌≡◌ {A = Result (Unit {0}) ℕ} (ok (wv s (n.sealed ∷ [])).0) (ok k)
    → ((wv s (n.sealed ∷ [])).0 ≡ k)
      × ((wv s (n.sealed ∷ [])).1 ≡ (wv s (n.sealed ∷ [])).1)
      × (n.sealed ≡ take k (n.sealed ++ []) ++ drop (wv s (n.sealed ∷ [])).0 n.sealed)
toy_write_tls wv n s {k} e =
    let same : (wv s (n.sealed ∷ [])).0 ≡ k = cc in
    (same, refl, rw (same, append-nil) (sym (take-append-drop k n.sealed)))

pub toy_written :
    (n : ToyNative) (bs : List ℕ) {k : ℕ}
    → ◌≡◌ {A = Result (Unit {0}) ℕ} (ok (length bs)) (ok k)
    → (k ≤ length bs) × (n.accepted ++ bs ≡ n.accepted ++ take k bs)
toy_written n bs {k} e =
    let same : length bs ≡ k = cc in
    (omega arith, ap (◌++◌ n.accepted) (sym (take-all k bs (omega arith))))

abbrev pub toy_writes : WriteLaws
toy_writes = record {
  queued = λ n. n.sealed;
  offer = λ n. n.sealed ∷ [];
  wants_write_iff = toy_wants;
  write_tls-ok = λ wv n s e. toy_write_tls wv n s e;
  write_tls-err = λ wv n s e. never_err e;
  write-queued = λ n bs. (bs, refl);
  write_vectored-queued = λ n bs. (flatten bs, refl);
  send_close_notify-queued = λ n. (0 ∷ [], refl);
}

abbrev pub toy_plains : PlainLaws
toy_plains = record {
  accepted = λ n. n.accepted;
  write-ok = λ n bs e. toy_written n bs e;
  write-err = λ n bs e. never_err e;
  write_vectored-ok = λ n bs e. toy_written n (flatten bs) e;
  write_vectored-err = λ n bs e. never_err e;
  write_tls-accepted = λ wv n s. refl;
}

pub record ToyPart : Type 0 where
  pub taken : List ℕ
  pub behind : List ℕ

instance abbrev pub toy_progress : Progress
toy_progress = record {
  Plain = List ℕ;
  Part = ToyPart;
  rest = λ p. p;
  is_empty = λ p. is_nil p;
  take_part = λ p k. record { taken = take k p; behind = drop k p };
  part_slice = λ q. q.taken;
  amount = λ q. length q.taken;
  commit_part = λ q. q.behind;
  give_up = λ q. q.taken ++ q.behind;
  prefix = λ n k. min n k;
}

abbrev pub toy_plans : PlanLaws
toy_plans = record {
  is_empty_iff = is_nil_iff;
  part_slice-take = λ p k. refl;
  amount-take = λ p k. refl;
  rest-commit = λ p k. refl;
  rest-give_up = λ p k. take-append-drop k p;
  prefix-le = λ n k h. omega arith;
}

pub toy_check_iff : (a l : ℕ) → (toy_check a l ≡ ok tt) ↔ (a ≤ l)
toy_check_iff a l = ground arith

pub toy_appended :
    (r bs : List ℕ) {r' : List ℕ}
    → ◌≡◌ {A = Result (Unit {0}) (List ℕ)} (ok (r ++ bs)) (ok r')
    → r' ≡ r ++ bs
toy_appended r bs e = cc

pub toy_counted :
    (bs : List ℕ) {k : ℕ} → ◌≡◌ {A = Result (Unit {0}) ℕ} (ok (length bs)) (ok k) → k ≤ length bs
toy_counted bs {k} e = let same : length bs ≡ k = cc in omega arith

pub toy_consumed :
    (n : ToyNative) {p : List ℕ}
    → ◌≡◌ {A = Result (Unit {0}) (List ℕ)} (ok n.plain) (ok p)
    → n.handed ++ take (length p) n.plain ≡ n.handed ++ p
toy_consumed n {p} e =
    let same : n.plain ≡ p = cc in
    ap (◌++◌ n.handed) (rw same (take-all (length p) p (omega arith)))

abbrev pub toy_reserves : ReserveLaws
toy_reserves = record { check_iff = toy_check_iff; try_append-ok = λ r bs e. toy_appended r bs e }

abbrev pub toy_reads : ReadLaws
toy_reads = record {
  delivered = λ n. n.handed;
  read_tls-count = λ n bs e. toy_counted bs e;
  read_tls-delivered = λ n bs. refl;
  process-delivered = λ n. refl;
  write-delivered = λ n bs. refl;
  fill_buf-delivered = λ n. refl;
  consume-delivered = λ n e. toy_consumed n e;
}
