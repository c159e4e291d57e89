-- ===== src/Examples/Reading.antt =====
-- The theorems of the receive path at concrete inputs.
use tls.Base.{
  ℕ, ◌≡◌, refl, true, false, ◌||◌, is_ok, Option, some, Result, ok, sym, ap, ◌∙◌, append-nil,
  append_assoc, take, drop, take-all, take-append-drop, length, List, [], ◌∷◌, ◌++◌, arith,
}
use tls.Error.{Error}
use tls.Examples.Toy.{ToyNative, toy, toy_reserves, toy_reads, never_err}
use tls.Examples.ToyChunks.{toy_chunks, toy_chunk_laws}
use tls.Tls.{Connection}
use tls.State.Staged.{Output, Release}
use tls.State.Input.{Plain, owned}
use tls.State.Input.Delivery.{Delivers, owned-Delivers}
use tls.Outside.Laws.{FeedLaws}
use tls.State.Input.Fed.{FedFrom, owned-Feeds}
use tls.State.Source.Window.{unread}
use tls.Tls.Receive.{retain}
use tls.Tls.Receive.Stream.{Retained, non_empty, try_consume, consume_max}
use tls.Tls.Receive.Stream.Contents.{Whole}
use tls.Tls.Receive.Stream.Consume.{Took, consume_max-Took}
use tls.Tls.Receive.Stream.TryConsume.{Tries, try_consume-Tries}
use tls.Tls.Receive.Delivery.{Keeps, retain-delivers}

abbrev quiet : ToyNative
quiet = record {
  sealed = [];
  incoming = [];
  plain = [];
  accepted = [];
  handed = [];
  shaking = false;
}

abbrev reader : Connection
reader = record { native = quiet; peer_closed = false; local_closed = true; failed = false }

owned-Delivers_example :
    (r : Output × Plain × Connection) × (owned reader (4 ∷ 5 ∷ 6 ∷ []) [] ≡ some r)
    × Delivers toy_reads reader (4 ∷ 5 ∷ 6 ∷ []) r
owned-Delivers_example = owned-Delivers toy_reserves toy_reads reader (4 ∷ 5 ∷ 6 ∷ []) [] refl

pub fed_by :
    (n : ToyNative) (bs : List ℕ) {k : ℕ}
    → ◌≡◌ {A = Result (Unit {0}) ℕ} (ok (length bs)) (ok k)
    → n.handed ++ (n.plain ++ (n.incoming ++ bs))
      ≡ (n.handed ++ (n.plain ++ n.incoming)) ++ take k bs
fed_by n bs {k} e =
    let same : length bs ≡ k = cc in
    let whole : take k bs ≡ bs = take-all k bs (omega arith) in rw whole (simp append_assoc)

pub fed_by_consume :
    (n : ToyNative) (k : ℕ)
    → (n.handed ++ take k n.plain) ++ (drop k n.plain ++ n.incoming)
      ≡ n.handed ++ (n.plain ++ n.incoming)
fed_by_consume n k =
    append_assoc n.handed (take k n.plain) (drop k n.plain ++ n.incoming)
    ∙ ap (λ xs. n.handed ++ xs)
        (sym (append_assoc (take k n.plain) (drop k n.plain) n.incoming)
          ∙ ap (λ xs. xs ++ n.incoming) (take-append-drop k n.plain))

abbrev pub small_feeds : FeedLaws
small_feeds = record {
  received = λ n. n.handed ++ (n.plain ++ n.incoming);
  read_tls-ok = λ n bs e. fed_by n bs e;
  read_tls-err = λ n bs e. never_err e;
  process-received = λ n. ap (λ xs. n.handed ++ xs) (append-nil (n.plain ++ n.incoming));
  write-received = λ n bs. refl;
  fill_buf-received = λ n. refl;
  consume-received = fed_by_consume;
}

owned-Feeds_example :
    (r : Output × Plain × Connection) × (owned reader (4 ∷ 5 ∷ 6 ∷ []) [] ≡ some r)
    × FedFrom small_feeds reader (4 ∷ 5 ∷ 6 ∷ []) r
owned-Feeds_example = owned-Feeds toy_reserves toy_reads small_feeds reader (4 ∷ 5 ∷ 6 ∷ []) [] refl

abbrev stream : Retained
stream = record {
  staged = some (1 ∷ 2 ∷ []);
  plain = some (record { bytes = 3 ∷ 4 ∷ 9 ∷ []; end = 2; len = 2 });
  remaining = 4;
}

stream-Whole : Whole stream
unfolding unread
stream-Whole = record {
  in_range = record { shrinks = omega arith; fits = omega arith };
  counted = refl;
}

consume_max-Took_example :
    (r' : Retained) × (consume_max stream 7 ≡ some (2, r')) × Took stream 2 r'
unfolding non_empty
consume_max-Took_example = consume_max-Took toy_chunk_laws stream 7 stream-Whole

retain-delivers_example :
    (r : Option Retained × Result Error (Unit {0}) × Release × Connection) × (handed : List ℕ)
    × (retain reader (4 ∷ 5 ∷ 6 ∷ []) [] ≡ some r)
    × (toy_reads.delivered r.3.native ≡ [] ++ handed)
    × Keeps handed r.0 r.3
    × ((is_ok r.1 || r.3.failed) ≡ true)
retain-delivers_example =
    retain-delivers toy_chunk_laws toy_reserves toy_reads reader (4 ∷ 5 ∷ 6 ∷ []) [] refl

try_consume-Tries_example : Tries stream 2 (try_consume stream 2)
try_consume-Tries_example = try_consume-Tries toy_chunk_laws toy_reserves stream 2 stream-Whole
