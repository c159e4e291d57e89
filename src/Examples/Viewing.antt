-- ===== src/Examples/Viewing.antt =====
-- Views of a retained stream in the small model, in which a view is its bytes.
use tls.Base.{
  ℕ, ◌-◌, ◌≡◌, refl, true, false, ◌&&◌, some, Result, ok, err, List, [], ◌∷◌, length, take, drop,
  leb, arith, ◌++◌, ◌||◌, is_ok, Option,
}
use tls.Examples.Toy.{ToyNative, toy, toy_reserves, toy_reads}
use tls.Examples.ToyChunks.{toy_chunks, toy_chunk_laws, toy_consume_max}
use tls.State.Source.Window.{unread}
use tls.Tls.Receive.Stream.{Retained, non_empty}
use tls.Tls.{Connection}
use tls.State.Staged.{Release}
use tls.Error.{Error}
use tls.Tls.Receive.{retain}
use tls.Tls.Receive.Stream.Contents.{contents, Whole}
use tls.Tls.Receive.Stream.View.{Views, stream_len}
use tls.Tls.Receive.Stream.Shown.{ViewLaws, Shows, next-Shows}
use tls.Tls.Receive.Stream.Raw.{RawLaws}
use tls.Tls.Receive.Stream.Queue.{Call, at_most, exactly, admitted, Pulls, run, run-Pulls}
use tls.Tls.Receive.Stream.Emptied.{Asking, run-empties}
use tls.Tls.Receive.Emptied.{Reads, retain-Reads}

abbrev get_range : List ℕ → ℕ → ℕ → Result (Unit {0}) (List ℕ)
get_range bytes start end = elim (leb start end && leb end (length bytes)) [
  | true ↦ ok (take (end - start) (drop start bytes))
  | false ↦ err tt
]

abbrev split_at : List ℕ → ℕ → Result (Unit {0}) (List ℕ × List ℕ)
split_at bytes n = elim (leb n (length bytes)) [
  | true ↦ ok (take n bytes, drop n bytes)
  | false ↦ err tt
]

instance abbrev small_views : Views
small_views = record {
  ChunkView = List ℕ;
  chunk_view = λ c. c;
  head_view = λ h. h.behind;
  view_bytes = λ b. b;
  RangeError = Unit {0};
  slice_try_get = get_range;
  chunk_try_get = get_range;
  plain_try_get = get_range;
  slice_try_split = split_at;
  chunk_try_split = split_at;
  plain_try_split = split_at;
  chunk_consume_raw = λ h n. (toy_consume_max h n).1;
}

got :
    (p q : List ℕ) (start end : ℕ)
    → get_range p start end ≡ ok q
    → q ≡ take (end - start) (drop start p)
got p q start end e = ground arith

small_view_laws : ViewLaws
small_view_laws = record {
  view_bytes-chunk_view = λ c. refl;
  view_bytes-head_view = λ h. refl;
  chunk_try_get-range = got;
  plain_try_get-range = got;
}

small_raw_laws : RawLaws
small_raw_laws = record { chunk_consume_raw-max = λ c n le. refl }

abbrev stream : Retained
stream = record {
  staged = some (1 ∷ 2 ∷ 5 ∷ []);
  plain = some (record { bytes = 3 ∷ 4 ∷ 9 ∷ []; end = 2; len = 2 });
  remaining = 5;
}

stream-Whole : Whole stream
unfolding unread
stream-Whole = record {
  in_range = record { shrinks = omega arith; fits = omega arith };
  counted = refl;
}

next-Shows_example : Shows stream (1 ∷ 2 ∷ 5 ∷ [])
unfolding non_empty
next-Shows_example = next-Shows toy_chunk_laws small_view_laws stream stream-Whole

abbrev calls : List Call
calls = at_most 7 ∷ exactly 9 ∷ exactly 1 ∷ admitted 4 ∷ []

run-Pulls_example :
    (gone : List ℕ) × (r' : Retained) × (run stream calls ≡ some (gone, r'))
    × Whole r'
    × Pulls (1 ∷ 2 ∷ 5 ∷ 3 ∷ 4 ∷ []) calls gone (contents r')
unfolding unread
run-Pulls_example =
    run-Pulls toy_chunk_laws toy_reserves small_view_laws small_raw_laws stream calls stream-Whole

abbrev asking : List Call
asking = at_most 2 ∷ at_most 7 ∷ admitted 1 ∷ admitted 3 ∷ at_most 1 ∷ []

asking-Asking : Asking asking
asking-Asking = (omega arith, (omega arith, (omega arith, (omega arith, (omega arith, tt)))))

run-empties_example :
    (r' : Retained) × (run stream asking ≡ some (1 ∷ 2 ∷ 5 ∷ 3 ∷ 4 ∷ [], r'))
    × (stream_len r' ≡ 0)
    × (contents r' ≡ [])
unfolding unread
run-empties_example =
    run-empties toy_chunk_laws toy_reserves small_view_laws small_raw_laws stream asking
      stream-Whole asking-Asking (omega arith)

abbrev quiet : ToyNative
quiet = record {
  sealed = [];
  incoming = [];
  plain = [];
  accepted = [];
  handed = [];
  shaking = false;
}

abbrev reader : Connection
reader = record { native = quiet; peer_closed = false; local_closed = true; failed = false }

retain-Reads_example :
    (r : Option Retained × Result Error (Unit {0}) × Release × Connection) × (handed : List ℕ)
    × (retain reader (4 ∷ 5 ∷ 6 ∷ []) [] ≡ some r)
    × (toy_reads.delivered r.3.native ≡ [] ++ handed)
    × Reads asking handed r.0 r.3
    × ((is_ok r.1 || r.3.failed) ≡ true)
retain-Reads_example =
    retain-Reads toy_chunk_laws toy_reserves small_view_laws small_raw_laws toy_reads reader
      (4 ∷ 5 ∷ 6 ∷ []) [] asking refl asking-Asking
