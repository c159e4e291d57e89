-- ===== src/Examples/ToyVectored.antt =====
-- The plan of the small model over two buffers: a part has what it takes of each as a chunk.
use tls.Base.{
  ℕ, suc, ◌-◌, ◌≡◌, refl, sym, ap, min, Option, none, some, List, [], ◌∷◌, ◌++◌, length, take, drop,
  flatten, is_nil, arith, append-nil, take-append,
}
use tls.Outside.Vectored.{Vectored, VectoredLaws}
use tls.Examples.Toy.{is_nil_iff}

pub record ToyMany : Type 0 where
  pub first : List ℕ
  pub second : List ℕ

pub record ToyParts : Type 0 where
  pub from : List ℕ
  pub seen_bytes : List ℕ
  pub pending : List (List ℕ)

abbrev next_pending : ToyParts → List (List ℕ) → Option (List ℕ × ToyParts)
next_pending q [] = none
next_pending q (c ∷ cs) = some (c, record q { seen_bytes = q.seen_bytes ++ c; pending = cs })

instance abbrev pub toy_vectored : Vectored
toy_vectored = record {
  descriptors = 2;
  Many = ToyMany;
  Parts = ToyParts;
  many_rest = λ p. p.first ++ p.second;
  is_empty = λ p. is_nil (p.first ++ p.second);
  take_parts = λ p k. record {
    from = p.first ++ p.second;
    seen_bytes = [];
    pending = take k p.first ∷ take (k - length p.first) p.second ∷ [];
  };
  amount = λ q. length (flatten q.pending);
  next_chunk = λ q. next_pending q q.pending;
  commit_parts = λ q. record { first = drop (length q.seen_bytes) q.from; second = [] };
  give_up = λ q. record { first = q.from; second = [] };
  prefix = λ n k. min n k;
}

taken_whole :
    (p : ToyMany) (k : ℕ)
    → take k p.first ++ (take (k - length p.first) p.second ++ []) ≡ take k (p.first ++ p.second)
taken_whole p k = rw append-nil (sym (take-append k p.first p.second))

no_pending :
    (q : ToyParts) (cs : List (List ℕ))
    → next_pending q cs ≡ none
    → (flatten cs ≡ []) × (length cs ≡ 0)
no_pending q [] e = (refl, refl)
no_pending q (c ∷ cs) e = cc

some_pending :
    (q : ToyParts) (cs : List (List ℕ)) {c : List ℕ} {q' : ToyParts}
    → next_pending q cs ≡ some (c, q')
    → (q'.from ≡ q.from)
      × (q'.seen_bytes ≡ q.seen_bytes ++ c)
      × (flatten cs ≡ c ++ flatten q'.pending)
      × (length cs ≡ suc (length q'.pending))
some_pending q [] e = cc
some_pending q (c ∷ cs) e = ground arith

pub toy_vectored_laws : VectoredLaws
toy_vectored_laws = record {
  origin = λ q. q.from;
  seen = λ q. q.seen_bytes;
  ahead = λ q. flatten q.pending;
  chunks = λ q. length q.pending;
  is_empty_iff = λ p. is_nil_iff (p.first ++ p.second);
  origin-take = λ p k. refl;
  seen-take = λ p k. refl;
  ahead-take = taken_whole;
  chunks-take = λ p k. omega arith;
  amount-take = λ p k. ap length (taken_whole p k);
  next_chunk-none = λ q e. no_pending q q.pending e;
  next_chunk-some = λ q e. some_pending q q.pending e;
  rest-commit = λ q. append-nil (drop (length q.seen_bytes) q.from);
  rest-give_up = λ q. append-nil q.from;
  prefix-le = λ n k h. omega arith;
}
