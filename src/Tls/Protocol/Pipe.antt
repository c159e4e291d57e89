-- ===== src/Tls/Protocol/Pipe.antt =====
-- The send path as a pipe: ciphertext is pushed in at the back, and the socket takes from the front.
use tls.Base.{
  ℕ, ◌≤◌, ◌≡◌, sym, subst, ◌∙◌, min, List, [], ◌∷◌, ◌++◌, length, take, drop, arith, append_assoc,
  append-nil, Extends, Extends-of_eq, take-of-short, drop-of-short, take-min, drop-min,
}
use tls.Outside.{Outside}
use tls.Outside.Laws.{CursorLaws, PoolLaws, WriteLaws}
use tls.Outside.Progress.{Progress}
use tls.Outside.Vectored.{Vectored}
use tls.Tls.{as_slice}
use tls.Tls.Link.{Link}
use tls.Tls.Senders.Wire.{
  link_wire, prepare-Extends, prepare_many-Extends, after_send-wire, settle-wire, flush-wire,
  prepare_drain-wire, close-Extends,
}
use tls.Tls.Protocol.{
  Request, prepares, prepares_many, after, settles, flushes, drains, closes, serve, run,
}

-- `inside` is on its way, and `outside` has left, both oldest first.
pub record Pipe : Type 0 where
  pub inside : List ℕ
  pub outside : List ℕ

pub data Step : Pipe → Pipe → Type 0 where
  push : (p : Pipe) (t : List ℕ) → Step p (record p { inside = p.inside ++ t })
  pull :
      (p : Pipe) (n : ℕ)
      → Step p (record { inside = drop n p.inside; outside = p.outside ++ take n p.inside })

pub data Reach (p : Pipe) : Pipe → Type 0 where
  here : Reach p p
  then : {q r : Pipe} → Reach p q → Step q r → Reach p r

Reach-trans : {p q r : Pipe} → Reach p q → Reach q r → Reach p r
Reach-trans a here = a
Reach-trans a (then b s) = then (Reach-trans a b) s

pushed : (p : Pipe) (ys : List ℕ) → Extends p.inside ys → Reach p (record p { inside = ys })
pushed p ys (t, e) = rw e (then here (push p t))

module _ ⦃o : Outside⦄ ⦃d : Progress⦄ ⦃v : Vectored⦄ where
  -- What the socket takes by a request, and by a history of requests.
  pub taken : Link → Request → List ℕ
  taken l (after sent) = take sent (as_slice l.store)
  taken l (settles sent draining) = take sent (as_slice l.store)
  taken l (prepares plain) = []
  taken l (prepares_many plain) = []
  taken l flushes = []
  taken l (drains draining) = []
  taken l closes = []

  pub socket : Link → List Request → List ℕ
  unfolding taken
  socket l [] = []
  socket l (r ∷ rs) = taken l r ++ socket (serve l r) rs

module _ ⦃o : Outside⦄ ⦃d : Progress⦄ ⦃v : Vectored⦄ (cursors : CursorLaws) (pools : PoolLaws)
    (writes : WriteLaws) where
  abbrev wire_of : Link → List ℕ
  wire_of = link_wire cursors pools writes

  -- The pipe that a link is, once the socket has taken `out`.
  abbrev pub pipe : Link → List ℕ → Pipe
  pipe l out = record { inside = wire_of l; outside = out }

  unmoved :
      (l m : Link) (out : List ℕ)
      → Extends (wire_of l) (wire_of m)
      → Reach (pipe l out) (pipe m (out ++ []))
  unmoved l m out h = rw append-nil (pushed (pipe l out) (wire_of m) h)

  pulled :
      (l m : Link) (out : List ℕ) (sent : ℕ)
      → wire_of m ≡ drop sent (as_slice l.store) ++ writes.queued l.conn.native
      → Reach (pipe l out) (pipe m (out ++ take sent (as_slice l.store)))
  pulled l m out sent e =
      let held = as_slice l.store in
      let n = min (length held) sent in
      let fits : n ≤ length held = omega arith in
      let front : take n (wire_of l) ≡ take sent held =
        take-of-short n held _ fits ∙ take-min sent held in
      let back : drop n (wire_of l) ≡ wire_of m =
        drop-of-short n held _ fits ∙ rw (drop-min sent held) (sym e) in
      subst (λ xs. Reach (pipe l out) (record { inside = wire_of m; outside = out ++ xs })) front
        (subst
          (λ ys. Reach (pipe l out) (record { inside = ys; outside = out ++ take n (wire_of l) }))
          back (then here (pull (pipe l out) n)))

  serve-Reach :
      (l : Link) (r : Request) (out : List ℕ)
      → Reach (pipe l out) (pipe (serve l r) (out ++ taken l r))
  unfolding serve taken
  serve-Reach l (prepares plain) out =
      unmoved l (serve l (prepares plain)) out (prepare-Extends cursors pools writes l plain)
  serve-Reach l (prepares_many plain) out =
      unmoved l (serve l (prepares_many plain)) out
        (prepare_many-Extends cursors pools writes l plain)
  serve-Reach l (after sent) out =
      pulled l (serve l (after sent)) out sent (after_send-wire cursors pools writes l sent)
  serve-Reach l (settles sent draining) out =
      pulled l (serve l (settles sent draining)) out sent
        (settle-wire cursors pools writes l sent draining)
  serve-Reach l flushes out =
      unmoved l (serve l flushes) out (Extends-of_eq (flush-wire cursors pools writes l))
  serve-Reach l (drains draining) out =
      unmoved l (serve l (drains draining)) out
        (Extends-of_eq (prepare_drain-wire cursors pools writes l draining))
  serve-Reach l closes out = unmoved l (serve l closes) out (close-Extends cursors pools writes l)

  -- The send path refines a pipe: whatever the requests and their order, failures included, what
  -- they do to the ciphertext on its way and to what the socket has taken is a run of pushes at the
  -- back and pulls at the front.
  pub run-Reach :
      (l : Link) (rs : List Request) (out : List ℕ)
      → Reach (pipe l out) (pipe (run l rs) (out ++ socket l rs))
  unfolding run socket
  run-Reach l [] out = rw append-nil here
  run-Reach l (r ∷ rs) out =
      rw (← append_assoc out (taken l r) (socket (serve l r) rs))
        (Reach-trans (serve-Reach l r out) (run-Reach (serve l r) rs (out ++ taken l r)))
