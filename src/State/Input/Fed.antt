-- ===== src/State/Input/Fed.antt =====
-- The ciphertext that a read gives to rustls, while it writes plaintext over what is consumed.
use tls.Base.{
  ℕ, zero, suc, ◌+◌, ◌≤◌, ◌<◌, ◌≡◌, ◌⊎◌, append_assoc, false, refl, sym, ap, subst, ◌∙◌, inl, inr,
  Bool-cases, Result-cases, Option-cases, true, not, ◌&&◌, Option, none, some, Result, ok, err, and,
  List, [], ◌++◌, ◌==◌, leb, length, take, drop, take-add, arith, append-nil,
}
use tls.Outside.{Outside}
use tls.Outside.Laws.{ReserveLaws, ReadLaws, FeedLaws}
use tls.Error.{Error}
use tls.State.Staged.{Staged, ready, Output}
use tls.State.Input.{Input, Plain, copy_plain, process, read_loop, publish, owned}
use tls.State.Input.Copying.{CopyKept, copy_loop-Kept}
use tls.State.Input.Ended.{has_ended}
use tls.State.Input.Place.{Inv, start-Inv}
use tls.State.Input.Read.{Copied, copy_plain-Copied, process-delivered, refilled, advance-Inv}
use tls.Tls.{Connection}

module _ ⦃o : Outside⦄ where
  open o use {Native, read_tls}

  -- The last that happened to `native` is that rustls was given `rest` and took nothing of it.
  abbrev pub Declined : List ℕ → Native → Type 0
  Declined rest native =
      (before : Native) × ((read_tls before rest).0 ≡ ok 0) × (native ≡ (read_tls before rest).1)

  -- Why a read that has used `used` bytes of its input stops: all are used, the connection has ended,
  -- or rustls has just been given those left and has taken nothing of them.
  abbrev pub Stops : List ℕ → ℕ → Connection → Type 0
  Stops whole used conn =
      (used ≡ length whole) ⊎ ((has_ended conn ≡ true) ⊎ Declined (drop used whole) conn.native)

module _ ⦃o : Outside⦄ (feeds : FeedLaws) where
  open o use {Native, read_tls}
  open feeds use {received}

  process-received : (conn : Connection) → received (process conn).1.native ≡ received conn.native
  unfolding process
  process-received conn = ground (
    arith,
    feeds.process-received conn.native,
    feeds.write-received (o.process_new_packets conn.native).1 [],
  )

  abbrev Quietly : List ℕ → Native → Type 0
  Quietly bytes n = received n ≡ bytes

  copy_plain-received :
      (n : Native) (input : Input) (s : Staged)
      → CopyKept (Quietly (received n)) (copy_plain n input s)
  unfolding copy_plain
  copy_plain-received n input s =
      copy_loop-Kept (Quietly (received n)) (λ m e. feeds.fill_buf-received m ∙ e)
        (λ m k e. feeds.consume-received m k ∙ e) _ n input s refl

  -- The same, where the read may have failed.
  abbrev pub Stopped : List ℕ → ℕ → Result Error (Unit {0}) → Connection → Type 0
  Stopped whole used (err _) conn = Unit
  Stopped whole used (ok _) conn = Stops whole used conn

module _ ⦃o : Outside⦄ (reserves : ReserveLaws) (reads : ReadLaws) (feeds : FeedLaws)
    (base : List ℕ) (first : List ℕ) (whole : List ℕ) where
  open o use {Native, read_tls}
  open reads use {delivered}
  open feeds use {received}

  abbrev Good : Connection → Input → Staged → Type 0
  Good conn input s =
      Inv reserves reads base whole conn.native input s
      × (received conn.native ≡ first ++ take input.used whole)

  abbrev pub Feeds : Option (Result Error (Unit {0}) × Connection × Input × Staged) → Type 0
  Feeds none = ⊥
  Feeds (some (r, conn, input, s)) =
      (received conn.native ≡ first ++ take input.used whole)
      × (input.used ≤ length whole)
      × Stopped feeds whole input.used r conn

  used_within :
      (conn : Connection) (input : Input) (s : Staged)
      → Inv reserves reads base whole conn.native input s
      → input.used ≤ length whole
  used_within conn input s v = omega (arith, v.within, v.extent)

  all_or_ended :
      (conn : Connection) (input : Input) (s : Staged)
      → Inv reserves reads base whole conn.native input s
      → (not (input.used == length input.bytes) && (not conn.peer_closed && not conn.failed))
        ≡ false
      → Stopped feeds whole input.used (ok tt) conn
  all_or_ended conn input s v stop = elim (Bool-cases (input.used == length input.bytes)) [
    | inl all ↦ inl (ground (arith, all, v.extent))
    | inr some_left ↦ inr (inl (ground (arith, some_left, stop)))
  ]

  fed_more :
      (conn : Connection) (input : Input) (s : Staged) (count : ℕ)
      → Inv reserves reads base whole conn.native input s
      → received conn.native ≡ first ++ take input.used whole
      → (read_tls conn.native (drop input.used input.bytes)).0 ≡ ok count
      → received (read_tls conn.native (drop input.used input.bytes)).1
        ≡ first ++ take (input.used + count) whole
  fed_more conn input s count v fed e =
      feeds.read_tls-ok conn.native (drop input.used input.bytes) e
      ∙ ap (λ bytes. bytes ++ take count (drop input.used input.bytes)) fed
      ∙ append_assoc first (take input.used whole) (take count (drop input.used input.bytes))
      ∙ ap (λ bytes. first ++ (take input.used whole ++ take count bytes)) v.unread
      ∙ ap (λ bytes. first ++ bytes) (sym (take-add input.used count whole))

  declines :
      (conn : Connection) (input : Input) (s : Staged) (count : ℕ)
      → Inv reserves reads base whole conn.native input s
      → (read_tls conn.native (drop input.used input.bytes)).0 ≡ ok count
      → (count == 0) ≡ true
      → Declined
          (drop (input.used + count) whole)
          (read_tls conn.native (drop input.used input.bytes)).1
  declines conn input s count v e nothing =
      let none_taken : count ≡ 0 = ground (arith, nothing) in
      let same : drop (input.used + count) whole ≡ drop input.used input.bytes =
        ap (λ n. drop n whole) (omega (arith, none_taken)) ∙ sym v.unread in
      (
        conn.native,
        ap (λ bytes. (read_tls conn.native bytes).0) same ∙ e ∙ ap ok none_taken,
        ap (λ bytes. (read_tls conn.native bytes).1) (sym same),
      )

  pub read_loop-Feeds :
      (fuel : ℕ) (conn : Connection) (input : Input) (s : Staged)
      → Good conn input s
      → length input.bytes < input.used + fuel
      → Feeds (read_loop fuel conn input s)
  unfolding read_loop
  read_loop-Feeds zero conn input s (v, r) h = absurd (omega (arith, v.within))
  read_loop-Feeds (suc fuel) conn input s (v, fed) h =
      let inside : leb input.used (length input.bytes) ≡ true = ground (arith, v.within) in
      let tail = drop input.used input.bytes in
      let bound = used_within conn input s v in
      elim (Bool-cases
        (not (input.used == length input.bytes) && (not conn.peer_closed && not conn.failed))) [
          | inr stop ↦ rw (stop, read_loop) (fed, bound, all_or_ended conn input s v stop)
          | inl go ↦ elim (Result-cases (read_tls conn.native tail).0) [
            | inr (c, e) ↦
                rw (go, inside, e, read_loop)
                  (feeds.read_tls-err conn.native tail e ∙ fed, bound, tt)
            | inl (count, e) ↦
                let conn' : Connection = record conn { native = (read_tls conn.native tail).1 } in
                let input' : Input = record input { used = input.used + count } in
                let v' =
                  advance-Inv reserves reads base whole conn.native conn'.native input s count v
                    (reads.read_tls-delivered conn.native tail)
                    (reads.read_tls-count conn.native tail e) in
                let fed' : received conn'.native ≡ first ++ take (input.used + count) whole =
                  fed_more conn input s count v fed e in
                let bound' = used_within conn' input' s v' in
                elim (Bool-cases (count == 0)) [
                  | inl nothing ↦
                      rw (go, inside, e, nothing, read_loop)
                        (fed', bound', inr (inr (declines conn input s count v e nothing)))
                  | inr some_bytes ↦
                      let (p, after) = process conn' in
                      let w =
                        refilled reserves reads base whole conn'.native after.native input' s v'
                          (process-delivered reserves reads base whole conn') in
                      let copied =
                        copy_plain-Copied reserves reads base whole after.native input' s w in
                      let kept = copy_plain-received feeds after.native input' s in
                      elim (Option-cases (copy_plain after.native input' s)) [
                        | inl fault ↦
                            absurd (subst (Copied reserves reads base whole input') fault copied)
                        | inr ((c, native, input2, s2), f) ↦
                            let u = subst (Copied reserves reads base whole input') f copied in
                            let same =
                              subst (CopyKept (Quietly feeds (received after.native))) f kept in
                            let next : Connection = record after { native = native } in
                            let fed2 : received native ≡ first ++ take input2.used whole =
                              same
                              ∙ process-received feeds conn'
                              ∙ fed'
                              ∙ ap (λ n. first ++ take n whole) (sym u.1) in
                            elim (Result-cases (and p c)) [
                              | inr (x, g) ↦
                                  rw (go, inside, e, some_bytes, f, g, read_loop)
                                    (fed2, used_within next input2 s2 u.0, tt)
                              | inl (_, g) ↦
                                  rw (go, inside, e, some_bytes, f, g, read_loop)
                                    (read_loop-Feeds fuel next input2 s2 (u.0, fed2)
                                      (ground (arith, v.extent, u.0.extent, u.1, some_bytes, h)))
                            ]
                      ]
                ]
          ]
        ]

module _ ⦃o : Outside⦄ (feeds : FeedLaws) where
  open o use {read_tls}
  open feeds use {received}

  -- What a read has given to rustls: the front of the input, `used` bytes of it.
  pub record FedFrom (conn : Connection) (bytes : List ℕ) (r : Output × Plain × Connection)
      : Type 0 where
    pub used : ℕ
    pub within : used ≤ length bytes
    pub in_order : received r.2.native ≡ received conn.native ++ take used bytes
    pub stops : Stops bytes used r.2

module _ ⦃o : Outside⦄ (reserves : ReserveLaws) (reads : ReadLaws) (feeds : FeedLaws) where
  open o use {Reserve, chunk_slice, freeze, read_tls}
  open feeds use {received}

  publish-FedFrom :
      (conn : Connection) (bytes : List ℕ) (r : Result Error (Unit {0})) (c : Connection)
      (i : Input) (s : Staged)
      → Feeds reserves reads feeds
          (reads.delivered conn.native)
          (received conn.native)
          bytes
          (some (r, c, i, s))
      → FedFrom feeds conn bytes (publish (r, c, i, s))
  unfolding publish
  publish-FedFrom conn bytes (ok x) c i s (fed, bound, why) = record {
    used = i.used;
    within = bound;
    in_order = fed;
    stops = why;
  }
  publish-FedFrom conn bytes (err x) c i s (fed, bound, why) = record {
    used = i.used;
    within = bound;
    in_order = fed;
    stops = inr (inl (ground arith));
  }

  -- Though a read writes plaintext over its input, rustls is given the ciphertext as it came: a
  -- front of the input, in order, each byte once. It is all of the input, unless the connection has
  -- failed, the peer has closed, or the last call of the read gave rustls the rest of the input and
  -- rustls took nothing of it.
  pub owned-Feeds :
      (conn : Connection) (bytes : List ℕ) (recv : Reserve)
      → chunk_slice (freeze recv) ≡ []
      → (r : Output × Plain × Connection) × (owned conn bytes recv ≡ some r)
        × FedFrom feeds conn bytes r
  unfolding owned
  owned-Feeds conn bytes recv fresh =
      let start : Input = record { bytes = bytes; used = 0; len = 0 } in
      let base = reads.delivered conn.native in
      let first = received conn.native in
      let fed =
        read_loop-Feeds reserves reads feeds base first bytes (suc (length bytes)) conn start
          (ready recv) (start-Inv reserves reads conn bytes recv fresh, sym (append-nil first))
          (omega arith) in
      elim (Option-cases (read_loop (suc (length bytes)) conn start (ready recv))) [
        | inl fault ↦ absurd (subst (Feeds reserves reads feeds base first bytes) fault fed)
        | inr ((r, c, i, s), e) ↦ (
          publish (r, c, i, s),
          rw (e, owned) refl,
          publish-FedFrom conn bytes r c i s
              (subst (Feeds reserves reads feeds base first bytes) e fed),
        )
      ]
