-- ===== src/Tls/Senders/Accepted.antt =====
-- The plaintext that a send hands to rustls.
use tls.Base.{
  ℕ, ◌-◌, ◌≡◌, refl, sym, ap, ◌∙◌, List, ◌++◌, length, take, arith, append_assoc,
  append_cancel_left, Extends, Extends-refl, Extends-trans, Extends-of_eq, length-append,
  take-length-append,
}
use tls.Outside.{Outside}
use tls.Outside.Laws.{PlainLaws, QuietLaws}
use tls.State.Moved.{drain-keeps}
use tls.Tls.Link.{Link}
use tls.Tls.Encrypt.{Attempts}
use tls.Tls.Encrypt.Accepts.{Conserves}
use tls.Tls.Encrypt.Grows.{Grows, seal-Grows}
use tls.Tls.Senders.{prepare_with}
use tls.Tls.Senders.Plaintext.{prepare_with-plaintext}
use tls.Tls.Senders.Rule.{SendKeeps, prepare_with-Kept}

-- What a plan has consumed: the bytes in front of what is left.
abbrev pub consumed : List ℕ → List ℕ → List ℕ
consumed before left = take (length before - length left) before

consumed_of :
    (base base' before left : List ℕ)
    → Extends base base'
    → base' ++ left ≡ base ++ before
    → base' ≡ base ++ consumed before left
consumed_of base base' before left (t, e) total =
    let same : t ++ left ≡ before =
      append_cancel_left base _ _
        (sym (append_assoc base t left) ∙ ap (λ b. b ++ left) (sym e) ∙ total) in
    let front : consumed before left ≡ t =
      ap (λ b. consumed b left) (sym same)
      ∙ ap (λ n. take n (t ++ left)) (omega (arith, length-append t left))
      ∙ take-length-append (length t) t left refl in
    e ∙ ap (◌++◌ base) (sym front)

module _ ⦃o : Outside⦄ (plains : PlainLaws) (quiet : QuietLaws plains) where
  open plains use {accepted}

  -- The rule for connections whose rustls has accepted `bytes`.
  pub accepts-SendKeeps : (bytes : List ℕ) → SendKeeps (λ conn. accepted conn.native ≡ bytes)
  accepts-SendKeeps bytes = record {
    on_drain = λ conn out h.
        drain-keeps accepted (λ m s. plains.write_tls-accepted _ m s) conn.native out ∙ h;
    on_fail = λ conn h. h;
    on_notify = λ conn h. quiet.send_close_notify-accepted conn.native ∙ h;
  }

  grows-SendKeeps : (bytes : List ℕ) → SendKeeps (λ conn. Extends bytes (accepted conn.native))
  grows-SendKeeps bytes = record {
    on_drain = λ conn out h. Extends-trans _ _ _ h (
        Extends-of_eq
          (drain-keeps accepted (λ m s. plains.write_tls-accepted _ m s) conn.native out));
    on_fail = λ conn h. h;
    on_notify = λ conn h.
        Extends-trans _ _ _ h (Extends-of_eq (quiet.send_close_notify-accepted conn.native));
  }

  -- A send hands over what its plan consumes.
  pub prepare_with-accepts :
      (a : Attempts)
      → Grows plains a
      → Conserves a plains
      → (l : Link) (plain : a.Left)
      → let (_, l', plain') = prepare_with a l plain in
        accepted l'.conn.native ≡ accepted l.conn.native ++ consumed (a.left plain) (a.left plain')
  prepare_with-accepts a grows conserves l plain =
      consumed_of _ _ (a.left plain) _
        (prepare_with-Kept _ (grows-SendKeeps (accepted l.conn.native)) a
          (λ conn out p h. Extends-trans _ _ _ h (seal-Grows plains a grows conn out p)) l plain
          (Extends-refl _))
        (prepare_with-plaintext a plains conserves l plain)
