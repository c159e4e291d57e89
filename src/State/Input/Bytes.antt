-- ===== src/State/Input/Bytes.antt =====
-- Writing over a part of a list.
use tls.Base.{
  ℕ, ◌+◌, ◌≤◌, ◌≡◌, sym, ap, List, ◌++◌, length, take, drop, arith, length-append, length-take,
  length-drop, append_assoc, take-length-append, drop-past, drop-drop,
}
use tls.State.Input.{overwrite}

module _ (bytes : List ℕ) (start : ℕ) (src : List ℕ)
    (fits : start + length src ≤ length bytes) where
  length-front : length (take start bytes ++ src) ≡ start + length src
  length-front = omega (arith, length-append (take start bytes) src, length-take start bytes)

  pub length-overwrite : length (overwrite bytes start src) ≡ length bytes
  unfolding overwrite
  length-overwrite = omega (
    arith,
    length-append (take start bytes) (src ++ drop (start + length src) bytes),
    length-append src (drop (start + length src) bytes),
    length-take start bytes,
    length-drop (start + length src) bytes,
  )

  pub take-overwrite :
      take (start + length src) (overwrite bytes start src) ≡ take start bytes ++ src
  unfolding overwrite
  take-overwrite =
      rw (← append_assoc (take start bytes) src (drop (start + length src) bytes))
        (take-length-append _ (take start bytes ++ src) _ (sym length-front))

  pub drop-overwrite :
      (n : ℕ) → start + length src ≤ n → drop n (overwrite bytes start src) ≡ drop n bytes
  unfolding overwrite
  drop-overwrite n h =
      rw
        (
          ← append_assoc (take start bytes) src (drop (start + length src) bytes),
          drop-past n (take start bytes ++ src) (drop (start + length src) bytes)
              (omega (arith, length-front)),
          length-front,
          drop-drop,
        )
        (ap (λ (k : ℕ). drop k bytes) (omega arith))
