-- ===== src/Config/Raw/Bytes.antt =====
-- src/config/raw.rs: comparing byte strings, the SPKI encoding and the overwritten buffer.
use tls.Base.{ℕ, ◌≡◌, ◌↔◌, refl, sym, ap, subst, true, some, List, [], ◌∷◌, ◌++◌, length, arith}
use tls.Config.Raw.{spki_prefix, same_bytes, strip_prefix, decode_spki, wipe}

pub same_bytes_sound : (xs ys : List ℕ) → same_bytes xs ys ≡ true → xs ≡ ys
unfolding same_bytes
same_bytes_sound [] [] e = refl
same_bytes_sound [] (y ∷ ys) e = ground arith
same_bytes_sound (x ∷ xs) [] e = ground arith
same_bytes_sound (x ∷ xs) (y ∷ ys) e = ground (arith, same_bytes_sound xs ys)

pub same_bytes_self : (xs : List ℕ) → same_bytes xs xs ≡ true
unfolding same_bytes
same_bytes_self [] = refl
same_bytes_self (x ∷ xs) = ground (arith, same_bytes_self xs)

pub strip_prefix-append : (ps xs : List ℕ) → strip_prefix (ps ++ xs) ps ≡ some xs
unfolding strip_prefix
strip_prefix-append [] [] = refl
strip_prefix-append [] (x ∷ xs) = refl
strip_prefix-append (p ∷ ps) xs = ground (arith, strip_prefix-append ps xs)

pub strip_prefix_sound : (xs ps out : List ℕ) → strip_prefix xs ps ≡ some out → xs ≡ ps ++ out
unfolding strip_prefix
strip_prefix_sound [] [] out e = ground arith
strip_prefix_sound (x ∷ xs) [] out e = ground arith
strip_prefix_sound [] (p ∷ ps) out e = ground arith
strip_prefix_sound (x ∷ xs) (p ∷ ps) out e = ground (arith, strip_prefix_sound xs ps out)

-- A certificate is read as a public key exactly when it is the prefix and that key, of 32 bytes.
pub decode_spki_iff :
    (der public : List ℕ)
    → (decode_spki der ≡ some public) ↔ ((der ≡ spki_prefix ++ public) × (length public ≡ 32))
unfolding decode_spki
decode_spki_iff der public = (
  λ e. ground (arith, strip_prefix_sound der spki_prefix public),
  λ (e, n).
      subst (λ d. decode_spki d ≡ some public) (sym e)
        (ground (arith, strip_prefix-append spki_prefix public)),
)

pub decode_spki-length : (der public : List ℕ) → decode_spki der ≡ some public → length public ≡ 32
decode_spki-length der public e = ((decode_spki_iff der public).0 e).1

-- The loop leaves as many bytes as there were, each of them 0.
pub wipe-zeros : (xs ys : List ℕ) → length xs ≡ length ys → wipe xs ≡ wipe ys
unfolding wipe
wipe-zeros [] [] e = refl
wipe-zeros [] (y ∷ ys) e = absurd (omega arith)
wipe-zeros (x ∷ xs) [] e = absurd (omega arith)
wipe-zeros (x ∷ xs) (y ∷ ys) e = ap (◌∷◌ 0) (wipe-zeros xs ys (omega arith))
