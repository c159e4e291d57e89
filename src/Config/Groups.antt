-- ===== src/Config/Groups.antt =====
-- The order of the key-exchange groups.
use tls.Base.{
  ◌≡◌, refl, ap, ◌∙◌, inl, inr, Bool-cases, Bool, true, false, not, Result, ok, err, List, [], ◌∷◌,
  ◌++◌,
}
use tls.Outside.{Outside}
use tls.Error.{Error, tls_error}
use tls.Config.{Crypto, retain, insert_by, sort_by_key, tls13, client_tls13, server_tls13}

module _ {ℓ} {A : Type ℓ} (key : A → Bool) where
  -- The elements whose key is false, then the others, each in their order.
  abbrev pub split_by : List A → List A
  split_by xs = retain (λ x. not (key x)) xs ++ retain key xs

  insert-front : (x : A) (xs : List A) → key x ≡ false → insert_by key x xs ≡ x ∷ xs
  unfolding insert_by
  insert-front x [] e = refl
  insert-front x (y ∷ ys) e = rw (e, insert_by) refl

  insert-skip :
      (x : A) (xs ts : List A)
      → key x ≡ true
      → insert_by key x (retain (λ y. not (key y)) xs ++ ts)
        ≡ retain (λ y. not (key y)) xs ++ insert_by key x ts
  unfolding insert_by retain
  insert-skip x [] ts e = refl
  insert-skip x (y ∷ xs) ts e = elim (Bool-cases (key y)) [
    | inl f ↦ rw (f, retain) (insert-skip x xs ts e)
    | inr f ↦ rw (f, retain, e, f, insert_by) (ap (◌∷◌ y) (insert-skip x xs ts e))
  ]

  insert-stop :
      (x : A) (ys : List A) → key x ≡ true → insert_by key x (retain key ys) ≡ x ∷ retain key ys
  unfolding insert_by retain
  insert-stop x [] e = refl
  insert-stop x (y ∷ ys) e = elim (Bool-cases (key y)) [
    | inl f ↦ rw (f, retain, e, f, insert_by) refl
    | inr f ↦ rw (f, retain) (insert-stop x ys e)
  ]

  -- Sorting by a Boolean key is a stable partition.
  pub sort_by_key-split : (xs : List A) → sort_by_key key xs ≡ split_by xs
  unfolding sort_by_key retain
  sort_by_key-split [] = refl
  sort_by_key-split (x ∷ xs) = elim (Bool-cases (key x)) [
    | inl e ↦
        ap (insert_by key x) (sort_by_key-split xs)
        ∙ insert-skip x xs (retain key xs) e
        ∙ rw (insert-stop x xs e, e, retain) refl
    | inr e ↦
        insert-front x (sort_by_key key xs) e
        ∙ ap (◌∷◌ x) (sort_by_key-split xs)
        ∙ rw (e, retain) refl
  ]

module _ ⦃o : Outside⦄ ⦃c : Crypto⦄ where
  -- What a builder of rustls comes to, as a result of this library.
  abbrev pub started : Result o.TlsError c.Builder → Result Error c.Builder
  started (ok builder) = ok builder
  started (err cause) = err (tls_error cause)

  -- Both sides start from the suites of TLS 1.3 alone, in their order, and from the groups with the
  -- hybrid one last and the others in their order, whatever the defaults of the cryptography; a
  -- refusal of the builder is returned as a TLS error.
  pub tls13-offers :
      let suites = retain c.is_tls13 c.default_suites in
      let groups = split_by c.is_hybrid c.default_groups in
      (client_tls13 ≡ started (c.client_builder suites groups))
      × (server_tls13 ≡ started (c.server_builder suites groups))
  unfolding tls13 client_tls13 server_tls13
  tls13-offers =
      let suites = retain c.is_tls13 c.default_suites in
      let same = sort_by_key-split c.is_hybrid c.default_groups in
      (
        ap (λ groups. finish (c.client_builder suites groups)) same
            ∙ finish-started (c.client_builder suites (split_by c.is_hybrid c.default_groups)),
        ap (λ groups. finish (c.server_builder suites groups)) same
            ∙ finish-started (c.server_builder suites (split_by c.is_hybrid c.default_groups)),
      )
    where
      finish : Result o.TlsError c.Builder → Result Error c.Builder
      finish r = elim r [ ok builder ↦ ok builder | err cause ↦ err (tls_error cause) ]

      finish-started : (r : Result o.TlsError c.Builder) → finish r ≡ started r
      finish-started (ok b) = refl
      finish-started (err e) = refl
