-- ===== src/Roots.antt =====
-- src/roots/mod.rs: the bundled trust anchors, copied into a store. The anchors are webpki_roots's.
use tls.Base.{ℕ, Option, none, some, Result, ok, err, List, map, length}

-- TrustAnchor: the DER of three fields.
pub record TrustAnchor : Type 0 where
  pub subject : List ℕ
  pub subject_public_key_info : List ℕ
  pub name_constraints : Option (List ℕ)

pub copy_anchor : TrustAnchor → TrustAnchor
copy_anchor anchor = record {
  subject = anchor.subject;
  subject_public_key_info = anchor.subject_public_key_info;
  name_constraints = elim anchor.name_constraints [ none ↦ none | some bytes ↦ some bytes ];
}

-- Ext::try_webpki. `allocate` says whether there is room for so many anchors.
pub try_webpki {ℓ} : {E : Type ℓ} → List TrustAnchor → (ℕ → Option E) → Result E (List TrustAnchor)
unfolding copy_anchor
try_webpki anchors allocate = elim (allocate (length anchors)) [
  | some cause ↦ err cause
  | none ↦ ok (map copy_anchor anchors)
]
