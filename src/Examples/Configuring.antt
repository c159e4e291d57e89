-- ===== src/Examples/Configuring.antt =====
-- The pinned keys of src/config/raw.rs over a small cryptography, whose key pairs are equal halves.
use tls.Base.{
  ℕ, zero, suc, ◌≡◌, ◌↔◌, refl, Bool, true, false, none, some, Result, ok, List, [], ◌∷◌, ◌++◌,
  length, drop,
}
use tls.Examples.Toy.{toy}
use tls.Config.{Crypto, server_tls13, client_tls13, retain}
use tls.Config.Groups.{started, tls13-offers}
use tls.Config.Raw.{RawKeys, spki_prefix, decode_spki, Identity, from_seed}
use tls.Config.Raw.Pinned.{RawKeysLaws, from_seed-decode_spki}
use tls.Config.Raw.Settings.{
  ServerSettings, ClientSettings, server_auth, mutual_client, server_admits, client_admits,
}
use tls.Config.Raw.Settings.Mutual.{server_auth-mutual}

abbrev repeat : ℕ → ℕ → List ℕ
repeat zero x = []
repeat (suc n) x = x ∷ repeat n x

abbrev small_key : List ℕ → Result (Unit {0}) (List ℕ)
small_key der = ok (drop 16 der)

instance abbrev small_crypto : Crypto
small_crypto = record {
  Suite = Bool;
  Group = Bool;
  is_tls13 = λ s. s;
  is_hybrid = λ g. g;
  default_suites = true ∷ false ∷ [];
  default_groups = true ∷ false ∷ [];
  Builder = Unit {0};
  client_builder = λ suites groups. ok tt;
  server_builder = λ suites groups. ok tt;
}

instance abbrev small_keys : RawKeys
small_keys = record {
  SigningKey = List ℕ;
  any_eddsa_type = small_key;
  public_key = λ key. some (spki_prefix ++ key);
  inconsistent_keys = tt;
  bad_encoding = tt;
  verification_failure = tt;
  tls12_not_offered = tt;
  Scheme = Unit {0};
  ed25519 = tt;
  DistinguishedName = Unit {0};
  Algorithms = Unit {0};
  algorithms = λ builder. tt;
  Signature = Unit {0};
  verify_raw_key = λ message key dss algs. ok tt;
  CertifiedKey = List (List ℕ);
  certified = λ certs key. certs;
  chain = λ certs. certs;
}

small_laws : RawKeysLaws
small_laws = record { chain-certified = λ certs key. refl }

abbrev identity_of : ℕ → Identity
identity_of n = record { key = (spki_prefix ++ repeat 32 n) ∷ []; identity_key = repeat 32 n }

from_seed-identity_of : from_seed (repeat 32 7) none none ≡ ok (identity_of 7)
unfolding decode_spki from_seed
from_seed-identity_of = refl

-- What a configuration of either side is, at the default of the small cryptography.
abbrev settings_of_server : ServerSettings
settings_of_server = record {
  pinned = some (record { spki = spki_prefix ++ repeat 32 9; algs = tt });
  own_key = (identity_of 7).key;
  send_tls13_tickets = 0;
  stores_sessions = false;
  cache_disabled = true;
}

abbrev settings_of_client : ClientSettings
settings_of_client = record {
  server_pin = record { spki = spki_prefix ++ repeat 32 7; algs = tt };
  client_key = some (identity_of 9).key;
  resumes = false;
  cache_disabled = false;
}

from_seed-decode_spki_example :
    (leaf : List ℕ) × ((identity_of 7).key ≡ leaf ∷ [])
    × (decode_spki leaf ≡ some (repeat 32 7))
    × (length (repeat 32 7) ≡ 32)
unfolding decode_spki from_seed
from_seed-decode_spki_example =
    from_seed-decode_spki small_laws (repeat 32 7) none none (identity_of 7) refl

server_auth-mutual_example :
    ((server_admits settings_of_server settings_of_client ≡ true) ↔ (repeat 32 9 ≡ repeat 32 9))
    × ((client_admits settings_of_client settings_of_server ≡ true) ↔ (repeat 32 7 ≡ repeat 32 7))
unfolding decode_spki from_seed server_auth mutual_client server_tls13 client_tls13
server_auth-mutual_example =
    server_auth-mutual small_laws (repeat 32 7) (repeat 32 9) (identity_of 7) (identity_of 9)
      (repeat 32 9) (repeat 32 7) false true settings_of_server settings_of_client refl refl refl
      refl

tls13-offers_example :
    (client_tls13 ≡ started (small_crypto.client_builder (true ∷ []) (false ∷ true ∷ [])))
    × (server_tls13 ≡ started (small_crypto.server_builder (true ∷ []) (false ∷ true ∷ [])))
unfolding retain
tls13-offers_example = tls13-offers
