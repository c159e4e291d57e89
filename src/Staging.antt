-- ===== src/Staging.antt =====
-- src/staging.rs: the sizes of a record and of a staging buffer, in bytes.
use tls.Base.{ℕ, ◌+◌, ◌*◌, ◌^◌}

abbrev pub max_plaintext : ℕ
max_plaintext = 2 ^ 14

abbrev pub max_tls_record : ℕ
max_tls_record = 5 + max_plaintext + 256

abbrev pub staging_headroom : ℕ
staging_headroom = 8 * 1024

abbrev pub tls_staging_cap : ℕ
tls_staging_cap = max_tls_record + staging_headroom
