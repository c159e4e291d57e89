-- ===== src/Error.antt =====
-- src/error.rs: the errors of a TLS stream. The payloads belong to other crates.
use tls.Outside.{Outside}

-- net::BufferKind.
pub data BufferKind : Type 0 where
  receive send : BufferKind

module _ ⦃o : Outside⦄ where
  pub data Error : Type 0 where
    tls_error : o.TlsError → Error
    io : o.IoError → Error
    allocation : o.AllocError → Error
    staged : o.BoundedError → Error
    retained : o.BoundedError → Error
    buffer_unavailable : Error
    invalid_buffer_progress : Error
    consume : BufferKind → o.ConsumeError → Error

  -- From, which `?` converts an error with.
  abbrev pub from_tls : o.TlsError → Error
  from_tls error = tls_error error

  abbrev pub from_io : o.IoError → Error
  from_io error = io error

  abbrev pub from_alloc : o.AllocError → Error
  from_alloc error = allocation error
