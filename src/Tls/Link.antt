-- ===== src/Tls/Link.antt =====
-- What an operation of the send path works on and reports. A Link is a connection with its send
-- buffer and the worker's pool; the other types name what the source asks of the runtime.
use tls.Base.{Bool, false, some}
use tls.Outside.{Outside}
use tls.Error.{Error}
use tls.Tls.{Availability, unchanged, Connection, SendState, drop_empty}

-- send::Prepared: what the runtime does next, with the flag that close_after sets.
pub data Ready : Type 0 where
  buffered buffer_wait : Ready

pub record Prepared : Type 0 where
  pub ready : Ready
  pub close_after : Bool

-- send::Transition: `new` reports the availability of the buffer, and `unchanged` none.
pub record Transition : Type 0 where
  pub prepared : Prepared
  pub free : Availability

module _ ⦃o : Outside⦄ where
  -- terminal::Processed: a result, one that ends the connection with a failure, or with eof.
  pub data Processed (A : Type 0) : Type 0 where
    output : A → Processed A
    terminal : A → Error → Processed A
    eof : A → Processed A

  -- Processed::map.
  abbrev pub map_processed : {A B : Type 0} → (A → B) → Processed A → Processed B
  map_processed f (output a) = output (f a)
  map_processed f (terminal a cause) = terminal (f a) cause
  map_processed f (eof a) = eof (f a)

  pub record Link : Type 0 where
    pub conn : Connection
    pub store : SendState
    pub pool : o.Pool

abbrev pub wait : Prepared
wait = record { ready = buffer_wait; close_after = false }

abbrev pub idle : Prepared
idle = record { ready = buffered; close_after = false }

-- Connection::finish, over what a plan has consumed.
abbrev pub finish : Bool → Prepared
finish close = record { ready = buffered; close_after = close }

-- Transition::unchanged.
abbrev pub no_release : Prepared → Transition
no_release prepared = record { prepared = prepared; free = unchanged }

module _ ⦃o : Outside⦄ where
  -- The buffer that `try_buffer` lent has been written in place; `drop_empty` follows.
  unfoldable pub put_back : Link → Connection → o.Cursor → Link
  put_back l conn egress =
      let (store, pool) = drop_empty (record { buffer = some egress }) l.pool in
      record { conn = conn; store = store; pool = pool }
