-- ===== src/Examples/Binding.antt =====
-- Roles, openings and bindings at concrete inputs.
use tls.Base.{
  ℕ, suc, ◌≡◌, refl, Bool, true, false, none, Result, ok, err, List, [], ◌∷◌, arith, ◌≤◌, leb,
}
use tls.Examples.Toy.{ToyNative, toy}
use tls.Examples.ToyWorker.{
  greeting, ToyFifo, ToyGrowing, toy_is_empty, toy_take, toy_slots, toy_lanes, toy_roles,
  toy_session_laws, toy_layouts,
}
use tls.Tls.{Connection, SendState}
use tls.Tls.Waiters.{Resource, recv, handshake_egress}
use tls.Tls.Roles.{Handshakes, ClientPlan, client_role}
use tls.Tls.Roles.Laws.{client_role-RoleLaws}
use tls.Tls.Endpoint.Layout.{Limits, new_plan, with_staged, with_send, with_growth}
use tls.Tls.Endpoint.Open.{Roles, Disposition, consumed, Runtime, open_connection}
use tls.Tls.Endpoint.Open.Unavailable.{unavailable, open_connection-unavailable}
use tls.Tls.Endpoint.Bootstrap.{PoolMaking, Meanwhile, Config, Sessions, bind, try_runtime}
use tls.Tls.Endpoint.Bootstrap.Made.{MakingLaws}
use tls.Tls.Endpoint.Bootstrap.Binding.{Binds, try_runtime-Binds}

abbrev toy_clone :
    List (List ℕ) → (List ℕ → Result (Unit {0}) (List ℕ)) → Result (Unit {0}) (List (List ℕ))
toy_clone [] f = ok []
toy_clone (x ∷ xs) f =
    let rest = toy_clone xs f in
    elim (f x) [
      | err cause ↦ err cause
      | ok y ↦ elim rest [ err cause ↦ err cause | ok ys ↦ ok (y ∷ ys) ]
    ]

-- A client's connection keeps the protocols that it offers as its first bytes.
instance abbrev toy_handshakes : Handshakes
toy_handshakes = record {
  ServerConfig = Bool;
  ServerConnection = ToyNative;
  new_server = λ c. ok (record greeting { sealed = [] });
  reject_early_data = λ n. n;
  of_server = λ n. n;
  ClientConfig = List (List ℕ);
  ServerName = ℕ;
  alpn_protocols = λ c. c;
  new_with_alpn = λ c name protocols. ok (record greeting { sealed = name ∷ [] });
  try_copy = λ bytes. ok bytes;
  try_clone = toy_clone;
  SessionStore = ℕ;
  take_session = toy_take;
  return_session = λ n. suc n;
}

abbrev target : ClientPlan
target = record { config = (104 ∷ 50 ∷ []) ∷ (104 ∷ 51 ∷ []) ∷ []; name = 7 }

abbrev opener : Roles
opener = client_role

abbrev accept : Connection → SendState → Disposition (Unit {0})
accept conn store = consumed tt

abbrev idle : Runtime ⦃r = opener⦄
idle = record { pending = none; sessions = 1; pool = 0; role = target }

open_connection-unavailable_example :
    unavailable (open_connection ⦃r = opener⦄ accept idle).0 ≡ true
open_connection-unavailable_example =
    open_connection-unavailable ⦃r = opener⦄ client_role-RoleLaws accept idle

abbrev toy_warm : ℕ → ℕ → Result (Unit {0}) ToyGrowing
toy_warm lay warm = elim (leb warm lay) [
  | true ↦ ok (record { free = lay; limit = lay; allocated = warm })
  | false ↦ err tt
]

toy_warmed :
    (lay warm : ℕ) {pool : ToyGrowing}
    → toy_warm lay warm ≡ ok pool
    → (pool.allocated ≡ warm) × (pool.limit ≡ lay) × (warm ≤ lay)
toy_warmed lay warm e = ground (arith, e)

instance abbrev toy_making : PoolMaking ⦃r = toy_roles⦄
toy_making = record {
  CapacityError = Unit {0};
  Exhausted = Unit {0};
  PoolError = Unit {0};
  QueueError = Unit {0};
  count_from = λ n. ok n;
  new_sessions = λ n. ok n;
  try_warm = toy_warm;
  recv_from = λ lay. ok lay;
  send_from = λ lay. ok lay;
  new_fifo = λ n. ok (record { receiving = []; sending = [] });
}

toy_empty :
    (made : Result (Unit {0}) ToyFifo) (fifo : ToyFifo)
    → made ≡ ok (record { receiving = []; sending = [] })
    → made ≡ ok fifo
    → (kind : Resource) → toy_is_empty kind fifo ≡ true
toy_empty made fifo m e recv = ground arith
toy_empty made fifo m e handshake_egress = ground arith

toy_making_laws : MakingLaws toy_session_laws
toy_making_laws = record {
  new_layout-slots = λ {n} {size} {lay} e. ground arith;
  new_sessions-free = λ {n} {t} e. ground arith;
  send_from-available = λ {lay} {pool} e. ground arith;
  recv_from-available = λ {lay} {pool} e. ground arith;
  allocated = λ pool. pool.allocated;
  limit = λ pool. pool.limit;
  try_warm-allocated = λ {lay} {warm} e. toy_warmed lay warm e;
  new_fifo-is_empty = λ {n} {fifo} e kind. toy_empty _ fifo refl e kind;
}

abbrev limits : Limits
limits = record { connections = 3; resident = 100 }

abbrev small_config : Config
small_config = record { role = true; plan = with_growth (with_staged (with_send new_plan 2) 4) 3 }

abbrev empty_store : Sessions
empty_store = record { capacity = 3; buffers = none }

-- Nobody else binds the store.
abbrev alone : Meanwhile
alone making cell = cell

try_runtime-Binds_example :
    Binds toy_session_laws toy_making_laws alone limits small_config empty_store
      (try_runtime alone limits (bind small_config empty_store))
try_runtime-Binds_example =
    try_runtime-Binds toy_session_laws toy_making_laws alone limits small_config empty_store
