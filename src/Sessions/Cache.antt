-- ===== src/Sessions/Cache.antt =====
-- backend/services/sessions-service/internal/redis/active_sessions_store.go. Redis holds the JSON
-- text of an entry; the texts are read back as they were written, so the model holds the entries.
use Prim.Native.String.{◌++◌}
use drive_power.Prelude.{ℕ, ℤ, String, none, some, Assoc, lookup, insert, delete, string_eq}
use drive_power.Go.{Result, ok, err, driver}
use drive_power.Sessions.Model.{Env}

pub record ActiveSession : Type 0 where
  pub session_id : ℤ
  pub transaction_id : String
  pub station_id : String
  pub connector_id : ℤ
  pub user_id : ℤ

-- The keys of Redis with their values and times to live; a duration is in nanoseconds.
pub record Store : Type 0 where
  pub client : Assoc String (ActiveSession × ℕ)
  pub ttl : ℕ

unfoldable pub key : String → String
key transaction_id = "sessions:active:" ++ transaction_id

unfoldable pub save : Env → ActiveSession → Store → Result (Unit {0}) × Store
save env a s = elim env.cache_fault [
  | some e ↦ (err e, s)
  | none ↦ (ok tt, record s { client = insert (key a.transaction_id) (a, s.ttl) s.client })
]

-- The error of a missing key is redis.Nil, here `driver 0`.
unfoldable pub load : Env → String → Store → Result ActiveSession
load env t s = elim env.cache_fault [
  | some e ↦ err e
  | none ↦ elim (lookup (key t) s.client) [ none ↦ err (driver 0) | some (a, d) ↦ ok a ]
]

unfoldable pub remove : Env → String → Store → Result (Unit {0}) × Store
remove env t s = elim env.cache_fault [
  | some e ↦ (err e, s)
  | none ↦ (ok tt, record s { client = delete (key t) s.client })
]

-- Redis drops an entry whose time to live has passed.
unfoldable pub expire : String → Store → Store
expire k s = record s { client = delete k s.client }
