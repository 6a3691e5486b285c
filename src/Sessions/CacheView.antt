-- ===== src/Sessions/CacheView.antt =====
-- What the cache of active sessions answers after a start and after a stop.
use text.Mathlib.TextLemmas.{append_cancel_left}
use drive_power.Prelude.{
  String, none, some, ◌≡◌, refl, ap, arith, ◌==◌, ==_iff, string_eq, lookup-insert, lookup-delete,
  if◌then◌else◌,
}
use drive_power.Go.{ok, err, driver, Platform}
use drive_power.Sessions.Model.{Session, Row, Env}
use drive_power.Sessions.Repo.{find_row}
use drive_power.Sessions.Cache.{ActiveSession, Store, key, save, load, remove}
use drive_power.Sessions.Service.{
  Service, StartInput, StopInput, cache_entry, start_session_from_ocpp, stop_session_from_ocpp,
  uncache_stopped,
}
use drive_power.Sessions.Starts.{start_session_ok}
use drive_power.Sessions.Stops.{complete_session-there}

key_injective : (s t : String) → key s ≡ key t → s ≡ t
unfolding key
key_injective s t = append_cancel_left "sessions:active:" s t

load-save :
    (env env' : Env) (a : ActiveSession) (t : String) (c : Store)
    → env.cache_fault ≡ none
    → env'.cache_fault ≡ none
    → load env' t (save env a c).1 ≡ (if a.transaction_id == t then ok a else load env' t c)
unfolding load save
load-save env env' a t c fine fine' = ground (
  arith,
  lookup-insert (key a.transaction_id) (key t) (a, c.ttl) c.client,
  ==_iff (key a.transaction_id) (key t),
  ==_iff a.transaction_id t,
  key_injective a.transaction_id t,
  λ (e : a.transaction_id ≡ t). ap key e,
)

load-remove :
    (env env' : Env) (t k : String) (c : Store)
    → env.cache_fault ≡ none
    → env'.cache_fault ≡ none
    → load env' k (remove env t c).1 ≡ (if t == k then err (driver 0) else load env' k c)
unfolding load remove
load-remove env env' t k c fine fine' = ground (
  arith,
  lookup-delete (key t) (key k) c.client,
  ==_iff (key t) (key k),
  ==_iff t k,
  key_injective t k,
  λ (e : t ≡ k). ap key e,
)

-- With a cache that works: after a start that succeeds the cache answers for its transaction with
-- the id of the session and the user, station and connector of the input, and for every other
-- transaction as before.
pub load-start :
    {R : Type 0} ⦃p : Platform R⦄ (env env' : Env) (input : StartInput) (svc svc' : Service R)
    (s : Session R) (c : Store)
    → svc.store ≡ some c
    → start_session_from_ocpp env input svc ≡ (ok s, svc')
    → env.cache_fault ≡ none
    → env'.cache_fault ≡ none
    → (c' : Store) × (svc'.store ≡ some c')
      × ((t : String)
          → load env' t c' ≡ (
              if input.transaction_id == t
              then ok (record {
                session_id = s.id;
                transaction_id = input.transaction_id;
                station_id = input.station_id;
                connector_id = input.connector_id;
                user_id = input.user_id;
              })
              else load env' t c))
load-start env env' input svc svc' s c cached h fine fine' =
    let stored = (start_session_ok env input svc s svc' h).2 in
    (
      (save env (cache_entry input s.id) c).1,
      rw cached at stored,
      λ t. load-save env env' (cache_entry input s.id) t c fine fine',
    )

-- With a database and a cache that work: after a stop of a transaction that is in the table the
-- cache has no entry for it, and answers for every other transaction as before.
pub load-stop :
    {R : Type 0} (env env' : Env) (input : StopInput R) (svc : Service R) (r : Row R) (c : Store)
    → svc.store ≡ some c
    → find_row input.transaction_id svc.db.rows ≡ some r
    → env.db_fault ≡ none
    → env.affected_fault ≡ none
    → env.cache_fault ≡ none
    → env'.cache_fault ≡ none
    → (c' : Store) × ((stop_session_from_ocpp env input svc).1.store ≡ some c')
      × ((t : String)
          → load env' t c' ≡ (if input.transaction_id == t then err (driver 0) else load env' t c))
unfolding stop_session_from_ocpp uncache_stopped
load-stop env env' input svc r c cached there db_fine counted fine fine' = (
  (remove env input.transaction_id c).1,
  rw (complete_session-there env _ _ _ _ svc.db r db_fine counted there) (rw cached refl),
  λ t. load-remove env env' input.transaction_id t c fine fine',
)
