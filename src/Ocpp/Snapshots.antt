-- ===== src/Ocpp/Snapshots.antt =====
-- A snapshot says the same as the state that it is taken from; the invariant of the state that this needs.
use drive_power.Prelude.{
  ℤ, String, [], ◌∷◌, Option, none, some, ◌≡◌, refl, ap, ◌∙◌, arith, Bool, true, false, sym, subst,
  ◌==◌, ==_iff, string_eq, int_eq, if◌then◌else◌, Assoc, lookup, insert, lookup-insert, IsKeyed,
  insert-IsKeyed,
}
use mathlib.Core.Option
use drive_power.Ocpp.Stations.{
  StationState, StationRuntimeState, or_new, update_station, update_connector, copy_connectors,
  copy_stations, snapshot, status_of_station, status_of_connector, status_in, connector_in,
}

-- What a key has in a copy that began with `copy`.
or_else : {V : Type 0} → Option V → Option V → Option V
or_else none copied = copied
or_else (some v) copied = some v

or_else-if :
    {V : Type 0} (b : Bool) (v : V) (o copied : Option V)
    → (b ≡ true → o ≡ none)
    → or_else o (if b then some v else copied) ≡ or_else (if b then some v else o) copied
unfolding or_else
or_else-if true v o copied fresh = rw (fresh refl) refl
or_else-if false v o copied fresh = refl

lookup-copy_connectors :
    (c : ℤ) (m copy : Assoc ℤ String)
    → IsKeyed m
    → lookup c (copy_connectors m copy) ≡ or_else (lookup c m) (lookup c copy)
unfolding copy_connectors lookup IsKeyed or_else
lookup-copy_connectors c [] copy keyed = refl
lookup-copy_connectors c ((k, v) ∷ m) copy keyed =
    lookup-copy_connectors c m (insert k v copy) keyed.1
    ∙ ap (or_else (lookup c m)) (lookup-insert k c v copy)
    ∙ or_else-if (k == c) v (lookup c m) (lookup c copy)
        (λ e. ap (λ t. lookup t m) (sym ((==_iff k c).0 e)) ∙ keyed.0)

copied_state : StationRuntimeState → StationRuntimeState
copied_state st = record { status = st.status; connectors = copy_connectors st.connectors [] }

map-if :
    {V : Type 0} (f : V → V) (b : Bool) (v : V) (o : Option V)
    → (if b then some (f v) else Option.map f o) ≡ Option.map f (if b then some v else o)
map-if f true v o = refl
map-if f false v o = refl

lookup-copy_stations :
    (j : String) (m copy : StationState)
    → IsKeyed m
    → lookup j (copy_stations m copy)
      ≡ or_else (Option.map copied_state (lookup j m)) (lookup j copy)
unfolding copy_stations lookup IsKeyed or_else copied_state
lookup-copy_stations j [] copy keyed = refl
lookup-copy_stations j ((k, st) ∷ m) copy keyed =
    lookup-copy_stations j m (insert k (copied_state st) copy) keyed.1
    ∙ ap (or_else (Option.map copied_state (lookup j m))) (lookup-insert k j (copied_state st) copy)
    ∙ or_else-if (k == j) (copied_state st) (Option.map copied_state (lookup j m)) (lookup j copy)
        (λ e.
          ap (λ t. Option.map copied_state (lookup t m)) (sym ((==_iff k j).0 e))
          ∙ ap (Option.map copied_state) keyed.0)
    ∙ ap (λ o. or_else o (lookup j copy)) (map-if copied_state (k == j) st (lookup j m))

-- The stations are distinct, and so are the connectors of each.
unfoldable pub IsState : StationState → Type 0
IsState s =
    IsKeyed s
    × ((id : String) (st : StationRuntimeState) → lookup id s ≡ some st → IsKeyed st.connectors)

-- A snapshot of a state with distinct stations and connectors records of every station and of every
-- connector what the state records.
pub snapshot-same :
    (s : StationState)
    → IsState s
    → (id : String)
    → (status_of_station id (snapshot s) ≡ status_of_station id s)
      × ((c : ℤ) → status_of_connector id c (snapshot s) ≡ status_of_connector id c s)
unfolding snapshot IsState lookup or_else copied_state
snapshot-same s (keyed, connectors) id =
    let copied = lookup-copy_stations id s [] keyed in
    (
      ap status_in copied ∙ same_status (lookup id s),
      λ c. ap (connector_in c) copied ∙ same_connector c (lookup id s) (connectors id),
    )
  where
    same_status :
        (o : Option StationRuntimeState)
        → status_in (or_else (Option.map copied_state o) none) ≡ status_in o
    same_status none = refl
    same_status (some st) = refl

    or_else_none : {V : Type 0} (o : Option V) → or_else o none ≡ o
    or_else_none none = refl
    or_else_none (some v) = refl

    same_connector :
        (c : ℤ) (o : Option StationRuntimeState)
        → ((st : StationRuntimeState) → o ≡ some st → IsKeyed st.connectors)
        → connector_in c (or_else (Option.map copied_state o) none) ≡ connector_in c o
    same_connector c none keyed = refl
    same_connector c (some st) keyed =
        lookup-copy_connectors c st.connectors [] (keyed st refl)
        ∙ or_else_none (lookup c st.connectors)

inserted-IsState :
    (id : String) (new : StationRuntimeState) (s : StationState)
    → IsState s
    → IsKeyed new.connectors
    → IsState (insert id new s)
unfolding IsState
inserted-IsState id new s (keyed, connectors) new_keyed = (
  insert-IsKeyed id new s keyed,
  λ j st found.
      subst (λ o. o ≡ some st → IsKeyed st.connectors) (sym (lookup-insert id j new s))
        (either (id == j) (lookup j s) st (connectors j st)) found,
)
  where
    either :
        (b : Bool) (o : Option StationRuntimeState) (st : StationRuntimeState)
        → (o ≡ some st → IsKeyed st.connectors)
        → (if b then some new else o) ≡ some st
        → IsKeyed st.connectors
    either true o st old q =
        (let same : new ≡ st = ground (arith, q) in
          subst (λ x. IsKeyed x.connectors) same new_keyed)
    either false o st old q = old q

-- Updates of stations and of connectors keep stations and connectors distinct.
pub updates-IsState :
    (id status : String) (c : ℤ) (s : StationState)
    → IsState s
    → IsState (update_station id status s) × IsState (update_connector id c status s)
unfolding update_station update_connector IsState IsKeyed
updates-IsState id status c s state = (
  inserted-IsState id _ s state (or_new-IsKeyed id s state),
  inserted-IsState id _ s state (insert-IsKeyed c status _ (or_new-IsKeyed id s state)),
)
  where
    go :
        (o : Option StationRuntimeState)
        → ((st : StationRuntimeState) → o ≡ some st → IsKeyed st.connectors)
        → IsKeyed (or_new o).connectors
    go none known = tt
    go (some st) known = known st refl

    or_new-IsKeyed :
        (id : String) (s : StationState) → IsState s → IsKeyed (or_new (lookup id s)).connectors
    or_new-IsKeyed id s (keyed, connectors) = go (lookup id s) (connectors id)
