-- ===== src/Ocpp/Buffers.antt =====
-- Bounds of the queues, and what the manager knows of a station that connects again.
use drive_power.Prelude.{
  ℕ, suc, ◌≤◌, String, Bool, true, false, List, [], ◌∷◌, length, length-append, Option, none, some,
  lookup, insert, lookup-insert, lookup-insert_self, lookup-delete_self, if-other, ◌≡◌, ◌≢◌, refl,
  sym, ap, ◌∙◌, subst, arith, inl, inr, Bool-cases, ◌==◌, string_eq, nat_eq, if◌then◌else◌,
}
use drive_power.Go.{ok, err, Json}
use drive_power.Ocpp.Connections.{
  Connection, Hub, new_connection, add, remove, joined, handle_ws, send_frame, rest_of, write_frame,
  change, on_connection, closed_channel, closed_by, cleanup, read_round, Step, connect, read, write,
  close, Steps, start, then_, empty_hub,
}

module _ {R : Type 0} where
  pub IsBounded : Connection R → Type 0
  IsBounded c = length c.send ≤ 16

  -- Every connection's queue holds at most 16 frames.
  pub AllBounded : Hub R → Type 0
  AllBounded h = (n : ℕ) (c : Connection R) → lookup n h.open_connections ≡ some c → IsBounded c

  send_frame-IsBounded :
      (frame : Json R) (c : Connection R) → IsBounded c → IsBounded (send_frame frame c)
  unfolding IsBounded send_frame
  send_frame-IsBounded frame c bounded = ground (arith, length-append c.send (frame ∷ []), bounded)

  write_frame-IsBounded : (c : Connection R) → IsBounded c → IsBounded (write_frame c)
  unfolding IsBounded write_frame
  write_frame-IsBounded c bounded = go c.send bounded
    where
      go : (frames : List (Json R)) → length frames ≤ 16 → length (rest_of frames) ≤ 16
      go [] h = h
      go (frame ∷ frames) h = omega arith

  inserted-AllBounded :
      (n : ℕ) (c : Connection R) (h : Hub R)
      → AllBounded h
      → IsBounded c
      → AllBounded (record h { open_connections = insert n c h.open_connections })
  unfolding AllBounded
  inserted-AllBounded n c h all bounded m d found =
      either (n == m) (lookup m h.open_connections) (all m d)
        (sym (lookup-insert n m c h.open_connections) ∙ found)
    where
      either :
          (b : Bool) (o : Option (Connection R))
          → (o ≡ some d → IsBounded d)
          → (if b then some c else o) ≡ some d
          → IsBounded d
      either true o old q = let same : c ≡ d = ground (arith, q) in subst IsBounded same bounded
      either false o old q = old q

  on_connection-AllBounded :
      (n : ℕ) (f : Connection R → Connection R) (h : Hub R)
      → ((c : Connection R) → IsBounded c → IsBounded (f c))
      → AllBounded h
      → AllBounded (on_connection n f h)
  unfolding AllBounded
  on_connection-AllBounded n f h keeps all = go (lookup n h.open_connections) refl
    where
      go :
          (o : Option (Connection R))
          → lookup n h.open_connections ≡ o
          → AllBounded (change n f h o)
      go none q = all
      go (some c) q = inserted-AllBounded n (f c) h all (keeps c (all n c q))

  cleanup-AllBounded : (n : ℕ) (h : Hub R) → AllBounded h → AllBounded (cleanup n h)
  unfolding AllBounded cleanup remove IsBounded
  cleanup-AllBounded n h all = go (lookup n h.open_connections) refl
    where
      go :
          (o : Option (Connection R))
          → lookup n h.open_connections ≡ o
          → AllBounded (closed_by n h o)
      go none q = all
      go (some c) q = elim (Bool-cases c.closed) [
        | inl e ↦ rw e all
        | inr e ↦ rw e (inserted-AllBounded n (closed_channel c) h all (all n c q))
      ]

  joined-AllBounded : (station : String) (h : Hub R) → AllBounded h → AllBounded (joined station h)
  unfolding AllBounded joined add new_connection
  joined-AllBounded station h all =
      inserted-AllBounded h.next (new_connection station) h all (unfold IsBounded in omega arith)

  handle_ws-AllBounded :
      (station : String) (upgraded : Bool) (h : Hub R)
      → AllBounded h
      → AllBounded (handle_ws station upgraded h).1
  unfolding handle_ws
  handle_ws-AllBounded station upgraded h all = elim (Bool-cases (station == "")) [
    | inl e ↦ rw e all
    | inr e ↦ rw e (go upgraded)
  ]
    where
      go :
          (u : Bool)
          → AllBounded (if◌then◌else◌ {A = Option ℕ × Hub R} u (none, joined station h) (none, h)).1
      go true = joined-AllBounded station h all
      go false = all

  Step-AllBounded : (h h' : Hub R) → Step h h' → AllBounded h → AllBounded h'
  unfolding read_round
  Step-AllBounded _ _ (connect station upgraded h) all = handle_ws-AllBounded station upgraded h all
  Step-AllBounded _ _ (read n (err e) h) all = all
  Step-AllBounded _ _ (read n (ok none) h) all = all
  Step-AllBounded _ _ (read n (ok (some frame)) h) all =
      on_connection-AllBounded n (send_frame frame) h (send_frame-IsBounded frame) all
  Step-AllBounded _ _ (write n h) all =
      on_connection-AllBounded n write_frame h write_frame-IsBounded all
  Step-AllBounded _ _ (close n h) all = cleanup-AllBounded n h all

  Steps-AllBounded : (h h' : Hub R) → Steps h h' → AllBounded h → AllBounded h'
  Steps-AllBounded _ _ (start h) all = all
  Steps-AllBounded _ _ (then_ h h' h'' before step) all =
      Step-AllBounded h' h'' step (Steps-AllBounded h h' before all)

  -- Whatever stations connect and whatever the pumps do, in any order, no connection has ever more than
  -- 16 frames waiting.
  pub reachable-AllBounded : (h : Hub R) → Steps empty_hub h → AllBounded h
  unfolding empty_hub AllBounded lookup
  reachable-AllBounded h steps = Steps-AllBounded empty_hub h steps (λ n c q. ground (arith, q))

  upgraded_hub :
      (station : String) (h : Hub R)
      → station ≢ ""
      → (handle_ws station true h).1 ≡ joined station h
  unfolding handle_ws
  upgraded_hub station h named =
      ap (λ (o : Option ℕ × Hub R). o.1) (if-other {A = String} station "" _ _ named)

  first_open :
      (station : String) (h : Hub R)
      → lookup h.next (joined station (joined station h)).open_connections
        ≡ some (new_connection station)
  unfolding joined add
  first_open station h =
      lookup-insert (suc h.next) h.next (new_connection station) _
      ∙ if-other (suc h.next) h.next _ _ (λ e. ground (arith, e))
      ∙ lookup-insert_self h.next (new_connection station) h.open_connections

  forgotten :
      (station : String) (h : Hub R)
      → (let h' = cleanup h.next (joined station (joined station h)) in
          (lookup station h'.connections ≡ none)
          × (lookup (suc h.next) h'.open_connections ≡ some (new_connection station)))
  unfolding cleanup joined add remove new_connection
  forgotten station h =
      rw (first_open station h, cleanup)
        (
          lookup-delete_self station _,
          lookup-insert h.next (suc h.next) _ _
              ∙ if-other h.next (suc h.next) _ _ (λ e. ground (arith, e))
              ∙ lookup-insert_self (suc h.next) (new_connection station) _,
        )

  -- A station that connects, connects again before its first connection is closed, and then loses the
  -- first connection: the manager has no connection for it, though its second one is open.
  pub reconnected_is_forgotten :
      (station : String) (h : Hub R)
      → station ≢ ""
      → (let first = (handle_ws station true h).1 in
          let second = (handle_ws station true first).1 in
          let h' = cleanup h.next second in
          (lookup station h'.connections ≡ none)
          × (lookup (suc h.next) h'.open_connections ≡ some (new_connection station)))
  reconnected_is_forgotten station h named =
      rw (upgraded_hub station h named, upgraded_hub station (joined station h) named)
        (forgotten station h)
