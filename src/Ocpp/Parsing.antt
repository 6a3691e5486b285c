-- ===== src/Ocpp/Parsing.antt =====
-- Which texts are calls, and that what the server writes is none of them.
use drive_power.Prelude.{ℤ, pos, Option, some, ◌≡◌, refl, ap, sym, arith, ◌↔◌, ==_iff, int_eq}
use drive_power.Go.{ok, >>=-ok, Json, arr, Items, nil, cons, as_int64, as_string}
use drive_power.Ocpp.Frames.{Message, parse, parse_items, typed_frame, call_of}

module _ {R : Type 0} where
  -- The array [2, id, action, payload, ...] that stands for a message. A null is read as "" where a
  -- text is expected.
  abbrev pub IsCall : Option (Json R) → Message R → Type 0
  IsCall raw msg =
      (kind : Json R) × (id : Json R) × (action : Json R) × (more : Items R) × (raw
        ≡ some (arr (cons kind (cons id (cons action (cons msg.payload more))))))
      × (as_int64 kind ≡ ok (pos 2))
      × (as_string id ≡ ok msg.unique_id)
      × (as_string action ≡ ok msg.action)
      × (msg.message_type ≡ pos 2)

  call_of-ok :
      (id : Json R) (rest : Items R) (msg : Message R)
      → call_of id rest ≡ ok msg
      → (action : Json R) × (more : Items R) × (rest ≡ cons action (cons msg.payload more))
        × (as_string id ≡ ok msg.unique_id)
        × (as_string action ≡ ok msg.action)
        × (msg.message_type ≡ pos 2)
  unfolding call_of
  call_of-ok id nil msg q = ground arith
  call_of-ok id (cons action nil) msg q = ground arith
  call_of-ok id (cons action (cons payload more)) msg q =
      let (unique, unique_q, q') = >>=-ok (as_string id) _ msg q in
      let (name, name_q, q'') = >>=-ok (as_string action) _ msg q' in
      (action, more, ground arith, ground arith, ground arith, ground arith)

  typed_frame-ok :
      (kind : ℤ) (id : Json R) (rest : Items R) (msg : Message R)
      → typed_frame kind id rest ≡ ok msg
      → (pos 2 ≡ kind) × (call_of id rest ≡ ok msg)
  unfolding typed_frame
  typed_frame-ok kind id rest msg q =
      (ground (arith, ==_iff kind (pos 2)), ground (arith, ==_iff kind (pos 2)))

  -- A text is parsed as a call exactly where it is one.
  pub parse-IsCall :
      (raw : Option (Json R)) (msg : Message R) → (parse raw ≡ ok msg) ↔ IsCall raw msg
  unfolding parse parse_items typed_frame call_of
  parse-IsCall raw msg = (there raw, back)
    where
      there : (raw : Option (Json R)) → parse raw ≡ ok msg → IsCall raw msg
      there (some (arr (cons kind (cons id (cons third rest))))) q =
          let (kind', kind_q, q') = >>=-ok (as_int64 kind) _ msg q in
          let (two, called) = typed_frame-ok kind' id (cons third rest) msg q' in
          let (action, more, shape, id_q, action_q, type_q) =
            call_of-ok id (cons third rest) msg called in
          (kind, id, action, more, rw shape refl, rw two kind_q, id_q, action_q, type_q)
      there (some (arr (cons kind (cons id nil)))) q = ground arith
      there (some (arr (cons kind nil))) q = ground arith
      there (some (arr nil)) q = ground arith
      there _ q = ground arith

      back : IsCall raw msg → parse raw ≡ ok msg
      back (kind, id, action, more, raw_q, kind_q, id_q, action_q, type_q) =
          rw (raw_q, kind_q, id_q, action_q)
            (ap (λ t. ok (record msg { message_type = t })) (sym type_q))
