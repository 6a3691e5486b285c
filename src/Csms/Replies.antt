-- ===== src/Csms/Replies.antt =====
-- What a charge point is told by the handler of csms/main.go.
use drive_power.Prelude.{
  ℕ, pos, String, List, [], ◌∷◌, ◌++◌, Option, none, some, Bool, true, false, ◌≡◌, ◌≢◌, refl, arith,
  ap, ◌∙◌, Bool-cases, inl, inr, ◌==◌, ==_iff, eqb_iff, string_eq, int_eq,
}
use drive_power.Go.{
  Result, ok, Platform, Time, Json, null, bool, int, float, str, time, obj, arr, Items, nil, cons,
  Fields, field, end,
}
use drive_power.Csms.Calls.{
  Reading, Written, text, close, boot_reply, heartbeat_reply, on_boot, on_heartbeat, on_action,
  on_frame, on_reading, read_frame, type_of, serve, text_or_empty,
}

module _ {R : Type 0} ⦃p : Platform R⦄ where
  -- A text message that holds a frame of three elements or more.
  abbrev pub frame : Json R → Json R → Json R → Items R → Result (ℕ × Option (Json R))
  frame typ uid action rest = ok (1, some (arr (cons typ (cons uid (cons action rest)))))

  -- A call of an action, and its id.
  pub record IsCall (r : Reading R) (action uid : String) : Type 0 where
    pub typ : Json R
    pub rest : Items R
    pub message : r.message ≡ frame typ (str uid) (str action) rest
    pub call : type_of typ ≡ pos 2
    pub written : r.write_error ≡ none

  -- A message that is no call the handler knows: one that is no text; a text that is no JSON, or JSON
  -- that is no array; an array of less than three elements; a frame whose type is not 2; and a frame
  -- whose action is no text, or the text of another action.
  pub data IsNoise (r : Reading R) : Type 0 where
    no_text :
        (kind : ℕ) (body : Option (Json R)) → kind ≢ 1 → r.message ≡ ok (kind, body) → IsNoise r
    no_json : r.message ≡ ok (1, none) → IsNoise r
    no_array :
        (body : Json R)
        → ((items : Items R) → body ≢ arr items)
        → r.message ≡ ok (1, some body)
        → IsNoise r
    empty_frame : r.message ≡ ok (1, some (arr nil)) → IsNoise r
    one_element : (a : Json R) → r.message ≡ ok (1, some (arr (cons a nil))) → IsNoise r
    two_elements : (a b : Json R) → r.message ≡ ok (1, some (arr (cons a (cons b nil)))) → IsNoise r
    no_call :
        (typ uid action : Json R) (rest : Items R)
        → type_of typ ≢ pos 2
        → r.message ≡ frame typ uid action rest
        → IsNoise r
    no_action :
        (typ uid action : Json R) (rest : Items R)
        → ((name : String) → action ≢ str name)
        → ((name : String) (t : Time) → action ≢ time name t)
        → r.message ≡ frame typ uid action rest
        → IsNoise r
    unknown :
        (typ uid : Json R) (action : String) (rest : Items R)
        → action ≢ "BootNotification"
        → action ≢ "Heartbeat"
        → r.message ≡ frame typ uid (str action) rest
        → IsNoise r

  -- The result for a call: its id, and the fields of the answer.
  abbrev pub result : String → Fields R → Json R
  result uid fields = arr (cons (int (pos 3)) (cons (str uid) (cons (obj fields) nil)))

  abbrev pub boot_fields : String → Fields R
  boot_fields now =
      field "currentTime" (str now)
        (field "interval" (int (pos 10)) (field "status" (str "Accepted") end))

  -- Readings before a heartbeat, and the answers to them.
  pub data Booting : List (Reading R) → List (Written R) → Type 0 where
    start : Booting [] []
    noise :
        (r : Reading R) (rs : List (Reading R)) (ws : List (Written R))
        → IsNoise r
        → Booting rs ws
        → Booting (r ∷ rs) ws
    boot :
        (r : Reading R) (uid : String) (rs : List (Reading R)) (ws : List (Written R))
        → IsCall r "BootNotification" uid
        → Booting rs ws
        → Booting (r ∷ rs) (text (result uid (boot_fields r.now)) ∷ ws)

  scalar_unread :
      (body : Json R)
      → ((items : Items R) → body ≢ arr items)
      → (r : Reading R) → r.message ≡ ok (1, some body)
      → on_reading r ≡ ([], true)
  unfolding on_reading on_frame on_action read_frame
  scalar_unread (arr items) h r q = absurd (h items refl)
  scalar_unread null h r q = rw (q, on_reading) refl
  scalar_unread (obj fs) h r q = rw (q, on_reading) refl
  scalar_unread (bool b) h r q = rw (q, on_reading) refl
  scalar_unread (int z) h r q = rw (q, on_reading) refl
  scalar_unread (float x) h r q = rw (q, on_reading) refl
  scalar_unread (str t) h r q = rw (q, on_reading) refl
  scalar_unread (time t i) h r q = rw (q, on_reading) refl

  nameless :
      (action : Json R)
      → ((name : String) → action ≢ str name)
      → ((name : String) (t : Time) → action ≢ time name t)
      → text_or_empty action ≡ ""
  nameless (str name) h k = absurd (h name refl)
  nameless (time name t) h k = absurd (k name t refl)
  nameless null h k = refl
  nameless (bool b) h k = refl
  nameless (int z) h k = refl
  nameless (float x) h k = refl
  nameless (arr items) h k = refl
  nameless (obj fs) h k = refl

  unnamed :
      (r : Reading R) (typ uid action : Json R) (rest : Items R)
      → text_or_empty action ≡ ""
      → on_frame r (cons typ (cons uid (cons action rest))) ≡ ([], true)
  unfolding on_frame on_action
  unnamed r typ uid action rest h = elim (Bool-cases (type_of typ == pos 2)) [
    | inl e ↦ rw (e, h, on_frame) refl
    | inr e ↦ rw (e, on_frame) refl
  ]

  noise_unanswered : (r : Reading R) → IsNoise r → on_reading r ≡ ([], true)
  unfolding on_reading on_frame on_action read_frame
  noise_unanswered r (no_text kind body other q) = ground (arith, q, other, eqb_iff kind 1)
  noise_unanswered r (no_json q) = ground (arith, q)
  noise_unanswered r (no_array body other q) = scalar_unread body other r q
  noise_unanswered r (empty_frame q) = ground (arith, q)
  noise_unanswered r (one_element a q) = ground (arith, q)
  noise_unanswered r (two_elements a b q) = ground (arith, q)
  noise_unanswered r (no_action typ uid action rest h k q) =
      rw (q, on_reading) (unnamed r typ uid action rest (nameless action h k))
  noise_unanswered r (no_call typ uid action rest other q) =
      ground (arith, q, other, ==_iff (type_of typ) (pos 2))
  noise_unanswered r (unknown typ uid action rest b h q) =
      ground (arith, q, ==_iff action "BootNotification", ==_iff action "Heartbeat")

  boot_answered :
      (r : Reading R) (uid : String)
      → IsCall r "BootNotification" uid
      → on_reading r ≡ (text (result uid (boot_fields r.now)) ∷ [], true)
  unfolding on_reading on_frame on_action read_frame on_boot boot_reply
  boot_answered r uid h =
      ground (arith, h.message, h.call, h.written, ==_iff (type_of h.typ) (pos 2))

  heartbeat_answered :
      (r : Reading R) (uid : String)
      → IsCall r "Heartbeat" uid
      → r.close_error ≡ none
      → on_reading r ≡ (
        text (result uid (field "currentTime" (str r.now) end))
            ∷ close 1000 "Heartbeat test complete"
            ∷ [],
        false,
      )
  unfolding on_reading on_frame on_action read_frame on_heartbeat heartbeat_reply
  heartbeat_answered r uid h closes =
      ground (arith, h.message, h.call, h.written, closes, ==_iff (type_of h.typ) (pos 2))

  serve-on :
      (r : Reading R) (rs : List (Reading R)) (out : List (Written R))
      → on_reading r ≡ (out, true)
      → serve (r ∷ rs) ≡ (out ++ (serve rs).0, (serve rs).1)
  unfolding serve
  serve-on r rs out q = rw (q, serve) refl

  serve-end :
      (r : Reading R) (rs : List (Reading R)) (out : List (Written R))
      → on_reading r ≡ (out, false)
      → serve (r ∷ rs) ≡ (out, false)
  unfolding serve
  serve-end r rs out q = rw (q, serve) refl

  -- Every BootNotification is answered once, in order, with its id, the time, an interval of 10 and the
  -- status Accepted, and what is no call that the handler knows is not answered; the first Heartbeat is answered with its id and the time, and
  -- then the connection is closed: nothing that comes after it is answered. The writes succeed.
  pub serve_until_heartbeat :
      (rs : List (Reading R)) (ws : List (Written R)) (r : Reading R) (uid : String)
      (rest : List (Reading R))
      → Booting rs ws
      → IsCall r "Heartbeat" uid
      → r.close_error ≡ none
      → serve (rs ++ r ∷ rest) ≡ (
        ws
            ++ (text (result uid (field "currentTime" (str r.now) end))
                ∷ close 1000 "Heartbeat test complete"
                ∷ []),
        false,
      )
  serve_until_heartbeat rs ws r uid rest start h closes =
      serve-end r rest _ (heartbeat_answered r uid h closes)
  serve_until_heartbeat rs ws r uid rest (noise r' rs' ws' n more) h closes =
      serve-on r' (rs' ++ r ∷ rest) [] (noise_unanswered r' n)
      ∙ serve_until_heartbeat rs' ws' r uid rest more h closes
  serve_until_heartbeat rs ws r uid rest (boot r' uid' rs' ws' b more) h closes =
      serve-on r' (rs' ++ r ∷ rest) _ (boot_answered r' uid' b)
      ∙ ap (λ (o : List (Written R) × Bool). (text (result uid' (boot_fields r'.now)) ∷ o.0, o.1))
          (serve_until_heartbeat rs' ws' r uid rest more h closes)
