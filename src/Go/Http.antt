-- ===== src/Go/Http.antt =====
-- HTTP messages, and the helpers that every service repeats: backend/services/*/internal/http
-- (router.go, handlers/helpers.go). A handler changes the state of its service.
use drive_power.Prelude.{
  ℕ, String, [], ◌∷◌, Assoc, Option, none, some, ◌==◌, ==_iff, ◌≡◌, ◌≢◌, refl, arith, string_eq,
  if◌then◌else◌, lookup, ◌⊎◌, inl, inr, Bool-cases, ==_differ,
}
use mathlib.Core.Option.{get_or}
use drive_power.Go.Errors.{Result, err, mismatch}
use drive_power.Go.Jsons.{Json, null, str, obj, end, field}

-- The first JSON value of the body; a body that does not begin with one is `none`. The names of headers
-- are canonical.
pub record Request (R : Type 0) : Type 0 where
  pub method : String
  pub path : String
  pub header : Assoc String String
  pub body : Option (Json R)

pub record Response (R : Type 0) : Type 0 where
  pub status : ℕ
  pub header : Assoc String String
  pub body : Json R

abbrev pub Handler : Type 0 → Type 0 → Type 0
Handler R S = Request R → S → Response R × S

abbrev pub status_of : {R S : Type 0} → Response R × S → ℕ
status_of out = out.0.status

module _ {R : Type 0} where
  unfoldable pub write_json : ℕ → Json R → Response R
  write_json code payload = record {
    status = code;
    header = ("Content-Type", "application/json") ∷ [];
    body = payload;
  }

  unfoldable pub write_error : ℕ → String → Response R
  unfolding write_json
  write_error code text = write_json code (obj (field "error" (str text) end))

module _ {R S : Type 0} where
  -- A handler behind its HTTP method.
  unfoldable pub method : String → Handler R S → Handler R S
  method expected handler req s =
      if req.method == expected
      then handler req s
      else (record { status = 405; header = ("Allow", expected) ∷ []; body = null }, s)

  -- http.ServeMux with exact patterns.
  unfoldable pub mux : Assoc String (Handler R S) → Handler R S
  unfolding lookup
  mux routes req s = elim (lookup req.path routes) [
    | none ↦ (record { status = 404; header = []; body = str "404 page not found\n" }, s)
    | some handler ↦ handler req s
  ]

-- json.NewDecoder(r.Body).Decode(&target)
abbrev pub decode_body : {R A : Type 0} → (Json R → Result A) → Option (Json R) → Result A
decode_body decode none = err mismatch
decode_body decode (some j) = decode j

-- r.Header.Get, which gives "" where the header is missing.
abbrev pub header_of : {R : Type 0} → String → Request R → String
header_of k req = get_or (lookup k req.header) ""

module _ {R S : Type 0} where
  pub mux-found :
      (routes : Assoc String (Handler R S)) (handler : Handler R S) (req : Request R) (s : S)
      → lookup req.path routes ≡ some handler
      → mux routes req s ≡ handler req s
  unfolding mux
  mux-found routes handler req s found = rw (found, mux) refl

  -- A request with another method is refused, and changes nothing.
  pub method_cases :
      (expected : String) (handler : Handler R S) (req : Request R) (s : S)
      → (req.method ≡ expected → method expected handler req s ≡ handler req s)
        × (req.method ≢ expected
            → (status_of (method expected handler req s) ≡ 405)
              × ((method expected handler req s).1 ≡ s))
  unfolding method
  method_cases expected handler req s = (
    λ h. ground (arith, ==_iff req.method expected),
    λ h. (ground (arith, ==_iff req.method expected), ground (arith, ==_iff req.method expected)),
  )

  -- What becomes of a request at a route for one method: the handler's reply, or 405 and no change.
  abbrev pub AnsweredBy :
      String → (Response R × S → Type 0) → Request R → S → Response R × S → Type 0
  AnsweredBy expected Reply req s out =
      ((req.method ≡ expected) × Reply out)
      ⊎ ((req.method ≢ expected) × (status_of out ≡ 405) × (out.1 ≡ s))

  pub method-AnsweredBy :
      (expected : String) (Reply : Response R × S → Type 0) (handler : Handler R S)
      (req : Request R) (s : S)
      → Reply (handler req s)
      → AnsweredBy expected Reply req s (method expected handler req s)
  method-AnsweredBy expected Reply handler req s reply =
      let (same, other) = method_cases expected handler req s in
      elim (Bool-cases (req.method == expected)) [
        | inl e ↦
            let posted : req.method ≡ expected = (==_iff _ _).0 e in
            inl (posted, rw (same posted) reply)
        | inr e ↦
            let differs : req.method ≢ expected = ==_differ req.method expected e in
            inr (differs, (other differs).0, (other differs).1)
      ]

  -- The same behind a multiplexer that has the route.
  pub mux-AnsweredBy :
      (expected : String) (Reply : Response R × S → Type 0) (routes : Assoc String (Handler R S))
      (handler : Handler R S) (req : Request R) (s : S)
      → lookup req.path routes ≡ some (method expected handler)
      → Reply (handler req s)
      → AnsweredBy expected Reply req s (mux routes req s)
  mux-AnsweredBy expected Reply routes handler req s found reply =
      rw (mux-found routes (method expected handler) req s found)
        (method-AnsweredBy expected Reply handler req s reply)

  pub AnsweredBy-reply :
      (expected : String) (Reply : Response R × S → Type 0) (req : Request R) (s : S)
      (out : Response R × S)
      → AnsweredBy expected Reply req s out
      → req.method ≡ expected
      → Reply out
  AnsweredBy-reply expected Reply req s out (inl (_, reply)) same = reply
  AnsweredBy-reply expected Reply req s out (inr (differs, _, _)) same = absurd (differs same)
