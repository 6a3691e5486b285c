-- ===== src/Auth/Replies.antt =====
-- What the HTTP endpoints of the auth service answer, on every branch.
use drive_power.Prelude.{
  String, true, false, ◌≡◌, refl, ◌⊎◌, inl, inr, ◌==◌, ◌||◌, Bool, string_eq, Bool-cases, lookup,
}
use drive_power.Go.{
  Result, ok, err, int, str, obj, field, end, Request, Response, write_json, write_error,
  decode_body, AnsweredBy, mux-AnsweredBy,
}
use drive_power.Go.Texts.{trim_space}
use drive_power.Auth.Model.{User, Db, Env, Deps}
use drive_power.Auth.Service.{signup, login, email_in_use, invalid_credentials, is_error}
use drive_power.Auth.Handlers.{
  SignupRequest, LoginRequest, decode_signup, decode_login, signup_reply, login_reply,
  handle_signup, handle_login, routes, router,
}

-- An email or a password of spaces only.
abbrev pub is_blank : String → String → Bool
is_blank email password = trim_space email == "" || trim_space password == ""

-- The answer to a registration, by the outcome of Signup.
abbrev pub Registered : {R : Type 0} → Result User → Response R → Type 0
Registered (ok u) out =
    out
    ≡ write_json 201
        (obj (field "id" (int u.id) (field "email" (str u.email) (field "role" (str u.role) end))))
Registered (err e) out =
    ((is_error e email_in_use ≡ true) × (out.status ≡ 409))
    ⊎ ((is_error e email_in_use ≡ false) × (out.status ≡ 500))

-- The answer to a login, by the outcome of Login.
abbrev pub LoggedIn : {R : Type 0} → Result (String × User) → Response R → Type 0
LoggedIn (ok (token, u)) out =
    out ≡ write_json 200 (obj (field "token" (str token) (field "token_type" (str "Bearer") end)))
LoggedIn (err e) out =
    ((is_error e invalid_credentials ≡ true) × (out.status ≡ 401))
    ⊎ ((is_error e invalid_credentials ≡ false) × (out.status ≡ 500))

signup_reply-Registered :
    (R : Type 0) (made : Result User) → Registered made (signup_reply {R = R} made)
unfolding signup_reply write_error write_json
signup_reply-Registered R (ok u) = refl
signup_reply-Registered R (err e) = elim (Bool-cases (is_error e email_in_use)) [
  | inl t ↦ rw t (inl (refl, refl))
  | inr t ↦ rw t (inr (refl, refl))
]

login_reply-LoggedIn :
    (R : Type 0) (made : Result (String × User)) → LoggedIn made (login_reply {R = R} made)
unfolding login_reply write_error write_json
login_reply-LoggedIn R (ok (token, u)) = refl
login_reply-LoggedIn R (err e) = elim (Bool-cases (is_error e invalid_credentials)) [
  | inl t ↦ rw t (inl (refl, refl))
  | inr t ↦ rw t (inr (refl, refl))
]

-- The endpoints for accounts.
pub data Endpoint : Type 0 where
  signup_route login_route : Endpoint

abbrev pub path_of : Endpoint → String
path_of signup_route = "/auth/signup"
path_of login_route = "/auth/login"

module _ {R : Type 0} where
  abbrev signed_up : Env → Deps R → SignupRequest → Db → Result User × Db
  signed_up env deps r db = signup env deps (trim_space r.email) (trim_space r.password) r.role db

  abbrev pub SignupReply : Env → Deps R → Db → Result SignupRequest → Response R × Db → Type 0
  SignupReply env deps db (err e) out = (out.0.status ≡ 400) × (out.1 ≡ db)
  SignupReply env deps db (ok r) out =
      ((is_blank r.email r.password ≡ true) × (out.0.status ≡ 400) × (out.1 ≡ db))
      ⊎ ((is_blank r.email r.password ≡ false)
          × Registered (signed_up env deps r db).0 out.0
          × (out.1 ≡ (signed_up env deps r db).1))

  abbrev pub LoginReply : Env → Deps R → Db → Result LoginRequest → Response R × Db → Type 0
  LoginReply env deps db (err e) out = (out.0.status ≡ 400) × (out.1 ≡ db)
  LoginReply env deps db (ok r) out =
      ((is_blank r.email r.password ≡ true) × (out.0.status ≡ 400) × (out.1 ≡ db))
      ⊎ ((is_blank r.email r.password ≡ false)
          × LoggedIn (login env deps (trim_space r.email) (trim_space r.password) db) out.0
          × (out.1 ≡ db))

  handle_signup-SignupReply :
      (env : Env) (deps : Deps R) (req : Request R) (db : Db)
      → SignupReply env deps db (decode_body decode_signup req.body) (handle_signup env deps req db)
  unfolding handle_signup write_error write_json
  handle_signup-SignupReply env deps req db = go (decode_body decode_signup req.body) refl
    where
      go :
          (out : Result SignupRequest)
          → decode_body decode_signup req.body ≡ out
          → SignupReply env deps db out (handle_signup env deps req db)
      go (err e) q = rw (q, handle_signup) (refl, refl)
      go (ok r) q = elim (Bool-cases (is_blank r.email r.password)) [
        | inl t ↦ rw (q, handle_signup, t) (inl (refl, refl, refl))
        | inr t ↦
            rw (q, handle_signup, t)
              (inr (refl, signup_reply-Registered R (signed_up env deps r db).0, refl))
      ]

  handle_login-LoginReply :
      (env : Env) (deps : Deps R) (req : Request R) (db : Db)
      → LoginReply env deps db (decode_body decode_login req.body) (handle_login env deps req db)
  unfolding handle_login write_error write_json
  handle_login-LoginReply env deps req db = go (decode_body decode_login req.body) refl
    where
      go :
          (out : Result LoginRequest)
          → decode_body decode_login req.body ≡ out
          → LoginReply env deps db out (handle_login env deps req db)
      go (err e) q = rw (q, handle_login) (refl, refl)
      go (ok r) q = elim (Bool-cases (is_blank r.email r.password)) [
        | inl t ↦ rw (q, handle_login, t) (inl (refl, refl, refl))
        | inr t ↦
            rw (q, handle_login, t)
              (inr (
                refl,
                login_reply-LoggedIn R
                    (login env deps (trim_space r.email) (trim_space r.password) db),
                refl,
              ))
      ]

  -- The answer at an endpoint.
  abbrev pub ReplyAt : Env → Deps R → Db → Request R → Endpoint → Response R × Db → Type 0
  ReplyAt env deps db req signup_route out =
      AnsweredBy "POST" (SignupReply env deps db (decode_body decode_signup req.body)) req db out
  ReplyAt env deps db req login_route out =
      AnsweredBy "POST" (LoginReply env deps db (decode_body decode_login req.body)) req db out

  -- POST /auth/signup and POST /auth/login answer 400, and change nothing, where the body does not
  -- decode or has an email or a password of spaces only. Else a signup is answered 201 with id, email
  -- and role of the account, 409 where the email is in use and 500 for any other error, and a login 200
  -- with the token, 401 for wrong credentials and 500 for any other error; a login changes nothing. Any
  -- other method is answered 405, and changes nothing.
  pub auth_endpoints :
      (env : Env) (deps : Deps R) (req : Request R) (db : Db) (at : Endpoint)
      → req.path ≡ path_of at
      → ReplyAt env deps db req at (router env deps req db)
  unfolding router routes lookup
  auth_endpoints env deps req db signup_route path =
      mux-AnsweredBy "POST" (SignupReply env deps db (decode_body decode_signup req.body))
        (routes env deps) (handle_signup env deps) req db (rw path refl)
        (handle_signup-SignupReply env deps req db)
  auth_endpoints env deps req db login_route path =
      mux-AnsweredBy "POST" (LoginReply env deps db (decode_body decode_login req.body))
        (routes env deps) (handle_login env deps) req db (rw path refl)
        (handle_login-LoginReply env deps req db)
