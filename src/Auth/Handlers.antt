-- ===== src/Auth/Handlers.antt =====
-- backend/services/auth-service/internal/http: the handlers and the router.
use drive_power.Prelude.{String, [], ◌∷◌, Assoc, ◌==◌, string_eq, if◌then◌else◌, ◌||◌}
use drive_power.Go.{
  Result, ok, err, ◌>>=◌, Json, int, str, obj, end, field, get, fields_of, as_string, Response,
  Handler, write_json, write_error, method, mux, decode_body,
}
use drive_power.Go.Texts.{trim_space}
use drive_power.Auth.Model.{User, Db, Env, Deps}
use drive_power.Auth.Service.{signup, login, is_error, email_in_use, invalid_credentials}

pub record SignupRequest : Type 0 where
  pub email : String
  pub password : String
  pub role : String

pub record LoginRequest : Type 0 where
  pub email : String
  pub password : String

module _ {R : Type 0} where
  unfoldable pub decode_signup : Json R → Result SignupRequest
  decode_signup j = do
    fs ← fields_of j
    email ← as_string (get "email" fs)
    password ← as_string (get "password" fs)
    role ← as_string (get "role" fs)
    ok (record { email = email; password = password; role = role })

  unfoldable pub decode_login : Json R → Result LoginRequest
  decode_login j = do
    fs ← fields_of j
    email ← as_string (get "email" fs)
    password ← as_string (get "password" fs)
    ok (record { email = email; password = password })

  unfoldable pub signup_reply : Result User → Response R
  signup_reply (ok u) =
      write_json 201
        (obj (field "id" (int u.id) (field "email" (str u.email) (field "role" (str u.role) end))))
  signup_reply (err e) =
      if is_error e email_in_use
      then write_error 409 "email already registered"
      else write_error 500 "failed to create user"

  unfoldable pub handle_signup : Env → Deps R → Handler R Db
  handle_signup env deps req db = elim (decode_body decode_signup req.body) [
    | err e ↦ (write_error 400 "invalid JSON body", db)
    | ok r ↦
        if trim_space r.email == "" || trim_space r.password == ""
        then (write_error 400 "email and password are required", db)
        else (let (made, db') =
              signup env deps (trim_space r.email) (trim_space r.password) r.role db in
            (signup_reply made, db'))
  ]

  unfoldable pub login_reply : Result (String × User) → Response R
  login_reply (ok (token, u)) =
      write_json 200 (obj (field "token" (str token) (field "token_type" (str "Bearer") end)))
  login_reply (err e) =
      if is_error e invalid_credentials
      then write_error 401 "invalid credentials"
      else write_error 500 "failed to login"

  unfoldable pub handle_login : Env → Deps R → Handler R Db
  handle_login env deps req db = elim (decode_body decode_login req.body) [
    | err e ↦ (write_error 400 "invalid JSON body", db)
    | ok r ↦
        if trim_space r.email == "" || trim_space r.password == ""
        then (write_error 400 "email and password are required", db)
        else (login_reply (login env deps (trim_space r.email) (trim_space r.password) db), db)
  ]

  unfoldable pub health : Handler R Db
  health req db = (write_json 200 (obj (field "status" (str "ok") end)), db)

  unfoldable pub routes : Env → Deps R → Assoc String (Handler R Db)
  routes env deps =
      ("/auth/signup", method "POST" (handle_signup env deps))
      ∷ ("/auth/login", method "POST" (handle_login env deps))
      ∷ ("/health", method "GET" health)
      ∷ []

  unfoldable pub router : Env → Deps R → Handler R Db
  router env deps = mux (routes env deps)
