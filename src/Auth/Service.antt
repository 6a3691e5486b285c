-- ===== src/Auth/Service.antt =====
-- backend/services/auth-service/internal/service/auth_service.go. Its log lines are not modelled.
use drive_power.Prelude.{pos, String, ◌==◌, string_eq, if◌then◌else◌, Bool, false, ◌||◌}
use drive_power.Go.{Error, message, Result, ok, err, zero_time}
use drive_power.Auth.Model.{User, Db, Env, Deps}
use drive_power.Auth.Users.{clean, create, get_by_email, user_not_found}
use drive_power.Auth.Tokens.{hash_password, compare_password, generate_token}

abbrev pub email_in_use : Error
email_in_use = message "auth: email already registered"

abbrev pub invalid_credentials : Error
invalid_credentials = message "auth: invalid credentials"

-- errors.Is, for an error of errors.New
abbrev pub is_error : Error → Error → Bool
is_error (message s) (message t) = s == t
is_error e e' = false

abbrev pub with_user : User → Result String → Result (String × User)
with_user u (ok token) = ok (token, u)
with_user u (err e) = err e

module _ {R : Type 0} where
  unfoldable pub register : Env → Deps R → String → String → String → Db → Result User × Db
  register env deps email password role db =
      elim (hash_password deps.bcrypt deps.cost env password) [
        | err e ↦ (err e, db)
        | ok hash ↦
            create env
              (record {
                id = pos 0;
                email = email;
                password_hash = hash;
                role = role;
                created_at = zero_time;
              })
              db
      ]

  unfoldable pub signup_clean : Env → Deps R → String → String → String → Db → Result User × Db
  signup_clean env deps email password role db = elim (get_by_email env email db) [
    | ok u ↦ (err email_in_use, db)
    | err e ↦
        if is_error e user_not_found then register env deps email password role db else (err e, db)
  ]

  unfoldable pub signup : Env → Deps R → String → String → String → Db → Result User × Db
  signup env deps email password role db =
      if clean email == ""
      then (err (message "auth: email required"), db)
      else if password == ""
      then (err (message "auth: password required"), db)
      else signup_clean env deps (clean email) password (if role == "" then "user" else role) db

  unfoldable pub login_user : Env → Deps R → String → User → Result (String × User)
  login_user env deps password u = elim (compare_password deps.bcrypt u.password_hash password) [
    | err e ↦ err invalid_credentials
    | ok _ ↦ with_user u (generate_token deps env.now u.id u.role)
  ]

  unfoldable pub login : Env → Deps R → String → String → Db → Result (String × User)
  login env deps email password db =
      if clean email == "" || password == ""
      then err invalid_credentials
      else elim (get_by_email env (clean email) db) [
        | err e ↦ if is_error e user_not_found then err invalid_credentials else err e
        | ok u ↦ login_user env deps password u
      ]
