-- ===== src/Auth/Signups.antt =====
-- What Signup (backend/services/auth-service/internal/service/auth_service.go) makes of a request.
use drive_power.Prelude.{
  ◌+◌, pos, String, ◌∷◌, none, some, ◌≡◌, ◌≢◌, refl, sym, arith, ap, ◌∙◌, ◌⊎◌, inl, inr, ◌==◌,
  ==_iff, string_eq, Bool, true, false, if◌then◌else◌, Bool-cases, if-other, ==_differ,
}
use drive_power.Go.{message, Result, ok, err, zero_time}
use drive_power.Auth.Model.{User, Db, Env, Deps}
use drive_power.Auth.Users.{clean, find_user, get_by_email, user_not_found}
use drive_power.Auth.Tokens.{hash_password}
use drive_power.Auth.Service.{register, signup_clean, signup, email_in_use, is_error}
use drive_power.Auth.Accounts.{create-CreateCase, CreateCase, Step, created}

abbrev pub role_of : String → String
role_of role = if role == "" then "user" else role

-- The email under which an account stands: Signup cleans it, and Create once more.
abbrev pub account_email : String → String
account_email email = clean (clean email)

-- The account that a signup made.
pub record IsSignedUp {R : Type 0} (env : Env) (deps : Deps R) (email password role : String)
    (db : Db) (u : User) (db' : Db) : Type 0 where
  pub named : clean email ≢ ""
  pub guarded : password ≢ ""
  pub unused : find_user (account_email email) db.rows ≡ none
  pub hashed : deps.bcrypt.generate env.salt deps.cost password ≡ ok u.password_hash
  pub user : u ≡ record {
    id = pos db.next_id;
    email = account_email email;
    password_hash = u.password_hash;
    role = role_of role;
    created_at = env.db_now;
  }
  pub after : db' ≡ record { rows = u ∷ db.rows; next_id = db.next_id + 1 }

pub signed_up_found :
    {R : Type 0} (env : Env) (deps : Deps R) (email password role : String) (db db' : Db) (u : User)
    → IsSignedUp env deps email password role db u db'
    → find_user (account_email email) db'.rows ≡ some u
unfolding find_user
signed_up_found env deps email password role db db' u h = ground (
  arith,
  ap (λ (t : Db). t.rows) h.after,
  ap (λ (v : User). v.email) h.user,
  ==_iff u.email (account_email email),
)

-- A call changes the table by Create, if at all.
abbrev pub Moves : Db → Result User × Db → Type 0
Moves db out = (out.1 ≡ db) ⊎ Step db out.1

if-Moves :
    (db : Db) (b : Bool) (x y : Result User × Db)
    → Moves db x
    → Moves db y
    → Moves db (if b then x else y)
if-Moves db true x y h k = h
if-Moves db false x y h k = k

module _ {R : Type 0} where
  abbrev pub SignupCase : Env → Deps R → String → String → String → Db → Result User × Db → Type 0
  SignupCase env deps email password role db (err e, db') = db'.rows ≡ db.rows
  SignupCase env deps email password role db (ok u, db') =
      IsSignedUp env deps email password role db u db'

  registered :
      (env : Env) (deps : Deps R) (email password role hash : String) (db : Db)
      → clean email ≢ ""
      → password ≢ ""
      → deps.bcrypt.generate env.salt deps.cost password ≡ ok hash
      → (out : Result User × Db)
      → CreateCase env
          (record {
            id = pos 0;
            email = clean email;
            password_hash = hash;
            role = role_of role;
            created_at = zero_time;
          })
          db
          out
      → SignupCase env deps email password role db out
  registered env deps email password role hash db named guarded hashed (err e, db') (rows, _) = rows
  registered env deps email password role hash db named guarded hashed (ok u, db')
        (made, free, after) =
      record {
        named = named;
        guarded = guarded;
        unused = free;
        hashed = hashed ∙ ap (λ (v : User). ok v.password_hash) (sym made);
        user = rw made refl;
        after = after;
      }

  hash_ok :
      (env : Env) (deps : Deps R) (password : String)
      → password ≢ ""
      → hash_password deps.bcrypt deps.cost env password
        ≡ deps.bcrypt.generate env.salt deps.cost password
  unfolding hash_password
  hash_ok env deps password guarded = if-other {A = String} password "" _ _ guarded

  register-SignupCase :
      (env : Env) (deps : Deps R) (email password role : String) (db : Db)
      → clean email ≢ ""
      → password ≢ ""
      → SignupCase env deps email password role db
          (register env deps (clean email) password (role_of role) db)
  unfolding register
  register-SignupCase env deps email password role db named guarded =
      go (hash_password deps.bcrypt deps.cost env password) refl
    where
      go :
          (out : Result String)
          → hash_password deps.bcrypt deps.cost env password ≡ out
          → SignupCase env deps email password role db
              (register env deps (clean email) password (role_of role) db)
      go (err e) q = rw (q, register) refl
      go (ok hash) q =
          rw (q, register)
            (registered env deps email password role hash db named guarded
              (sym (hash_ok env deps password guarded) ∙ q) _ (create-CreateCase env _ db))

  signup_clean-SignupCase :
      (env : Env) (deps : Deps R) (email password role : String) (db : Db)
      → clean email ≢ ""
      → password ≢ ""
      → SignupCase env deps email password role db
          (signup_clean env deps (clean email) password (role_of role) db)
  unfolding signup_clean get_by_email
  signup_clean-SignupCase env deps email password role db named guarded =
      go (get_by_email env (clean email) db) refl
    where
      go :
          (out : Result User)
          → get_by_email env (clean email) db ≡ out
          → SignupCase env deps email password role db
              (signup_clean env deps (clean email) password (role_of role) db)
      go (ok u) q = rw (q, signup_clean) refl
      go (err e) q = elim (Bool-cases (is_error e user_not_found)) [
        | inl s ↦
            rw (q, signup_clean, s)
              (register-SignupCase env deps email password role db named guarded)
        | inr s ↦ rw (q, signup_clean, s) refl
      ]

  -- Signup, on every branch: an error leaves the accounts as they were; else the email and the password
  -- were not empty, no account had the email, and the new one has it, cleaned, a hash of the
  -- password, and the role that was asked for, "user" where none was.
  pub signup-SignupCase :
      (env : Env) (deps : Deps R) (email password role : String) (db : Db)
      → SignupCase env deps email password role db (signup env deps email password role db)
  unfolding signup
  signup-SignupCase env deps email password role db = elim (Bool-cases (clean email == "")) [
    | inl e ↦ rw e refl
    | inr e ↦ elim (Bool-cases (password == "")) [
      | inl p ↦ rw (e, p) refl
      | inr p ↦
          rw (e, p)
            (signup_clean-SignupCase env deps email password role db (==_differ (clean email) "" e)
              (==_differ password "" p))
    ]
  ]

  -- An email that an account has is refused, whatever the password and the role, and nothing changes.
  pub signup_refused :
      (env : Env) (deps : Deps R) (email password role : String) (db : Db) (u : User)
      → env.query_fault ≡ none
      → clean email ≢ ""
      → password ≢ ""
      → find_user (account_email email) db.rows ≡ some u
      → signup env deps email password role db ≡ (err email_in_use, db)
  unfolding signup signup_clean get_by_email
  signup_refused env deps email password role db u calm named guarded taken =
      ground (arith, calm, taken, ==_iff (clean email) "", ==_iff password "")

  register-Moves :
      (env : Env) (deps : Deps R) (email password role : String) (db : Db)
      → Moves db (register env deps email password role db)
  unfolding register
  register-Moves env deps email password role db =
      go (hash_password deps.bcrypt deps.cost env password) refl
    where
      go :
          (out : Result String)
          → hash_password deps.bcrypt deps.cost env password ≡ out
          → Moves db (register env deps email password role db)
      go (err e) q = rw (q, register) (inl refl)
      go (ok hash) q = rw (q, register) (inr (created env _ db))

  signup_clean-Moves :
      (env : Env) (deps : Deps R) (email password role : String) (db : Db)
      → Moves db (signup_clean env deps email password role db)
  unfolding signup_clean
  signup_clean-Moves env deps email password role db = go (get_by_email env email db) refl
    where
      go :
          (out : Result User)
          → get_by_email env email db ≡ out
          → Moves db (signup_clean env deps email password role db)
      go (ok u) q = rw (q, signup_clean) (inl refl)
      go (err e) q =
          rw (q, signup_clean)
            (if-Moves db (is_error e user_not_found) (register env deps email password role db)
              (err e, db) (register-Moves env deps email password role db) (inl refl))

  pub signup-Moves :
      (env : Env) (deps : Deps R) (email password role : String) (db : Db)
      → Moves db (signup env deps email password role db)
  unfolding signup
  signup-Moves env deps email password role db =
      if-Moves db (clean email == "") (err (message "auth: email required"), db)
        (if password == ""
          then (err (message "auth: password required"), db)
          else signup_clean env deps (clean email) password (role_of role) db)
        (inl refl)
        (if-Moves db (password == "") (err (message "auth: password required"), db)
          (signup_clean env deps (clean email) password (role_of role) db) (inl refl)
          (signup_clean-Moves env deps (clean email) password (role_of role) db))
