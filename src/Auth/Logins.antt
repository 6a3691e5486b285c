-- ===== src/Auth/Logins.antt =====
-- What Login (backend/services/auth-service/internal/service/auth_service.go) makes of a request, and
-- what the token is good for.
use drive_power.Prelude.{
  ◌+◌, ◌*◌, ◌<◌, ◌≤◌, ◌^◌, pos, String, none, some, ◌≡◌, ◌≢◌, refl, sym, arith, ap, ◌∙◌, subst, ◌⊎◌,
  inl, inr, ◌==◌, ==_iff, string_eq, int_eq, true, false, Bool-cases, Option-cases, ◌||◌,
}
use drive_power.Prelude.Int.{is_int64}
use drive_power.Go.{Error, message, Result, ok, err, Time, get, int, str, as_int64, as_string}
use drive_power.Go.Jwts.{JwtLaws, numeric_date, epoch, second}
use drive_power.Auth.Model.{User, Db, Env, Deps, BcryptLaws}
use drive_power.Auth.Users.{clean, find_user, get_by_email, user_not_found}
use drive_power.Auth.Tokens.{
  Claims, claims_json, generate_token, validate_token, read_claims, key_for,
}
use drive_power.Auth.Service.{signup, login, login_user, invalid_credentials, is_error}
use drive_power.Auth.Accounts.{IsValid, Steps, account_stays}
use drive_power.Auth.Signups.{
  account_email, IsSignedUp, signup-SignupCase, SignupCase, signed_up_found,
}

-- The claims of a user's token that is made at an instant.
abbrev pub claims_of : {R : Type 0} → Deps R → Time → User → Claims
claims_of deps now u = record {
  user_id = u.id;
  role = u.role;
  issued_at = numeric_date now;
  expires_at = numeric_date (now + deps.expires_in);
}

module _ {R : Type 0} where
  -- The login of an account with a password that matches it.
  login_found :
      (env : Env) (deps : Deps R) (email password token : String) (db : Db) (u : User)
      → env.query_fault ≡ none
      → clean email ≢ ""
      → password ≢ ""
      → find_user (account_email email) db.rows ≡ some u
      → deps.bcrypt.compare u.password_hash password ≡ ok tt
      → u.id ≢ pos 0
      → deps.jwt.sign deps.secret (claims_json (claims_of deps env.now u)) ≡ ok token
      → login env deps email password db ≡ ok (token, u)
  unfolding login login_user get_by_email generate_token
  login_found env deps email password token db u calm named guarded found matches numbered signed =
      ground (
        arith,
        calm,
        found,
        matches,
        signed,
        ==_iff (clean email) "",
        ==_iff password "",
        ==_iff u.id (pos 0),
      )

  -- A token that was signed for a user is read back as the id and the role of the user, until it
  -- expires.
  pub token_valid :
      (deps : Deps R) (laws : JwtLaws deps.jwt) (issued now : Time) (u : User) (token : String)
      → is_int64 u.id ≡ true
      → numeric_date (issued + deps.expires_in) ≤ 2 ^ 53
      → deps.jwt.sign deps.secret (claims_json (claims_of deps issued u)) ≡ ok token
      → now < (numeric_date (issued + deps.expires_in) + epoch) * second
      → validate_token deps now token ≡ ok (u.id, u.role)
  unfolding validate_token key_for claims_json drive_power.Go.get read_claims as_int64 as_string
  token_valid deps laws issued now u token fits near signed early =
      let parsed =
        laws.verified deps.secret token u.role u.id (numeric_date (issued + deps.expires_in))
          (numeric_date issued) (key_for deps) now signed fits near early refl in
      rw (parsed, fits) refl

  -- What a login that succeeds rests on.
  pub record IsAuthentic (env : Env) (deps : Deps R) (email password : String) (db : Db)
      (token : String) (u : User) : Type 0 where
    pub found : find_user (account_email email) db.rows ≡ some u
    pub matches : deps.bcrypt.compare u.password_hash password ≡ ok tt
    pub numbered : u.id ≢ pos 0
    pub signed : deps.jwt.sign deps.secret (claims_json (claims_of deps env.now u)) ≡ ok token

  pub login-IsAuthentic :
      (env : Env) (deps : Deps R) (email password token : String) (db : Db) (u : User)
      → login env deps email password db ≡ ok (token, u)
      → IsAuthentic env deps email password db token u
  unfolding login login_user get_by_email generate_token
  login-IsAuthentic env deps email password token db u h = record {
    found = ground (arith, h);
    matches = ground (arith, h);
    numbered = ground (arith, h, ==_iff u.id (pos 0));
    signed = ground (arith, h);
  }

  -- The outcomes of a login.
  abbrev pub LoginCase : Env → Deps R → String → String → Db → Result (String × User) → Type 0
  LoginCase env deps email password db (ok (token, u)) =
      IsAuthentic env deps email password db token u
  LoginCase env deps email password db (err e) =
      (e ≡ invalid_credentials)
      ⊎ (env.query_fault ≡ some e)
      ⊎ ((u : User) × (find_user (account_email email) db.rows ≡ some u)
          × (deps.bcrypt.compare u.password_hash password ≡ ok tt)
          × ((u.id ≡ pos 0)
              ⊎ (deps.jwt.sign deps.secret (claims_json (claims_of deps env.now u)) ≡ err e)))

  login_failed :
      (env : Env) (deps : Deps R) (email password : String) (db : Db) (e : Error)
      → login env deps email password db ≡ err e
      → LoginCase env deps email password db (err e)
  unfolding login login_user get_by_email generate_token
  login_failed env deps email password db e h = elim (Option-cases env.query_fault) [
    | inr (w, fault) ↦ elim (Bool-cases (is_error w user_not_found)) [
      | inl i ↦ inl (ground (arith, h, fault, i))
      | inr i ↦ elim (Bool-cases (clean email == "" || password == "")) [
        | inl blank ↦ inl (ground (arith, h, blank))
        | inr given ↦ inr (inl (ground (arith, h, fault, i, given)))
      ]
    ]
    | inl calm ↦ elim (Option-cases (find_user (account_email email) db.rows)) [
      | inl missing ↦ inl (ground (arith, h, calm, missing))
      | inr (u, found) ↦ elim (Bool-cases (clean email == "" || password == "")) [
        | inl blank ↦ inl (ground (arith, h, calm, found, blank))
        | inr given ↦
            compared u calm found given (deps.bcrypt.compare u.password_hash password) refl
      ]
    ]
  ]
    where
      unsigned :
          (u : User)
          → (u.id == pos 0) ≡ false
          → env.query_fault ≡ none
          → find_user (account_email email) db.rows ≡ some u
          → (clean email == "" || password == "") ≡ false
          → deps.bcrypt.compare u.password_hash password ≡ ok tt
          → deps.jwt.sign deps.secret (claims_json (claims_of deps env.now u)) ≡ err e
      unsigned u numbered calm found given matches =
          ground (arith, h, numbered, calm, found, given, matches)

      compared :
          (u : User)
          → env.query_fault ≡ none
          → find_user (account_email email) db.rows ≡ some u
          → (clean email == "" || password == "") ≡ false
          → (out : Result (Unit {0})) → deps.bcrypt.compare u.password_hash password ≡ out
          → LoginCase env deps email password db (err e)
      compared u calm found given (ok _) matches = elim (Bool-cases (u.id == pos 0)) [
        | inl zero_id ↦ inr (inr (u, found, matches, inl ((==_iff u.id (pos 0)).0 zero_id)))
        | inr numbered ↦
            inr (inr (u, found, matches, inr (unsigned u numbered calm found given matches)))
      ]
      compared u calm found given (err w) wrong = inl (ground (arith, h, calm, found, given, wrong))

  -- A login succeeds only for the account of the email, with a password that matches its hash, and its
  -- token is signed for that account. It fails with the same error where the email has no account and
  -- where the password does not match; with another only where the query fails, or where the
  -- account was found, and the password matched, but its id is 0 or the library does not sign the token;
  -- the error is then that of the library.
  pub login-LoginCase :
      (env : Env) (deps : Deps R) (email password : String) (db : Db)
      → LoginCase env deps email password db (login env deps email password db)
  login-LoginCase env deps email password db = go (login env deps email password db) refl
    where
      go :
          (out : Result (String × User))
          → login env deps email password db ≡ out
          → LoginCase env deps email password db out
      go (ok (token, u)) h = login-IsAuthentic env deps email password token db u h
      go (err e) h = login_failed env deps email password db e h

  -- The account that a signup made can log in with its password, under any spelling of its email, after
  -- any further signups; and until the token expires, which is before 2 ^ 53 seconds from 1970, it
  -- stands for the account's id and role.
  pub signup_then_login :
      (env env' : Env) (deps : Deps R) (hashes : BcryptLaws deps.bcrypt) (tokens : JwtLaws deps.jwt)
      (email email' password role token : String) (db db' db'' : Db) (u : User) (now : Time)
      → IsValid db
      → db.next_id < 2 ^ 63
      → signup env deps email password role db ≡ (ok u, db')
      → Steps db' db''
      → clean email' ≡ clean email
      → env'.query_fault ≡ none
      → numeric_date (env'.now + deps.expires_in) ≤ 2 ^ 53
      → deps.jwt.sign deps.secret (claims_json (claims_of deps env'.now u)) ≡ ok token
      → now < (numeric_date (env'.now + deps.expires_in) + epoch) * second
      → (login env' deps email' password db'' ≡ ok (token, u))
        × (validate_token deps now token ≡ ok (u.id, u.role))
  signup_then_login env env' deps hashes tokens email email' password role token db db' db'' u now
        valid few made steps same calm near signed early =
      let signed_up : IsSignedUp env deps email password role db u db' =
        subst (SignupCase env deps email password role db) made
          (signup-SignupCase env deps email password role db) in
      let id : u.id ≡ pos db.next_id = ap (λ (v : User). v.id) signed_up.user in
      let there : find_user (account_email email) db'.rows ≡ some u =
        signed_up_found env deps email password role db db' u signed_up in
      let found : find_user (account_email email') db''.rows ≡ some u =
        rw same (account_stays db' db'' (account_email email) u steps there) in
      (
        login_found env' deps email' password token db'' u calm
            (λ e. signed_up.named (sym same ∙ e)) signed_up.guarded found
            (hashes.matches env.salt deps.cost password u.password_hash signed_up.hashed)
            (ground (arith, id, valid.started)) signed,
        token_valid deps tokens env'.now now u token (ground (arith, id, few)) near signed early,
      )
