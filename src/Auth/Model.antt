-- ===== src/Auth/Model.antt =====
-- backend/services/auth-service/internal/models, the table of migrations, and the libraries that hash
-- passwords and sign tokens.
use drive_power.Prelude.{ℕ, ℤ, String, List, Option, ◌≡◌}
use drive_power.Go.{Error, Result, ok, Time}
use drive_power.Go.Jwts.{Jwt}

-- models.User, and a row of the table `users`. The id is a BIGSERIAL.
pub record User : Type 0 where
  pub id : ℤ
  pub email : String
  pub password_hash : String
  pub role : String
  pub created_at : Time

-- The newest row comes first.
pub record Db : Type 0 where
  pub rows : List User
  pub next_id : ℕ

-- What one call meets: `time.Now`, NOW() of Postgres, the errors that Postgres reports of a query and
-- of an insert, if any, and the salt that is drawn for a hash.
pub record Env : Type 0 where
  pub now : Time
  pub db_now : Time
  pub query_fault : Option Error
  pub insert_fault : Option Error
  pub salt : ℕ

-- golang.org/x/crypto/bcrypt
pub record Bcrypt : Type 0 where
  pub default_cost : ℤ
  pub generate : ℕ → ℤ → String → Result String
  pub compare : String → String → Result (Unit {0})

-- A hash that was made from a password matches it.
pub record BcryptLaws (b : Bcrypt) : Type 0 where
  pub matches :
      (salt : ℕ) (cost : ℤ) (password hash : String)
      → b.generate salt cost password ≡ ok hash
      → b.compare hash password ≡ ok tt

-- AuthService with its TokenService, and the libraries that they call.
pub record Deps (R : Type 0) : Type 0 where
  pub bcrypt : Bcrypt
  pub jwt : Jwt R
  pub cost : ℤ
  pub secret : String
  pub expires_in : ℕ
