-- ===== src/Auth/Users.antt =====
-- backend/services/auth-service/internal/repository/user_repo.go: each query is a function on the table.
use drive_power.Prelude.{
  pos, ◌+◌, String, List, [], ◌∷◌, Option, none, some, ◌==◌, string_eq, if◌then◌else◌,
}
use drive_power.Go.{Error, message, driver, Result, ok, err}
use drive_power.Go.Texts.{to_lower, trim_space}
use drive_power.Auth.Model.{User, Db, Env}

abbrev pub user_not_found : Error
user_not_found = message "user not found"

-- The error of Postgres for a value that a UNIQUE column has already.
abbrev pub unique_violation : Error
unique_violation = driver 23505

-- strings.ToLower(strings.TrimSpace(email))
unfoldable pub clean : String → String
clean email = to_lower (trim_space email)

unfoldable pub find_user : String → List User → Option User
find_user email [] = none
find_user email (u ∷ us) = if u.email == email then some u else find_user email us

-- INSERT ... RETURNING id, created_at. The sequence of ids advances also when the UNIQUE column
-- refuses the row.
unfoldable pub insert_user : Env → User → Db → Result User × Db
insert_user env user db = elim (find_user user.email db.rows) [
  | some u ↦ (err unique_violation, record db { next_id = db.next_id + 1 })
  | none ↦ (
    ok (record user { id = pos db.next_id; created_at = env.db_now }),
    record {
      rows = record user { id = pos db.next_id; created_at = env.db_now } ∷ db.rows;
      next_id = db.next_id + 1;
    },
  )
]

unfoldable pub create : Env → User → Db → Result User × Db
create env user db = elim env.insert_fault [
  | some e ↦ (err e, db)
  | none ↦ insert_user env (record user { email = clean user.email }) db
]

abbrev found_user : Option User → Result User
found_user none = err user_not_found
found_user (some u) = ok u

unfoldable pub get_by_email : Env → String → Db → Result User
get_by_email env email db = elim env.query_fault [
  | some e ↦ err e
  | none ↦ found_user (find_user (clean email) db.rows)
]
