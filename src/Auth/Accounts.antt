-- ===== src/Auth/Accounts.antt =====
-- The table `users` over any calls of Create: it is the only statement that writes to it.
use drive_power.Prelude.{
  ℕ, ◌+◌, ◌<◌, ◌≤◌, pos, String, List, [], ◌∷◌, Option, none, some, ◌≡◌, refl, arith, ◌⊎◌, inl, inr,
  ==_iff, string_eq,
}
use drive_power.Go.{Result, ok, err, Error}
use drive_power.Auth.Model.{User, Db, Env}
use drive_power.Auth.Users.{clean, find_user, insert_user, create}

-- The rows from the newest on: an email that no older row has, in the form that `clean` gives, and an
-- id that is positive and above those of the older rows.
pub record IsEntry (n : ℕ) (u : User) (older : List User) : Type 0 where
  pub id : ℕ
  pub same_id : u.id ≡ pos id
  pub positive : 0 < id
  pub below : id < n
  pub raw : String
  pub cleaned : u.email ≡ clean raw
  pub unique : find_user u.email older ≡ none

unfoldable pub AreAccounts : ℕ → List User → Type 0
AreAccounts n [] = Unit
AreAccounts n (u ∷ us) = (e : IsEntry n u us) × AreAccounts e.id us

pub record IsValid (db : Db) : Type 0 where
  pub started : 0 < db.next_id
  pub accounts : AreAccounts db.next_id db.rows

pub data Step : Db → Db → Type 0 where
  created : (env : Env) (user : User) (db : Db) → Step db (create env user db).1

pub data Steps : Db → Db → Type 0 where
  start : (db : Db) → Steps db db
  then_ : (db db' db'' : Db) → Steps db db' → Step db' db'' → Steps db db''

-- The table when the service is first started.
abbrev pub fresh : Db
fresh = record { rows = []; next_id = 1 }

AreAccounts-mono : (n m : ℕ) (us : List User) → n ≤ m → AreAccounts n us → AreAccounts m us
unfolding AreAccounts
AreAccounts-mono n m [] h k = tt
AreAccounts-mono n m (u ∷ us) h (e, k) = (
  record {
    id = e.id;
    same_id = e.same_id;
    positive = e.positive;
    below = omega (arith, e.below);
    raw = e.raw;
    cleaned = e.cleaned;
    unique = e.unique;
  },
  k,
)

-- What Create leaves of a table.
abbrev pub CreateCase : Env → User → Db → Result User × Db → Type 0
CreateCase env user db (err e, db') =
    (db'.rows ≡ db.rows) × ((db'.next_id ≡ db.next_id) ⊎ (db'.next_id ≡ db.next_id + 1))
CreateCase env user db (ok u, db') =
    (u ≡ record user { id = pos db.next_id; email = clean user.email; created_at = env.db_now })
    × (find_user (clean user.email) db.rows ≡ none)
    × (db' ≡ record { rows = u ∷ db.rows; next_id = db.next_id + 1 })

insert_user-CreateCase :
    (env : Env) (user : User) (db : Db)
    → CreateCase env user db (insert_user env (record user { email = clean user.email }) db)
unfolding insert_user
insert_user-CreateCase env user db = go (find_user (clean user.email) db.rows) refl
  where
    go :
        (o : Option User)
        → find_user (clean user.email) db.rows ≡ o
        → CreateCase env user db (insert_user env (record user { email = clean user.email }) db)
    go none q = rw (q, insert_user) (refl, q, refl)
    go (some u) q = rw (q, insert_user) (refl, inr refl)

pub create-CreateCase :
    (env : Env) (user : User) (db : Db) → CreateCase env user db (create env user db)
unfolding create
create-CreateCase env user db = go env.insert_fault refl
  where
    go : (o : Option Error) → env.insert_fault ≡ o → CreateCase env user db (create env user db)
    go none q = rw (q, create) (insert_user-CreateCase env user db)
    go (some e) q = rw (q, create) (refl, inl refl)

step-IsValid :
    (env : Env) (user : User) (db : Db) (out : Result User × Db)
    → CreateCase env user db out
    → IsValid db
    → IsValid out.1
unfolding AreAccounts
step-IsValid env user db (err e, db') (rows, next) v = record {
  started = ground (arith, next, v.started);
  accounts =
      rw rows (AreAccounts-mono db.next_id db'.next_id db.rows (ground (arith, next)) v.accounts);
}
step-IsValid env user db (ok u, db') (made, unused, after) v =
    rw (after, made)
      (record {
        started = omega arith;
        accounts = (
          record {
            id = db.next_id;
            same_id = refl;
            positive = v.started;
            below = omega arith;
            raw = user.email;
            cleaned = refl;
            unique = unused;
          },
          v.accounts,
        );
      })

-- However the service is called, no two accounts have one email or one id, ids are positive and
-- below the next, and emails are stored in lower case without space around them.
pub accounts-IsValid : (db db' : Db) → IsValid db → Steps db db' → IsValid db'
accounts-IsValid db db' v (start _) = v
accounts-IsValid db db'' v (then_ _ db' _ steps (created env user _)) =
    step-IsValid env user db' (create env user db') (create-CreateCase env user db')
      (accounts-IsValid db db' v steps)

pub fresh-IsValid : IsValid fresh
unfolding AreAccounts
fresh-IsValid = record { started = omega arith; accounts = tt }

-- An account that is there stays as it is.
step-keeps :
    (env : Env) (user : User) (db : Db) (out : Result User × Db) (email : String) (u : User)
    → CreateCase env user db out
    → find_user email db.rows ≡ some u
    → find_user email out.1.rows ≡ some u
unfolding find_user
step-keeps env user db (err e, db') email u (rows, next) h = rw rows h
step-keeps env user db (ok v, db') email u (made, unused, after) h =
    rw (after, made) (ground (arith, h, unused, ==_iff (clean user.email) email))

pub account_stays :
    (db db' : Db) (email : String) (u : User)
    → Steps db db'
    → find_user email db.rows ≡ some u
    → find_user email db'.rows ≡ some u
account_stays db db' email u (start _) h = h
account_stays db db'' email u (then_ _ db' _ steps (created env user _)) h =
    step-keeps env user db' (create env user db') email u (create-CreateCase env user db')
      (account_stays db db' email u steps h)
