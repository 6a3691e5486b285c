-- ===== src/Auth/Tests.antt =====
-- The auth service on concrete input: a library that signs the token of one account, and a hash that
-- is the password behind its salt.
use Prim.Native.String.{◌++◌}
use drive_power.Prelude.{
  ℕ, ℤ, pos, ◌+◌, ◌*◌, ◌<◌, String, [], ◌∷◌, subst, lookup, none, some, Bool, true, false, ◌&&◌,
  ◌≡◌, refl, sym, ap, ◌∙◌, arith, ltb, ◌==◌, ==_iff, string_eq, int_eq, if◌then◌else◌,
}
use drive_power.Go.{
  Error, message, Result, ok, err, Time, Json, int, str, null, bool, float, time, arr, obj, Fields,
  end, field, get,
}
use drive_power.Auth.Model.{User, Db, Env, Deps, Bcrypt, BcryptLaws}
use drive_power.Go.{Request, decode_body, write_json, mux, method, fields_of, as_string}
use drive_power.Go.Texts.{to_lower, trim_space, is_space, trim_left, trim_right}
use drive_power.Auth.Users.{clean, create, insert_user, find_user, get_by_email}
use drive_power.Auth.Tokens.{claims_json, generate_token, validate_token, hash_password}
use drive_power.Auth.Service.{signup, signup_clean, register, login, login_user}
use drive_power.Auth.Accounts.{
  Step, created, Steps, start, then_, fresh, IsValid, fresh-IsValid, accounts-IsValid,
}
use drive_power.Auth.Signups.{SignupCase, signup-SignupCase}
use drive_power.Auth.Logins.{claims_of, signup_then_login, login-LoginCase, LoginCase}
use drive_power.Auth.Handlers.{decode_login, login_reply, handle_login, routes, router}
use drive_power.Auth.Replies.{login_route, ReplyAt, auth_endpoints}
use drive_power.Go.Jwts.{Jwt, JwtLaws, dated_claims, epoch, second}

unfoldable pub int_is : ℤ → Json ℤ → Bool
int_is n (int z) = z == n
int_is n _ = false

int_is_sound : (n : ℤ) (j : Json ℤ) → int_is n j ≡ true → j ≡ int n
unfolding int_is
int_is_sound n (int z) h = ap int ((==_iff z n).0 h)
int_is_sound n _ h = absurd (ground (arith, h))

unfoldable pub str_is : String → Json ℤ → Bool
str_is t (str s) = s == t
str_is t _ = false

str_is_sound : (t : String) (j : Json ℤ) → str_is t j ≡ true → j ≡ str t
unfolding str_is
str_is_sound t (str s) h = ap str ((==_iff s t).0 h)
str_is_sound t _ h = absurd (ground (arith, h))

-- The instant of the login, and the claims of the account.
abbrev pub at : Time
at = (epoch + 1_767_000_000) * second

abbrev pub sample_claims : Fields ℤ
sample_claims = field "user_id" (int (pos 1)) (
    field "role" (str "user")
      (field "exp" (int (pos 1_767_003_600)) (field "iat" (int (pos 1_767_000_000)) end)))

unfoldable pub is_sample : Fields ℤ → Bool
unfolding int_is str_is
is_sample (field a u (field b r (field c e (field d i end)))) =
    (a == "user_id" && b == "role" && c == "exp" && d == "iat")
    && (int_is (pos 1) u
        && str_is "user" r
        && int_is (pos 1_767_003_600) e
        && int_is (pos 1_767_000_000) i)
is_sample _ = false

is_sample_sound : (c : Fields ℤ) → is_sample c ≡ true → c ≡ sample_claims
unfolding is_sample
is_sample_sound (field a u (field b r (field c e (field d i end)))) h = ground (
  arith,
  h,
  ==_iff a "user_id",
  ==_iff b "role",
  ==_iff c "exp",
  ==_iff d "iat",
  int_is_sound (pos 1) u,
  str_is_sound "user" r,
  int_is_sound (pos 1_767_003_600) e,
  int_is_sound (pos 1_767_000_000) i,
)
is_sample_sound _ h = absurd (ground (arith, h))

unfoldable pub sample_jwt : Jwt ℤ
unfolding is_sample
sample_jwt = record {
  sign = λ secret claims.
      if (secret == "secret") && is_sample claims
      then ok "t.o.k"
      else err (message "no such account");
  parse = λ key now token. elim (key true) [
    | err e ↦ err e
    | ok secret ↦
        if ltb now ((1_767_003_600 + epoch) * second)
        then ok (record { claims = sample_claims; valid = true })
        else err (message "token is expired")
  ];
}

verified_once :
    (secret token : String) (claims : Fields ℤ) (key : Bool → Result String) (expiry : ℕ)
    (now : Time)
    → sample_jwt.sign secret claims ≡ ok token
    → get "exp" claims ≡ int (pos expiry)
    → now < (expiry + epoch) * second
    → key true ≡ ok secret
    → sample_jwt.parse key now token ≡ ok (record { claims = claims; valid = true })
unfolding sample_jwt drive_power.Go.get
verified_once secret token claims key expiry now signed expires early keyed =
    let same : claims ≡ sample_claims = is_sample_sound claims (ground (arith, signed)) in
    let ends : int (pos 1_767_003_600) ≡ int (pos expiry) = ap (get "exp") (sym same) ∙ expires in
    let fits : 1_767_003_600 ≡ expiry = cc ends in ground (arith, keyed, same, fits, early)

pub sample_jwt_laws : JwtLaws sample_jwt
unfolding sample_jwt drive_power.Go.get
sample_jwt_laws = record {
  verified = λ secret token role user expiry issued key now signed fits near early keyed.
      verified_once secret token (dated_claims user role expiry issued) key expiry now signed refl
        early keyed;
}

abbrev pub sample_bcrypt : Bcrypt
sample_bcrypt = record {
  default_cost = pos 10;
  generate = λ salt cost password. ok ("#" ++ password);
  compare = λ hash password.
      if hash == "#" ++ password then ok tt else err (message "hash and password differ");
}

sample_bcrypt_laws : BcryptLaws sample_bcrypt
sample_bcrypt_laws = record {
  matches = λ salt cost password hash h.
      let same : "#" ++ password ≡ hash = cc h in
      ground (arith, same, ==_iff hash ("#" ++ password));
}

abbrev pub sample_deps : Deps ℤ
sample_deps = record {
  bcrypt = sample_bcrypt;
  jwt = sample_jwt;
  cost = pos 10;
  secret = "secret";
  expires_in = 3600 * second;
}

abbrev pub calm : Env
calm = record { now = at; db_now = at; query_fault = none; insert_fault = none; salt = 0 }

-- An account of Ann, and one of Bob after it.
abbrev pub ann : User
ann = record {
  id = pos 1;
  email = "ann@example.org";
  password_hash = "#pw";
  role = "user";
  created_at = at;
}

abbrev bob : User
bob = record ann { id = pos 0; email = "bob@example.org" }

abbrev pub of_ann : Db
of_ann = record { rows = ann ∷ []; next_id = 2 }

abbrev after_bob : Db
after_bob = record { rows = record bob { id = pos 2 } ∷ ann ∷ []; next_id = 3 }

bob_made : create calm bob of_ann ≡ (ok (record bob { id = pos 2 }), after_bob)
unfolding create insert_user find_user clean to_lower trim_space is_space trim_left trim_right
bob_made = refl

ann_made : signup calm sample_deps " Ann@Example.org" "pw" "" fresh ≡ (ok ann, of_ann)
unfolding signup signup_clean register create insert_user find_user clean to_lower trim_space
    is_space trim_left trim_right get_by_email hash_password
ann_made = refl

bob_joins : Steps of_ann after_bob
bob_joins =
    then_ _ _ _ (start of_ann)
      (subst (Step of_ann) (ap (λ (o : Result User × Db). o.1) bob_made) (created calm bob of_ann))

pub ann_signed :
    sample_deps.jwt.sign "secret" (claims_json (claims_of sample_deps at ann)) ≡ ok "t.o.k"
unfolding sample_jwt is_sample int_is str_is claims_json
ann_signed = refl

spelled : clean "ann@EXAMPLE.org " ≡ clean " Ann@Example.org"
unfolding clean to_lower trim_space is_space trim_left trim_right
spelled = refl

signup_then_login_example :
    (login calm sample_deps "ann@EXAMPLE.org " "pw" after_bob ≡ ok ("t.o.k", ann))
    × (validate_token sample_deps (at + 5) "t.o.k" ≡ ok (pos 1, "user"))
signup_then_login_example =
    signup_then_login calm calm sample_deps sample_bcrypt_laws sample_jwt_laws " Ann@Example.org"
      "ann@EXAMPLE.org " "pw" "" "t.o.k" fresh of_ann after_bob ann (at + 5) fresh-IsValid
      (omega arith) ann_made bob_joins spelled refl (omega arith) ann_signed (omega arith)

accounts-IsValid_example : IsValid (create calm bob fresh).1
accounts-IsValid_example =
    accounts-IsValid fresh (create calm bob fresh).1 fresh-IsValid
      (then_ _ _ _ (start fresh) (created calm bob fresh))

signup-SignupCase_example :
    SignupCase calm sample_deps " Ann@Example.org" "pw" "" fresh
      (signup calm sample_deps " Ann@Example.org" "pw" "" fresh)
signup-SignupCase_example = signup-SignupCase calm sample_deps " Ann@Example.org" "pw" "" fresh

login-LoginCase_example :
    LoginCase calm sample_deps "ann@example.org" "no" of_ann
      (login calm sample_deps "ann@example.org" "no" of_ann)
login-LoginCase_example = login-LoginCase calm sample_deps "ann@example.org" "no" of_ann

abbrev request : Request ℤ
request = record {
  method = "POST";
  path = "/auth/login";
  header = [];
  body = some (obj (field "email" (str "ann@example.org") (field "password" (str "pw") end)));
}

auth_endpoints_example :
    ReplyAt calm sample_deps of_ann request login_route (router calm sample_deps request of_ann)
auth_endpoints_example = auth_endpoints calm sample_deps request of_ann login_route refl

-- The whole login, from the request to the answer.
login_answer :
    (router calm sample_deps request of_ann).0
    ≡ write_json 200 (obj (field "token" (str "t.o.k") (field "token_type" (str "Bearer") end)))
unfolding router routes lookup mux method handle_login decode_login login_reply login login_user
    get_by_email find_user clean to_lower trim_space is_space trim_left trim_right generate_token
    sample_jwt is_sample int_is str_is claims_json write_json fields_of as_string drive_power.Go.get
login_answer = refl
