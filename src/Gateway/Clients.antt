-- ===== src/Gateway/Clients.antt =====
-- backend/services/api-gateway/internal/clients: the calls of the other services.
use Prim.Native.String.{◌++◌}
use drive_power.Prelude.{
  ℕ, ℤ, pos, negsuc, suc, String, [], ◌∷◌, Assoc, Option, none, ◌||◌, ◌==◌, string_eq,
  if◌then◌else◌, lookup, insert,
}
use mathlib.Core.Option.{get_or}
use drive_power.Go.{Result, ok, err, Json, Response, format_nat}
use drive_power.Go.Texts.{has_prefix, trim_right_slashes}

-- strconv.FormatInt(n, 10)
unfoldable pub format_int : ℤ → String
format_int (pos n) = format_nat n
format_int (negsuc n) = "-" ++ format_nat (suc n)

-- The body for a request: nil, or bytes that came from elsewhere, which may hold no JSON.
pub data Payload (R : Type 0) : Type 0 where
  nil_body : Payload R
  given : Option (Json R) → Payload R

-- A request that goes out.
pub record Outgoing (R : Type 0) : Type 0 where
  pub method : String
  pub url : String
  pub header : Assoc String String
  pub body : Option (Json R)

-- HTTPDoer: the network, with the state of what is behind it. A request that cannot be built or
-- sent, or is not answered in time or in full, gives an error.
abbrev pub Doer : Type 0 → Type 0 → Type 0
Doer R W = Outgoing R → W → Result (Response R) × W

-- NewBaseClient
unfoldable pub base_url : String → String
base_url url = trim_right_slashes url

abbrev rooted : String → String
rooted path = if has_prefix path "/" then path else "/" ++ path

unfoldable pub build_url : String → String → String
build_url base path =
    if has_prefix path "http://" || has_prefix path "https://" then path else base ++ rooted path

-- What a proxied call brings: the status and the body of the answer.
pub record Reply (R : Type 0) : Type 0 where
  pub status : ℕ
  pub body : Json R

module _ {R : Type 0} where
  -- `body != nil && req.Header.Get("Content-Type") == ""`
  abbrev with_type : Payload R → Assoc String String → Assoc String String
  with_type nil_body header = header
  with_type (given j) header =
      if get_or (lookup "Content-Type" header) "" == ""
      then insert "Content-Type" "application/json" header
      else header

  abbrev bytes_of : Payload R → Option (Json R)
  bytes_of nil_body = none
  bytes_of (given j) = j

  unfoldable pub outgoing : String → String → String → Payload R → Assoc String String → Outgoing R
  outgoing base method path body header = record {
    method = method;
    url = build_url base path;
    header = with_type body header;
    body = bytes_of body;
  }

  abbrev pub replied : Result (Response R) → Result (Reply R)
  replied (err e) = err e
  replied (ok r) = ok (record { status = r.status; body = r.body })

module _ {R W : Type 0} where
  unfoldable pub send :
      Doer R W
      → String
      → String
      → String
      → Payload R
      → Assoc String String
      → W
      → Result (Reply R) × W
  send doer base method path body header w =
      let (out, w') = doer (outgoing base method path body header) w in (replied out, w')

  -- AuthClient
  unfoldable pub signup : Doer R W → String → Option (Json R) → W → Result (Reply R) × W
  signup doer base body w = send doer base "POST" "/auth/signup" (given body) [] w

  unfoldable pub login : Doer R W → String → Option (Json R) → W → Result (Reply R) × W
  login doer base body w = send doer base "POST" "/auth/login" (given body) [] w

  -- SessionsClient, BillingClient and StationsClient
  unfoldable pub sessions_for_user : Doer R W → String → ℤ → W → Result (Reply R) × W
  sessions_for_user doer base user w =
      send doer base "GET" "/sessions/me" nil_body (("X-User-ID", format_int user) ∷ []) w

  unfoldable pub transactions_for_user : Doer R W → String → ℤ → W → Result (Reply R) × W
  transactions_for_user doer base user w =
      send doer base "GET" "/billing/me/transactions" nil_body (("X-User-ID", format_int user) ∷ [])
        w

  unfoldable pub list_stations : Doer R W → String → W → Result (Reply R) × W
  list_stations doer base w = send doer base "GET" "/stations" nil_body [] w
