-- ===== src/Csms/Upgrades.antt =====
-- Upgrader.Upgrade of csms/internal/ws/simple.go: the handshake that turns a request into a Conn.
use Prim.Native.String.{◌++◌}
use drive_power.Prelude.{
  String, List, [], ◌∷◌, Assoc, Option, none, some, Bool, false, ◌==◌, string_eq, if◌then◌else◌,
  lookup, insert, ◌||◌,
}
use drive_power.Go.{Error, message, Result, ok, err}
use drive_power.Go.Texts.{trim_space, equal_fold, split_at}
use drive_power.Go.Digests.{bytes_of, sha1, base64}
use drive_power.Csms.Conn.{Conn}

-- http.Header: the values of each key. The keys are canonical, as Get and Set make them:
-- Sec-WebSocket-Key is written Sec-Websocket-Key.
abbrev pub Header : Type 0
Header = Assoc String (List String)

abbrev pub values_of : String → Header → List String
values_of key h = elim (lookup key h) [ none ↦ [] | some values ↦ values ]

-- Header.Get
abbrev pub first_of : List String → String
first_of [] = ""
first_of (v ∷ vs) = v

abbrev pub header_value : String → Header → String
header_value key h = first_of (values_of key h)

unfoldable pub any_part : String → List String → Bool
any_part token [] = false
any_part token (part ∷ parts) = equal_fold (trim_space part) token || any_part token parts

unfoldable pub any_value : String → List String → Bool
any_value token [] = false
any_value token (v ∷ vs) = any_part token (split_at b',' v) || any_value token vs

-- A key without values stands for one empty value.
unfoldable pub header_contains_token : Header → String → String → Bool
header_contains_token h key token = elim (values_of key h) [
  | [] ↦ any_value token (header_value key h ∷ [])
  | v ∷ vs ↦ any_value token (v ∷ vs)
]

unfoldable pub trimmed_parts : List String → List String
trimmed_parts [] = []
trimmed_parts (part ∷ parts) =
    let rest = trimmed_parts parts in if trim_space part == "" then rest else trim_space part ∷ rest

unfoldable pub parse_subprotocols : String → List String
parse_subprotocols header = if header == "" then [] else trimmed_parts (split_at b',' header)

unfoldable pub is_offered : String → List String → Bool
is_offered sp [] = false
is_offered sp (offer ∷ offers) = offer == sp || is_offered sp offers

-- The loops over the server's subprotocols and the client's offers. They go on past a subprotocol "".
unfoldable pub choose : List String → List String → String
choose [] offered = ""
choose (sp ∷ sps) offered =
    let rest = choose sps offered in
    if is_offered sp offered then (if sp == "" then rest else sp) else rest

-- What the response writer does on Hijack: it cannot be hijacked, fails, or gives the connection;
-- `handshake_fault` is the error of writing the handshake to it, if any.
pub data Hijack : Type 0 where
  unsupported : Hijack
  fails : String → Hijack
  hijacked : Conn → Option Error → Hijack

pub record Upgrader : Type 0 where
  pub subprotocols : List String
  pub origin_allowed : Bool

-- What an upgrade comes to: the header that was written with the status 101, if any, and the Conn or
-- the error. Where the writing fails, the client may have got it in full, in part or not at all.
pub record Outcome : Type 0 where
  pub switched : Option Header
  pub result : Result Conn

abbrev pub refuse : String → Outcome
refuse text = record { switched = none; result = err (message text) }

-- Header.Set
abbrev pub set_header : String → String → Header → Header
set_header key value h = insert key (value ∷ []) h

unfoldable pub compute_accept_key : String → String
compute_accept_key key = base64 (sha1 (bytes_of (key ++ "258EAFA5-E914-47DA-95CA-C5AB0DC85B11")))

unfoldable pub handshake_header : String → String → Header → Header
handshake_header key subprotocol h =
    let h' =
      set_header "Sec-Websocket-Accept" (compute_accept_key key)
        (set_header "Connection" "Upgrade" (set_header "Upgrade" "websocket" h)) in
    if subprotocol == "" then h' else set_header "Sec-Websocket-Protocol" subprotocol h'

-- From the hijacking on.
unfoldable pub take_over : String → String → Header → Hijack → Outcome
take_over key subprotocol h unsupported =
    refuse "websocket: response writer does not support hijacking"
take_over key subprotocol h (fails text) = refuse ("websocket: hijack failed: " ++ text)
take_over key subprotocol h (hijacked c (some e)) = record {
  switched = some (handshake_header key subprotocol h);
  result = err e;
}
take_over key subprotocol h (hijacked c none) = record {
  switched = some (handshake_header key subprotocol h);
  result = ok (record c { subprotocol = subprotocol });
}

unfoldable pub upgrade_with : Upgrader → Header → String → Header → Hijack → Outcome
upgrade_with u request key h hijack = elim u.subprotocols [
  | [] ↦ take_over key "" h hijack
  | sp ∷ sps ↦
      let chosen =
        choose (sp ∷ sps) (parse_subprotocols (header_value "Sec-Websocket-Protocol" request)) in
      if chosen == ""
      then refuse "websocket: required subprotocol not offered"
      else take_over key chosen h hijack
]

unfoldable pub upgrade : Upgrader → Header → Header → Hijack → Outcome
upgrade u request h hijack =
    if u.origin_allowed
    then (if header_contains_token request "Connection" "Upgrade"
        then (if header_contains_token request "Upgrade" "websocket"
            then (let key = trim_space (header_value "Sec-Websocket-Key" request) in
                if key == ""
                then refuse "websocket: missing Sec-WebSocket-Key"
                else upgrade_with u request key h hijack)
            else refuse "websocket: not a websocket handshake")
        else refuse "websocket: not a websocket handshake")
    else refuse "websocket: origin not allowed"
