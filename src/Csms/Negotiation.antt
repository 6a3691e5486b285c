-- ===== src/Csms/Negotiation.antt =====
-- What a successful upgrade of csms/internal/ws/simple.go rests on.
use Prim.Native.String.{◌++◌ as append}
use drive_power.Prelude.{
  All, arith, String, List, [], ◌∷◌, Option, none, some, Bool, true, false, ◌≡◌, ◌≢◌, refl, ◌⊎◌,
  inl, inr, ◌==◌, ==_iff, ==_differ, string_eq, Bool-cases, ◌∙◌, lookup, lookup-insert,
}
use drive_power.Go.{ok, err}
use drive_power.Go.Texts.{trim_space, trim_left, trim_right, equal_fold, split_at}
use drive_power.Go.Digests.{base64, sha1, bytes_of}
use drive_power.Csms.Conn.{Conn}
use drive_power.Csms.Upgrades.{
  Header, Upgrader, Outcome, Hijack, unsupported, fails, hijacked, header_contains_token,
  header_value, any_part, any_value, compute_accept_key, choose, handshake_header, take_over,
  upgrade_with, upgrade,
}
use drive_power.Csms.Offers.{
  offers_of, AsksFor, header_contains_token-AsksFor, IsFirst, choose-IsFirst, IsOffered,
  not_contained, choose_none,
}

-- The key of the client, without space around it.
abbrev key_of : Header → String
key_of request = trim_space (header_value "Sec-Websocket-Key" request)

-- The subprotocol of a connection: none where the server has none, else the first that is offered.
abbrev IsAgreed : Upgrader → Header → String → Type 0
IsAgreed u request sp = ((u.subprotocols ≡ []) × (sp ≡ "")) ⊎ IsFirst request sp u.subprotocols

-- The header of the answer: the switch to a websocket, the digest of the key with the text that RFC 6455
-- gives, and the subprotocol, if any.
pub record IsAnnounced (key sp : String) (sent : Header) : Type 0 where
  pub upgrade : lookup "Upgrade" sent ≡ some ("websocket" ∷ [])
  pub connection : lookup "Connection" sent ≡ some ("Upgrade" ∷ [])
  pub accept :
      lookup "Sec-Websocket-Accept" sent
      ≡ some (base64 (sha1 (bytes_of (append key "258EAFA5-E914-47DA-95CA-C5AB0DC85B11"))) ∷ [])
  pub protocol : (sp ≡ "") ⊎ (lookup "Sec-Websocket-Protocol" sent ≡ some (sp ∷ []))

handshake_header-IsAnnounced :
    (key sp : String) (h : Header) → IsAnnounced key sp (handshake_header key sp h)
unfolding handshake_header compute_accept_key
handshake_header-IsAnnounced key sp h = elim (Bool-cases (sp == "")) [
  | inl e ↦ rw e (record {
    upgrade =
        lookup-insert _ _ _ _
        ∙ lookup-insert _ _ _ _
        ∙ lookup-insert "Upgrade" "Upgrade" ("websocket" ∷ []) h;
    connection = lookup-insert _ _ _ _ ∙ lookup-insert "Connection" "Connection" ("Upgrade" ∷ []) _;
    accept = lookup-insert "Sec-Websocket-Accept" "Sec-Websocket-Accept" _ _;
    protocol = inl ((==_iff sp "").0 e);
  })
  | inr e ↦ rw e (record {
    upgrade =
        lookup-insert _ _ _ _
        ∙ lookup-insert _ _ _ _
        ∙ lookup-insert _ _ _ _
        ∙ lookup-insert "Upgrade" "Upgrade" ("websocket" ∷ []) h;
    connection =
        lookup-insert _ _ _ _
        ∙ lookup-insert _ _ _ _
        ∙ lookup-insert "Connection" "Connection" ("Upgrade" ∷ []) _;
    accept =
        lookup-insert _ _ _ _ ∙ lookup-insert "Sec-Websocket-Accept" "Sec-Websocket-Accept" _ _;
    protocol = inr (lookup-insert "Sec-Websocket-Protocol" "Sec-Websocket-Protocol" _ _);
  })
]

pub record IsNegotiated (u : Upgrader) (request : Header) (c : Conn) (switched : Option Header)
    : Type 0 where
  pub allowed : u.origin_allowed ≡ true
  pub connection : AsksFor request "Connection" "Upgrade"
  pub websocket : AsksFor request "Upgrade" "websocket"
  pub keyed : key_of request ≢ ""
  pub agreed : IsAgreed u request c.subprotocol
  pub sent : Header
  pub answered : switched ≡ some sent
  pub announced : IsAnnounced (key_of request) c.subprotocol sent

-- Why an upgrade is refused before anything is written.
abbrev pub IsRefusable : Upgrader → Header → Hijack → Type 0
IsRefusable u request j =
    (u.origin_allowed ≡ false)
    ⊎ (¬ AsksFor request "Connection" "Upgrade")
    ⊎ (¬ AsksFor request "Upgrade" "websocket")
    ⊎ (key_of request ≡ "")
    ⊎ ((u.subprotocols ≢ []) × All (λ sp. (¬ IsOffered request sp) ⊎ (sp ≡ "")) u.subprotocols)
    ⊎ (j ≡ unsupported)
    ⊎ ((text : String) × (j ≡ fails text))

-- What an upgrade comes to: a connection; or an error, with nothing written and a reason, or because
-- the writing of the handshake failed.
abbrev pub UpgradeCase : Upgrader → Header → Hijack → Outcome → Type 0
UpgradeCase u request j o = elim o.result [
  | err e ↦
      ((o.switched ≡ none) × IsRefusable u request j) ⊎ ((c : Conn) × (j ≡ hijacked c (some e)))
  | ok c ↦ IsNegotiated u request c o.switched
]

-- What the tests before the hijacking have found.
record IsTested (u : Upgrader) (request : Header) : Type 0 where
  pub allowed : u.origin_allowed ≡ true
  pub connection : header_contains_token request "Connection" "Upgrade" ≡ true
  pub websocket : header_contains_token request "Upgrade" "websocket" ≡ true
  pub keyed : key_of request ≢ ""

no_upgrade : any_value "Upgrade" ("" ∷ []) ≡ false
unfolding any_value any_part split_at trim_space trim_left trim_right equal_fold
no_upgrade = refl

no_websocket : any_value "websocket" ("" ∷ []) ≡ false
unfolding any_value any_part split_at trim_space trim_left trim_right equal_fold
no_websocket = refl

take_over-UpgradeCase :
    (u : Upgrader) (request h : Header) (sp : String) (j : Hijack)
    → IsTested u request
    → IsAgreed u request sp
    → UpgradeCase u request j (take_over (key_of request) sp h j)
unfolding take_over
take_over-UpgradeCase u request h sp unsupported t agreed =
    inl (refl, inr (inr (inr (inr (inr (inl (refl)))))))
take_over-UpgradeCase u request h sp (fails text) t agreed =
    inl (refl, inr (inr (inr (inr (inr (inr (text, refl)))))))
take_over-UpgradeCase u request h sp (hijacked c (some e)) t agreed = inr (c, refl)
take_over-UpgradeCase u request h sp (hijacked c none) t agreed = record {
  allowed = t.allowed;
  connection = header_contains_token-AsksFor request "Connection" "Upgrade" no_upgrade t.connection;
  websocket = header_contains_token-AsksFor request "Upgrade" "websocket" no_websocket t.websocket;
  keyed = t.keyed;
  agreed = agreed;
  sent = handshake_header (key_of request) sp h;
  answered = refl;
  announced = handshake_header-IsAnnounced (key_of request) sp h;
}

abbrev server : Bool → List String → Upgrader
server allowed sps = record { subprotocols = sps; origin_allowed = allowed }

upgrade_with-UpgradeCase :
    (allowed : Bool) (sps : List String) (request h : Header) (j : Hijack)
    → IsTested (server allowed sps) request
    → UpgradeCase
        (server allowed sps)
        request
        j
        (upgrade_with (server allowed sps) request (key_of request) h j)
unfolding upgrade_with
upgrade_with-UpgradeCase allowed [] request h j t =
    take_over-UpgradeCase (server allowed []) request h "" j t (inl (refl, refl))
upgrade_with-UpgradeCase allowed (sp ∷ sps) request h j t =
    elim (Bool-cases (choose (sp ∷ sps) (offers_of request) == "")) [
      | inl e ↦ rw e (
          inl (
            refl,
            inr (
                inr (
                  inr (
                    inr (
                      inl (
                        λ q. ground (arith, q),
                        choose_none (sp ∷ sps) request ((==_iff _ "").0 e),
                      ))))),
          ))
      | inr e ↦ rw e (
          take_over-UpgradeCase (server allowed (sp ∷ sps)) request h _ j t
            (inr (choose-IsFirst (sp ∷ sps) request (==_differ _ "" e))))
    ]

tested-UpgradeCase :
    (allowed : Bool) (sps : List String) (request h : Header) (j : Hijack)
    → UpgradeCase (server allowed sps) request j (upgrade (server allowed sps) request h j)
unfolding upgrade
tested-UpgradeCase false sps request h j = inl (refl, inl refl)
tested-UpgradeCase true sps request h j =
    elim (Bool-cases (header_contains_token request "Connection" "Upgrade")) [
      | inr c ↦ rw c (inl (refl, inr (inl (not_contained request "Connection" "Upgrade" c))))
      | inl c ↦ elim (Bool-cases (header_contains_token request "Upgrade" "websocket")) [
        | inr w ↦
            rw (c, w) (inl (refl, inr (inr (inl (not_contained request "Upgrade" "websocket" w)))))
        | inl w ↦ elim (Bool-cases (key_of request == "")) [
          | inl k ↦
              rw (c, w, k) (inl (refl, inr (inr (inr (inl ((==_iff (key_of request) "").0 k))))))
          | inr k ↦
              rw (c, w, k)
                (upgrade_with-UpgradeCase true sps request h j (record {
                  allowed = refl;
                  connection = c;
                  websocket = w;
                  keyed = ==_differ (key_of request) "" k;
                }))
        ]
      ]
    ]

-- An upgrade that succeeds is of a request whose origin is allowed, that asks for a websocket in both
-- headers and has a key; the subprotocol of the connection is the server's first that the client
-- offers, and none where the server has none; and the answer announces the switch, the key's digest
-- and that subprotocol. An upgrade fails only where one of these does not hold, where the connection is
-- not handed over, or where the writing of the answer fails; nothing is written then, except in the last case.
pub upgrade-UpgradeCase :
    (u : Upgrader) (request h : Header) (j : Hijack)
    → UpgradeCase u request j (upgrade u request h j)
upgrade-UpgradeCase u request h j = tested-UpgradeCase u.origin_allowed u.subprotocols request h j
