-- ===== src/Csms/Offers.antt =====
-- What a request for an upgrade (csms/internal/ws/simple.go) asks for and offers.
use drive_power.Prelude.{
  All, String, List, [], ◌∷◌, true, false, ◌≡◌, ◌≢◌, refl, arith, ◌⊎◌, inl, inr, ◌==◌, ==_iff,
  ==_differ, string_eq, Bool-cases, sym, subst, ◌∙◌, ◌↔◌,
}
use drive_power.Go.Texts.{trim_space, trim_left, trim_right, equal_fold, split_at}
use drive_power.Csms.Upgrades.{
  Header, header_contains_token, header_value, values_of, any_part, any_value, trimmed_parts,
  parse_subprotocols, is_offered, choose,
}

abbrev pub offers_of : Header → List String
offers_of request = parse_subprotocols (header_value "Sec-Websocket-Protocol" request)

abbrev pub Any : (String → Type 0) → List String → Type 0
Any P [] = ⊥
Any P (x ∷ xs) = P x ⊎ Any P xs

-- A header asks for a token: one of the parts between the commas of one of its values is the token,
-- without space around it and whatever the case of its letters.
abbrev pub AsksFor : Header → String → String → Type 0
AsksFor h key token =
    Any (λ v. Any (λ part. equal_fold (trim_space part) token ≡ true) (split_at b',' v))
      (values_of key h)

any_part-Any :
    (token : String) (parts : List String)
    → any_part token parts ≡ true
    → Any (λ part. equal_fold (trim_space part) token ≡ true) parts
unfolding any_part
any_part-Any token [] h = ground (arith, h)
any_part-Any token (part ∷ parts) h = elim (Bool-cases (equal_fold (trim_space part) token)) [
  | inl e ↦ inl e
  | inr e ↦ inr (any_part-Any token parts (ground (arith, h, e)))
]

any_value-Any :
    (token : String) (values : List String)
    → any_value token values ≡ true
    → Any (λ v. Any (λ part. equal_fold (trim_space part) token ≡ true) (split_at b',' v)) values
unfolding any_value
any_value-Any token [] h = ground (arith, h)
any_value-Any token (v ∷ vs) h = elim (Bool-cases (any_part token (split_at b',' v))) [
  | inl e ↦ inl (any_part-Any token (split_at b',' v) e)
  | inr e ↦ inr (any_value-Any token vs (ground (arith, h, e)))
]

pub header_contains_token-AsksFor :
    (h : Header) (key token : String)
    → any_value token ("" ∷ []) ≡ false
    → header_contains_token h key token ≡ true
    → AsksFor h key token
unfolding header_contains_token
header_contains_token-AsksFor h key token blank q = go (values_of key h) refl
  where
    go :
        (values : List String)
        → values_of key h ≡ values
        → Any
            (λ v. Any (λ part. equal_fold (trim_space part) token ≡ true) (split_at b',' v))
            values
    go [] e = absurd (ground (arith, e, q, blank))
    go (v ∷ vs) e = any_value-Any token (v ∷ vs) (ground (arith, e, q))

Any-any_part :
    (token : String) (parts : List String)
    → Any (λ part. equal_fold (trim_space part) token ≡ true) parts
    → any_part token parts ≡ true
unfolding any_part
Any-any_part token [] h = absurd h
Any-any_part token (part ∷ parts) (inl e) = ground (arith, e)
Any-any_part token (part ∷ parts) (inr h) = ground (arith, Any-any_part token parts h)

Any-any_value :
    (token : String) (values : List String)
    → Any (λ v. Any (λ part. equal_fold (trim_space part) token ≡ true) (split_at b',' v)) values
    → any_value token values ≡ true
unfolding any_value
Any-any_value token [] h = absurd h
Any-any_value token (v ∷ vs) (inl h) = ground (arith, Any-any_part token (split_at b',' v) h)
Any-any_value token (v ∷ vs) (inr h) = ground (arith, Any-any_value token vs h)

-- A test that fails is of a header that does not ask.
pub not_contained :
    (h : Header) (key token : String)
    → header_contains_token h key token ≡ false
    → ¬ AsksFor h key token
unfolding header_contains_token
not_contained h key token q asks = go (values_of key h) refl
  where
    go : (values : List String) → values_of key h ≡ values → ⊥
    go [] e =
        subst (Any (λ v. Any (λ part. equal_fold (trim_space part) token ≡ true) (split_at b',' v)))
          e asks
    go (v ∷ vs) e =
        let found = Any-any_value token (v ∷ vs) (
          subst
            (Any (λ v. Any (λ part. equal_fold (trim_space part) token ≡ true) (split_at b',' v))) e
            asks) in
        ground (arith, e, q, found)

-- A subprotocol is offered: it is one of the parts between the commas, without space around it.
abbrev pub IsOffered : Header → String → Type 0
IsOffered request sp =
    Any (λ part. trim_space part ≡ sp)
      (split_at b',' (header_value "Sec-Websocket-Protocol" request))

is_offered-Any :
    (sp : String) (parts : List String)
    → sp ≢ ""
    → (is_offered sp (trimmed_parts parts) ≡ true) ↔ Any (λ part. trim_space part ≡ sp) parts
unfolding is_offered trimmed_parts
is_offered-Any sp [] named = (λ h. ground (arith, h), λ h. absurd h)
is_offered-Any sp (part ∷ parts) named = elim (Bool-cases (trim_space part == "")) [
  | inl e ↦
      let blank : trim_space part ≡ "" = (==_iff (trim_space part) "").0 e in
      rw e (
        λ h. inr ((is_offered-Any sp parts named).0 h),
        λ h. elim h [
          | inl same ↦ absurd (named (sym same ∙ blank))
          | inr more ↦ (is_offered-Any sp parts named).1 more
        ],
      )
  | inr e ↦ rw e (
    λ h. elim (Bool-cases (trim_space part == sp)) [
      | inl s ↦ inl ((==_iff (trim_space part) sp).0 s)
      | inr s ↦ inr ((is_offered-Any sp parts named).0 (ground (arith, h, s)))
    ],
    λ h. elim h [
      | inl same ↦ ground (arith, (==_iff (trim_space part) sp).1 same)
      | inr more ↦ ground (arith, (is_offered-Any sp parts named).1 more)
    ],
  )
]

parse_subprotocols-IsOffered :
    (request : Header) (sp : String)
    → sp ≢ ""
    → (is_offered sp (offers_of request) ≡ true) ↔ IsOffered request sp
unfolding parse_subprotocols is_offered split_at trim_space trim_right trim_left
parse_subprotocols-IsOffered request sp named = go (header_value "Sec-Websocket-Protocol" request)
  where
    go :
        (header : String)
        → (is_offered sp (parse_subprotocols header) ≡ true)
          ↔ Any (λ part. trim_space part ≡ sp) (split_at b',' header)
    go header = elim (Bool-cases (header == "")) [
      | inr e ↦ rw (parse_subprotocols, e) (is_offered-Any sp (split_at b',' header) named)
      | inl e ↦
          let blank : header ≡ "" = (==_iff header "").0 e in
          rw blank (
            λ h. ground (arith, h),
            λ h. elim h [ inl same ↦ absurd (named (sym same)) | inr more ↦ absurd more ],
          )
    ]

-- The first of the server's subprotocols that has a name and is offered.
pub data IsFirst (request : Header) : String → List String → Type 0 where
  here :
      (sp : String) (sps : List String)
      → sp ≢ ""
      → IsOffered request sp
      → IsFirst request sp (sp ∷ sps)
  later :
      (sp other : String) (sps : List String)
      → (¬ IsOffered request other) ⊎ (other ≡ "")
      → IsFirst request sp sps
      → IsFirst request sp (other ∷ sps)

pub choose-IsFirst :
    (sps : List String) (request : Header)
    → choose sps (offers_of request) ≢ ""
    → IsFirst request (choose sps (offers_of request)) sps
unfolding choose
choose-IsFirst [] request h = absurd (h refl)
choose-IsFirst (sp ∷ sps) request h = elim (Bool-cases (sp == "")) [
  | inl e ↦
      let more : choose sps (offers_of request) ≢ "" = ground (arith, h, e, ==_iff sp "") in
      subst (λ (x : String). IsFirst request x (sp ∷ sps)) (sym (ground (arith, e)))
        (later _ sp sps (inr ((==_iff sp "").0 e)) (choose-IsFirst sps request more))
  | inr e ↦
      let named = ==_differ sp "" e in
      elim (Bool-cases (is_offered sp (offers_of request))) [
        | inr o ↦
            let more : choose sps (offers_of request) ≢ "" = ground (arith, h, o) in
            rw o (
              later _ sp sps
                (inl (λ offered.
                  ground (arith, o, (parse_subprotocols-IsOffered request sp named).1 offered)))
                (choose-IsFirst sps request more))
        | inl o ↦
            rw (o, e) (here sp sps named ((parse_subprotocols-IsOffered request sp named).0 o))
      ]
]

-- Where no subprotocol is chosen, none that has a name is offered.
pub choose_none :
    (sps : List String) (request : Header)
    → choose sps (offers_of request) ≡ ""
    → All (λ sp. (¬ IsOffered request sp) ⊎ (sp ≡ "")) sps
unfolding choose
choose_none [] request h = tt
choose_none (sp ∷ sps) request h = elim (Bool-cases (sp == "")) [
  | inl e ↦ (inr ((==_iff sp "").0 e), choose_none sps request (ground (arith, h, e)))
  | inr e ↦ elim (Bool-cases (is_offered sp (offers_of request))) [
    | inl o ↦ absurd (==_differ sp "" e (ground (arith, h, e, o)))
    | inr o ↦ (
      inl (λ offered.
          ground
            (arith, o, (parse_subprotocols-IsOffered request sp (==_differ sp "" e)).1 offered)),
      choose_none sps request (ground (arith, h, o)),
    )
  ]
]
