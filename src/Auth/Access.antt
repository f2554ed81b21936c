-- ===== src/Auth/Access.antt =====
-- Who passes the routes of the API (internal/auth/auth.go).
use distributed_job_processo.Base.{
  ℕ, ◌+◌, ◌<◌, String, ◌≡◌, refl, sym, ap, ◌∙◌, subst, ◌⊎◌, inl, inr, true, false, Option, none,
  some, arith, str_eq, eq_iff, ◌==◌, Bool-cases, Option-cases, some-eq,
}
use Prim.Native.Char.{code}
use Prim.Native.String.{◌++◌ as append, count}
use text.Mathlib.TextEquality.{Char-path}
use text.Mathlib.TextLemmas.{nil-append, cons-append, length-append}
use distributed_job_processo.Auth.{
  Claims, Jwt, AuthConfig, numeric_date, claims_for, generate_token, validate_token, Value, a_role,
  Context, strip_prefix, trim_prefix, refuse, auth_middleware, enter_with, has_permission,
  require_role, route, authenticate_user, login, granted, token_reply,
}

strip_prefix-append : (p t : String) → strip_prefix p (append p t) ≡ some t
unfolding strip_prefix
strip_prefix-append String.[] t = ap some (nil-append t)
strip_prefix-append (String.◌∷◌ c p) t =
    rw (cons-append c p t, strip_prefix-append p t) (ground arith)

append-longer : (p t : String) → 0 < count p → str_eq t (append p t) ≡ false
append-longer p t longer = elim (Bool-cases (str_eq t (append p t))) [
  | inl e ↦
      let same = ap count ((eq_iff t (append p t)).0 e) in
      let sizes = length-append p t in ground arith
  | inr e ↦ e
]

append-not_empty : (p t : String) → 0 < count p → str_eq (append p t) "" ≡ false
append-not_empty p t longer = elim (Bool-cases (str_eq (append p t) "")) [
  | inl e ↦
      let same = ap count ((eq_iff (append p t) "").0 e) in
      let sizes = length-append p t in ground arith
  | inr e ↦ e
]

strip_prefix_sound : (p s t : String) → strip_prefix p s ≡ some t → s ≡ append p t
unfolding strip_prefix
strip_prefix_sound String.[] s t h = some-eq s t h ∙ sym (nil-append t)
strip_prefix_sound (String.◌∷◌ c p) String.[] t h = ground arith
strip_prefix_sound (String.◌∷◌ c p) (String.◌∷◌ d s) t h = elim (Bool-cases (code c == code d)) [
  | inl e ↦
      ap (String.◌∷◌ d) (strip_prefix_sound p s t (ground arith))
      ∙ ap (λ x. String.◌∷◌ x (append p t)) (Char-path d c (ground arith))
      ∙ sym (cons-append c p t)
  | inr e ↦ ground arith
]

token_reply-granted :
    (role asked : String) (o : Option String) (token : String)
    → token_reply asked o ≡ granted token role
    → (o ≡ some token) × (asked ≡ role)
token_reply-granted role asked none token h = ground arith
token_reply-granted role asked (some t) token h = ground arith

login-granted :
    (jwt : Jwt) (config : AuthConfig) (now later : ℕ) (username password token role : String)
    → config.enabled ≡ true
    → login jwt config now later username password ≡ granted token role
    → jwt.sign config.jwt_secret (claims_for config now later username role) ≡ some token
unfolding login generate_token
login-granted jwt config now later username password token role enabled h =
    let asked = authenticate_user username password in
    elim (Bool-cases (str_eq asked "")) [
      | inl e ↦ ground arith
      | inr e ↦
          let both =
            token_reply-granted role asked
              (jwt.sign config.jwt_secret (claims_for config now later username asked)) token
              (sym (rw (enabled, e) refl) ∙ h) in
          subst
            (λ x. jwt.sign config.jwt_secret (claims_for config now later username x) ≡ some token)
            both.1 both.0
    ]

-- The chain is stopped with an error and no handler has run.
abbrev pub Refused : Context → Context → Type 0
Refused c after =
    (status : ℕ) × (error : String) × (user : Option String) × (role : Option Value) × ((status
        ≡ 401)
      ⊎ (status ≡ 403))
    × (after ≡ refuse status error (record c { user_id = user; role = role }))

-- The handler has run as the user of a valid token of the header, whose role is enough.
abbrev pub Admitted :
    Jwt
    → AuthConfig
    → (now : ℕ) → String
    → (handler : Context → Context) → Context
    → Context
    → Type 0
Admitted jwt config now required handler c after =
    (token : String) × (claims : Claims) × (c.authorization ≡ append "Bearer " token)
    × (jwt.parse config.jwt_secret now token ≡ some claims)
    × (has_permission claims.role required ≡ true)
    × (after
        ≡ handler (record c { user_id = some claims.user_id; role = some (a_role claims.role) }))

module _ (jwt : Jwt) (config : AuthConfig) (enabled : config.enabled ≡ true) where
  route-bearer :
      (now : ℕ) (required token : String) (handler : Context → Context) (c : Context)
      → c.authorization ≡ append "Bearer " token
      → route jwt config now required handler c
        ≡ enter_with
            (require_role config required handler)
            (jwt.parse config.jwt_secret now token)
            c
  unfolding route auth_middleware trim_prefix validate_token
  route-bearer now required token handler c h =
      let longer = append-longer "Bearer " token (ground arith) in
      let not_empty = append-not_empty "Bearer " token (ground arith) in
      rw (enabled, h, strip_prefix-append "Bearer " token, longer, not_empty) refl

  -- A user who logs in gets a token with which every route that the role permits runs its
  -- handler, as that user, until the whole second in which the token ends: when signing claims
  -- whose times are whole seconds succeeds, parsing the token with the same secret before its end
  -- gives the claims back.
  pub login-Admits :
      (reads_back : (c : Claims) (end begin now : ℕ) (token : String)
        → c.expires_at ≡ some (numeric_date end)
        → c.issued_at ≡ some (numeric_date begin)
        → now < numeric_date end
        → jwt.sign config.jwt_secret c ≡ some token
        → jwt.parse config.jwt_secret now token ≡ some c)
      → (issued later now : ℕ) (username password token role required : String)
        (handler : Context → Context) (c : Context)
      → login jwt config issued later username password ≡ granted token role
      → now < numeric_date (issued + config.token_ttl)
      → has_permission role required ≡ true
      → c.authorization ≡ append "Bearer " token
      → route jwt config now required handler c
        ≡ handler (record c { user_id = some username; role = some (a_role role) })
  unfolding require_role
  login-Admits reads_back issued later now username password token role required handler c logged
        in_time permitted bearer =
      route-bearer now required token handler c bearer
      ∙ ap (λ o. enter_with (require_role config required handler) o c)
          (reads_back (claims_for config issued later username role) (issued + config.token_ttl)
            later now token refl refl in_time
            (login-granted jwt config issued later username password token role enabled logged))
      ∙ rw (enabled, permitted) refl

  entered :
      (now : ℕ) (required token : String) (handler : Context → Context) (c : Context)
      (parsed : Option Claims)
      → c.authorization ≡ append "Bearer " token
      → jwt.parse config.jwt_secret now token ≡ parsed
      → Admitted jwt config now required handler c
          (enter_with (require_role config required handler) parsed c)
        ⊎ Refused c (enter_with (require_role config required handler) parsed c)
  unfolding require_role
  entered now required token handler c none bearer h =
      inr (401, "Invalid token", c.user_id, c.role, inl refl, refl)
  entered now required token handler c (some claims) bearer h =
      elim (Bool-cases (has_permission claims.role required)) [
        | inl e ↦ inl (token, claims, bearer, h, e, rw (enabled, e) refl)
        | inr e ↦ inr (
          403,
          "Insufficient permissions",
          some claims.user_id,
          some (a_role claims.role),
          inr refl,
          rw (enabled, e) refl,
        )
      ]

  no_bearer :
      (now : ℕ) (required : String) (handler : Context → Context) (c : Context)
      → strip_prefix "Bearer " c.authorization ≡ none
      → Refused c (route jwt config now required handler c)
  unfolding route auth_middleware trim_prefix
  no_bearer now required handler c h = elim (Bool-cases (str_eq c.authorization "")) [
    | inl e ↦
        (401, "Authorization header required", c.user_id, c.role, inl refl, rw (enabled, e) refl)
    | inr e ↦ (
      401,
      "Bearer token required",
      c.user_id,
      c.role,
      inl refl,
      rw (enabled, e, h, (eq_iff c.authorization c.authorization).1 refl) refl,
    )
  ]

  -- A request is answered with 401 or 403 and the chain stops with no handler run, or the handler
  -- runs as the user of a valid token of the header whose role is enough.
  pub route-Guards :
      (now : ℕ) (required : String) (handler : Context → Context) (c : Context)
      → Admitted jwt config now required handler c (route jwt config now required handler c)
        ⊎ Refused c (route jwt config now required handler c)
  route-Guards now required handler c =
      elim (Option-cases (strip_prefix "Bearer " c.authorization)) [
        | inl e ↦ inr (no_bearer now required handler c e)
        | inr (token, e) ↦
            let bearer = strip_prefix_sound "Bearer " c.authorization token e in
            rw (route-bearer now required token handler c bearer) (
              entered now required token handler c (jwt.parse config.jwt_secret now token) bearer
                refl)
      ]
