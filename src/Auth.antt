-- ===== src/Auth.antt =====
-- The authentication of the API (internal/auth/auth.go). JWT library: a parameter (`Jwt`); gin: a
-- middleware takes the remaining handlers of the chain, which `c.Next()` runs.
use distributed_job_processo.Base.{
  ℕ, ◌+◌, ◌*◌, ◌/◌, ◌-◌, String, Bool, true, false, not, ◌&&◌, Option, none, some, List, [], ◌∷◌,
  str_eq, leb, ◌==◌, if◌then◌else◌,
}
use Prim.Native.Char.{code}
pub mod Access

-- github.com/golang-jwt/jwt, for HS256. `parse secret now token` is `ParseWithClaims` with the
-- key function that hands over the secret for an HMAC method only: `none` if it returns an error
-- or the token is not valid at the time `now`.
pub record Claims : Type 0 where
  pub user_id : String
  pub role : String
  pub expires_at : Option ℕ
  pub issued_at : Option ℕ
  pub issuer : String

pub record Jwt : Type 0 where
  pub sign : String → Claims → Option String
  pub parse : String → ℕ → String → Option Claims

pub record AuthConfig : Type 0 where
  pub enabled : Bool
  pub jwt_secret : String
  pub token_ttl : ℕ

abbrev pub role_admin : String
role_admin = "admin"

abbrev pub role_user : String
role_user = "user"

abbrev pub role_worker : String
role_worker = "worker"

-- `jwt.NewNumericDate`: as documented, cut to `TimePrecision`, a second by default.
abbrev pub numeric_date : ℕ → ℕ
numeric_date t = t / 1_000_000_000 * 1_000_000_000

-- `now` is read for the end of the token, `later` for its issue.
abbrev pub claims_for : AuthConfig → (now later : ℕ) → (user_id role : String) → Claims
claims_for config now later user_id role = record {
  user_id = user_id;
  role = role;
  expires_at = some (numeric_date (now + config.token_ttl));
  issued_at = some (numeric_date later);
  issuer = "distributed-job-processor";
}

unfoldable pub generate_token :
    Jwt → AuthConfig → (now later : ℕ) → (user_id role : String) → Option String
generate_token jwt config now later user_id role =
    if config.enabled
    then jwt.sign config.jwt_secret (claims_for config now later user_id role)
    else some ""

abbrev pub system_claims : Claims
system_claims = record {
  user_id = "system";
  role = role_admin;
  expires_at = none;
  issued_at = none;
  issuer = "";
}

unfoldable pub validate_token : Jwt → AuthConfig → (now : ℕ) → String → Option Claims
validate_token jwt config now token =
    if config.enabled then jwt.parse config.jwt_secret now token else some system_claims

-- A value of the context: a `Role`, or a value of another type.
pub data Value : Type 0 where
  a_role : String → Value
  other : Value

pub record Context : Type 0 where
  pub authorization : String
  pub user_id : Option String
  pub role : Option Value
  pub answers : List (ℕ × String)  -- calls of `c.JSON`, the latest first
  pub aborted : Bool

-- `c.JSON` and `c.Abort`
abbrev pub refuse : ℕ → String → Context → Context
refuse status error c = record c { answers = (status, error) ∷ c.answers; aborted = true }

unfoldable pub strip_prefix : String → String → Option String
strip_prefix String.[] s = some s
strip_prefix (String.◌∷◌ c p) String.[] = none
strip_prefix (String.◌∷◌ c p) (String.◌∷◌ d s) =
    let rest = strip_prefix p s in if code c == code d then rest else none

abbrev pub or_whole : String → Option String → String
or_whole s none = s
or_whole s (some t) = t

-- `strings.TrimPrefix`
unfoldable pub trim_prefix : String → String → String
unfolding strip_prefix
trim_prefix s prefix = or_whole s (strip_prefix prefix s)

abbrev pub enter_with : (next : Context → Context) → Option Claims → Context → Context
enter_with next none c = refuse 401 "Invalid token" c
enter_with next (some claims) c =
    next (record c { user_id = some claims.user_id; role = some (a_role claims.role) })

unfoldable pub auth_middleware :
    Jwt → AuthConfig → (now : ℕ) → (next : Context → Context) → Context → Context
unfolding trim_prefix validate_token
auth_middleware jwt config now next c =
    let token = trim_prefix c.authorization "Bearer " in
    if not config.enabled
    then next c
    else if str_eq c.authorization ""
    then refuse 401 "Authorization header required" c
    else if str_eq token c.authorization
    then refuse 401 "Bearer token required" c
    else enter_with next (validate_token jwt config now token) c

-- The map `roleHierarchy`.
unfoldable pub level : String → Option ℕ
level role =
    if str_eq role role_worker
    then some 1
    else if str_eq role role_user
    then some 2
    else if str_eq role role_admin
    then some 3
    else none

abbrev pub reaches : Option ℕ → Option ℕ → Bool
reaches (some user) (some required) = leb required user
reaches (some user) none = false
reaches none required = false

unfoldable pub has_permission : (user_role required_role : String) → Bool
unfolding level
has_permission user_role required_role = reaches (level user_role) (level required_role)

abbrev pub permit :
    (next : Context → Context) → (required : String) → Option Value → Context → Context
permit next required none c = refuse 403 "Role not found in context" c
permit next required (some other) c = refuse 403 "Invalid role type" c
permit next required (some (a_role role)) c =
    if has_permission role required then next c else refuse 403 "Insufficient permissions" c

unfoldable pub require_role : AuthConfig → String → (next : Context → Context) → Context → Context
unfolding has_permission
require_role config required next c =
    if config.enabled then permit next required c.role c else next c

-- A route of the server: `api.Use(AuthMiddleware())` if authentication is on, then `RequireRole`.
unfoldable pub route :
    Jwt → AuthConfig → (now : ℕ) → String → (handler : Context → Context) → Context → Context
unfolding auth_middleware require_role
route jwt config now required handler =
    if config.enabled
    then auth_middleware jwt config now (require_role config required handler)
    else require_role config required handler

unfoldable pub authenticate_user : (username password : String) → String
authenticate_user username password =
    if str_eq username "admin" && str_eq password "admin123"
    then role_admin
    else if str_eq username "user" && str_eq password "user123"
    then role_user
    else if str_eq username "worker" && str_eq password "worker123"
    then role_worker
    else ""

pub data LoginReply : Type 0 where
  refused : ℕ → LoginReply
  granted : (token role : String) → LoginReply

abbrev pub token_reply : String → Option String → LoginReply
token_reply role none = refused 500
token_reply role (some token) = granted token role

-- `LoginHandler` on a request whose body binds: both fields are there and not empty.
unfoldable pub login :
    Jwt → AuthConfig → (now later : ℕ) → (username password : String) → LoginReply
unfolding authenticate_user generate_token
login jwt config now later username password =
    let role = authenticate_user username password in
    if str_eq role ""
    then refused 401
    else token_reply role (generate_token jwt config now later username role)
