-- ===== src/Examples/Entering.antt =====
-- A user logs in and reads a job.
use distributed_job_processo.Base.{
  String, ◌≡◌, refl, sym, ap, ◌⊎◌, inl, inr, true, false, Option, none, some, [], ◌∷◌, arith,
  if◌then◌else◌, Bool-cases,
}
use native.Mathlib.Decide.{ℕ_discrete}
use distributed_job_processo.Auth.{
  Claims, Jwt, AuthConfig, claims_for, a_role, Context, login, granted, route, has_permission,
  role_user, role_admin,
}
use distributed_job_processo.Auth.Access.{Admitted, Refused, login-Admits, route-Guards}
use distributed_job_processo.Examples.Stores.{String-discrete, is_yes, is_yes_iff}

Claims-discrete : Discrete Claims
Claims-discrete = hlevel (ℕ_discrete, String-discrete)

abbrev pub config : AuthConfig
config = record { enabled = true; jwt_secret = "secret"; token_ttl = 3_600_000_000_000 }

abbrev pub issued : Claims
issued = claims_for config 5 6 "user" role_user

-- A library that signs one text only.
pub one_token : Claims → Option String
one_token c = if is_yes (Claims-discrete c issued) then some "t" else none

one_token-eq : (c : Claims) (token : String) → one_token c ≡ some token → c ≡ issued
unfolding one_token
one_token-eq c token h = elim (Bool-cases (is_yes (Claims-discrete c issued))) [
  | inl e ↦ (is_yes_iff (Claims-discrete c issued)).0 e
  | inr e ↦ absurd (ground arith)
]

one_token-issued : one_token issued ≡ some "t"
unfolding one_token
one_token-issued = rw ((is_yes_iff (Claims-discrete issued issued)).1 refl) refl

abbrev pub tiny_jwt : Jwt
tiny_jwt = record { sign = λ secret c. one_token c; parse = λ secret now token. some issued }

abbrev pub request : Context
request = record {
  authorization = "Bearer t";
  user_id = none;
  role = none;
  answers = [];
  aborted = false;
}

abbrev pub answer : Context → Context
answer c = record c { answers = (200, "job") ∷ c.answers }

logs_in : login tiny_jwt config 5 6 "user" "user123" ≡ granted "t" role_user
unfolding login
logs_in = rw one_token-issued refl

login-Admits_example :
    route tiny_jwt config 100 role_user answer request
    ≡ answer (record request { user_id = some "user"; role = some (a_role role_user) })
unfolding has_permission
login-Admits_example =
    login-Admits tiny_jwt config refl
      (λ c end begin now token e i l h. ap some (sym (one_token-eq c token h))) 5 6 100 "user"
      "user123" "t" role_user role_user answer request logs_in (omega arith) refl refl

route-Guards_example :
    Admitted tiny_jwt config 100 role_admin answer request
      (route tiny_jwt config 100 role_admin answer request)
    ⊎ Refused request (route tiny_jwt config 100 role_admin answer request)
route-Guards_example = route-Guards tiny_jwt config refl 100 role_admin answer request
