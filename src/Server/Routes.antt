-- ===== src/Server/Routes.antt =====
-- The routes of `setupHTTPServer` (internal/server/server.go) behind the authentication.
use distributed_job_processo.Base.{
  ℕ, String, ◌≡◌, refl, sym, ap, ◌∙◌, subst, ◌⊎◌, inl, inr, Bool, true, false, Option, none, some,
  List, [], ◌∷◌, arith, str_eq, eq_iff, if◌then◌else◌,
}
use distributed_job_processo.Auth.{
  Claims, Jwt, AuthConfig, Context, a_role, has_permission, level, reaches, role_admin, role_user,
  role_worker, route,
}
use distributed_job_processo.Auth.Access.{Refused, route-Guards}

-- The handlers that are registered.
pub data Endpoint : Type 0 where
  auth_login create_job get_job list_jobs delete_job get_stats get_workers get_nodes : Endpoint
  get_leader get_election_info get_algorithm_info get_cluster_status health_check : Endpoint

-- The argument of `RequireRole`, for the routes of /api/v1.
unfoldable pub required_role : Endpoint → Option String
required_role auth_login = none
required_role create_job = some role_user
required_role get_job = some role_user
required_role list_jobs = some role_user
required_role delete_job = some role_admin
required_role get_stats = some role_user
required_role get_workers = some role_admin
required_role get_nodes = some role_admin
required_role get_leader = some role_user
required_role get_election_info = some role_user
required_role get_algorithm_info = some role_user
required_role get_cluster_status = some role_admin
required_role health_check = none

abbrev api_routes : List (String × String × Endpoint)
api_routes =
    ("POST", "/api/v1/jobs", create_job)
    ∷ ("GET", "/api/v1/jobs/:id", get_job)
    ∷ ("GET", "/api/v1/jobs", list_jobs)
    ∷ ("DELETE", "/api/v1/jobs/:id", delete_job)
    ∷ ("GET", "/api/v1/stats", get_stats)
    ∷ ("GET", "/api/v1/workers", get_workers)
    ∷ ("GET", "/api/v1/nodes", get_nodes)
    ∷ ("GET", "/api/v1/leader", get_leader)
    ∷ ("GET", "/api/v1/election", get_election_info)
    ∷ ("GET", "/api/v1/election/algorithms/:algorithm", get_algorithm_info)
    ∷ ("GET", "/api/v1/cluster", get_cluster_status)
    ∷ ("GET", "/health", health_check)
    ∷ []

-- Method, path and handler of each route.
unfoldable pub routes : AuthConfig → List (String × String × Endpoint)
routes config =
    if config.enabled then ("POST", "/auth/login", auth_login) ∷ api_routes else api_routes

module _ (jwt : Jwt) (config : AuthConfig) where
  abbrev pub serve_as : (now : ℕ) → Option String → (Context → Context) → Context → Context
  serve_as now none handler c = handler c
  serve_as now (some required) handler c = route jwt config now required handler c

  -- A request for an endpoint: what stands before the handler, and the handler.
  unfoldable pub serve :
      (now : ℕ) → Endpoint → (handler : Endpoint → Context → Context) → Context → Context
  unfolding required_role route
  serve now e handler c = serve_as now (required_role e) (handler e) c

-- Only an admin has the permissions of an admin.
permission-admin : (role : String) → has_permission role role_admin ≡ true → role ≡ role_admin
unfolding has_permission level
permission-admin role h =
    by_name (str_eq role role_worker) (str_eq role role_user) (str_eq role role_admin) refl h
  where
    by_name :
        (w u a : Bool)
        → str_eq role role_admin ≡ a
        → reaches (if w then some 1 else if u then some 2 else if a then some 3 else none) (some 3)
          ≡ true
        → role ≡ role_admin
    by_name true u a e h = ground arith
    by_name false true a e h = ground arith
    by_name false false true e h = (eq_iff role role_admin).0 e
    by_name false false false e h = ground arith

-- The request ran the handler as an admin: its header has a valid token with that role.
abbrev pub RunAsAdmin :
    Jwt → AuthConfig → (now : ℕ) → (Context → Context) → Context → Context → Type 0
RunAsAdmin jwt config now handler c after =
    (token : String) × (claims : Claims) × (jwt.parse config.jwt_secret now token ≡ some claims)
    × (claims.role ≡ role_admin)
    × (after
        ≡ handler (record c { user_id = some claims.user_id; role = some (a_role role_admin) }))

-- With authentication on, the handler of an endpoint whose required role is admin runs only for
-- a valid token of that role: any other request is refused with 401 or 403 before the handler.
pub serve-RunAsAdmin :
    (jwt : Jwt) (config : AuthConfig) (now : ℕ) (e : Endpoint)
    (handler : Endpoint → Context → Context) (c : Context)
    → config.enabled ≡ true
    → required_role e ≡ some role_admin
    → RunAsAdmin jwt config now (handler e) c (serve jwt config now e handler c)
      ⊎ Refused c (serve jwt config now e handler c)
unfolding serve
serve-RunAsAdmin jwt config now e handler c enabled admin =
    subst
      (λ r.
        RunAsAdmin jwt config now (handler e) c (serve_as jwt config now r (handler e) c)
        ⊎ Refused c (serve_as jwt config now r (handler e) c))
      (sym admin)
      (elim (route-Guards jwt config enabled now role_admin (handler e) c) [
        | inr refused ↦ inr refused
        | inl (token, claims, bearer, parsed, permitted, after) ↦
            let is_admin = permission-admin claims.role permitted in
            inl (
              token,
              claims,
              parsed,
              is_admin,
              after
                  ∙ ap
                      (λ r.
                        handler e
                          (record c { user_id = some claims.user_id; role = some (a_role r) }))
                      is_admin,
            )
      ])
