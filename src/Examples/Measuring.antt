-- ===== src/Examples/Measuring.antt =====
-- Metrics in a log of calls, and certificates that are texts.
use distributed_job_processo.Base.{
  ℕ, String, ◌≡◌, refl, true, false, Option, none, some, List, [], ◌∷◌,
}
use mathlib.Core.List.{List-discrete}
use distributed_job_processo.Metrics.{
  Vector, node_info, Call, Operation, set_value, increment, observe_value,
}
use distributed_job_processo.Metrics.Series.{
  Registry, Gauges, leadership_changes, leadership_changes-value, node_series,
}
use distributed_job_processo.Tls.{TlsConfig, Files, create_https_server, create_http_client}
use distributed_job_processo.Tls.Secured.{Ensures, SecuredServer, SecuredClient, made-Secured}
use distributed_job_processo.Examples.Stores.{String-discrete}

Vector-discrete : Discrete Vector
Vector-discrete = hlevel

abbrev texts_discrete : Discrete (List String)
texts_discrete = List-discrete String-discrete

-- What a call leaves in a series.
abbrev last_value : Operation ℕ → Option ℕ → Option ℕ
last_value (set_value x) o = some x
last_value increment o = o
last_value (observe_value x) o = o

-- The first answer if both decisions hold.
if_both : {A B : Type 0} → Dec A → Dec B → Option ℕ → Option ℕ → Option ℕ
if_both (yes a) (yes b) o p = o
if_both (yes a) (no k) o p = p
if_both (no h) d o p = p

if_both-yes : {A B : Type 0} (d : Dec A) (e : Dec B) (o p : Option ℕ) → A → B → if_both d e o p ≡ o
unfolding if_both
if_both-yes (yes a) (yes b) o p x y = refl
if_both-yes (yes a) (no k) o p x y = absurd (k y)
if_both-yes (no h) d o p x y = absurd (h x)

if_both-no :
    {A B : Type 0} (d : Dec A) (e : Dec B) (o p : Option ℕ) → (A → ¬ B) → if_both d e o p ≡ p
unfolding if_both
if_both-no (yes a) (yes b) o p h = absurd (h a b)
if_both-no (yes a) (no k) o p h = refl
if_both-no (no k) d o p h = refl

value_in : Vector → List String → List (Call ℕ) → Option ℕ
value_in v ls [] = none
value_in v ls (c ∷ s) =
    let rest = value_in v ls s in
    if_both (Vector-discrete c.vector v) (texts_discrete c.values ls) (last_value c.operation rest)
      rest

abbrev log : Registry (List (Call ℕ)) ℕ
log = record { apply = λ c s. c ∷ s; value = value_in }

log-Gauges : Gauges log
unfolding value_in
log-Gauges = record {
  value_set = λ v ls x s.
      if_both-yes (Vector-discrete v v) (texts_discrete ls ls) (some x) (value_in v ls s) refl refl;
  value_other = λ c v ls s h.
      if_both-no (Vector-discrete c.vector v) (texts_discrete c.values ls)
        (last_value c.operation (value_in v ls s)) (value_in v ls s) h;
}

leadership_changes-value_example :
    log.value node_info (node_series "n" true) (leadership_changes log 1 "n" (true ∷ false ∷ []) [])
    ≡ some 1
leadership_changes-value_example =
    leadership_changes-value log log-Gauges 1 "n" true (true ∷ false ∷ []) []

abbrev text_files : Files String String String
text_files = record {
  load_key_pair = λ c k. some c;
  read_file = λ f. some f;
  parse_roots = λ p. some p;
}

abbrev tls_on : TlsConfig
tls_on = record { enabled = true; cert_file = "cert.pem"; key_file = "key.pem" }

made-Secured_example :
    Ensures text_files tls_on refl
      (SecuredServer text_files tls_on refl ":8080")
      (create_https_server text_files tls_on ":8080")
    × Ensures text_files tls_on refl
        (SecuredClient text_files tls_on refl "ca.pem")
        (create_http_client text_files tls_on "ca.pem")
made-Secured_example = made-Secured text_files tls_on refl ":8080" "ca.pem"
