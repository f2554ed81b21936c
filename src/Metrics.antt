-- ===== src/Metrics.antt =====
-- internal/metrics/metrics.go: what is measured. The Prometheus client is a parameter: a function
-- of the package yields the calls that it makes. `V` stands for float64.
pub mod Series
use distributed_job_processo.Base.{
  ℕ, zero, suc, ◌+◌, ◌-◌, ◌*◌, ◌/◌, ◌%◌, ◌^◌, ◌≤◌, ◌<◌, String, ◌≡◌, refl, sym, ap, ◌∙◌, subst, ◌≢◌,
  ◌↔◌, ◌⊎◌, inl, inr, Bool, true, false, not, ◌&&◌, ◌||◌, Option, none, some, List, [], ◌∷◌, ◌++◌,
  map, arith, str_eq, eq_iff, ltb, leb, ◌==◌, if◌then◌else◌, Bool-cases, Option-cases, str_eq_self,
  str_eq_of_ne, length, get_elem?, filter, Member, All, Any, wrap, minus_one, slt, inc, negate,
  slt-eq-ltb, some-eq,
}

-- The vectors of the package.
pub data Vector : Type 0 where
  jobs_total job_duration workers_active queue_size leader_elections node_info retry_attempts :
      Vector

abbrev pub metric_name : Vector → String
metric_name jobs_total = "jobs_total"
metric_name job_duration = "job_duration_seconds"
metric_name workers_active = "workers_active"
metric_name queue_size = "queue_size"
metric_name leader_elections = "leader_elections_total"
metric_name node_info = "node_info"
metric_name retry_attempts = "retry_attempts_total"

abbrev pub label_names : Vector → List String
label_names jobs_total = "status" ∷ "type" ∷ []
label_names job_duration = "type" ∷ []
label_names workers_active = "node_id" ∷ []
label_names queue_size = "queue_type" ∷ []
label_names leader_elections = "node_id" ∷ "result" ∷ []
label_names node_info = "node_id" ∷ "version" ∷ "is_leader" ∷ []
label_names retry_attempts = "type" ∷ "attempt" ∷ []

-- Counters are incremented, gauges set, histograms observe.
pub data Kind : Type 0 where
  counter gauge histogram : Kind

abbrev pub kind_of : Vector → Kind
kind_of jobs_total = counter
kind_of job_duration = histogram
kind_of workers_active = gauge
kind_of queue_size = gauge
kind_of leader_elections = counter
kind_of node_info = gauge
kind_of retry_attempts = counter

pub data Operation (V : Type 0) : Type 0 where
  increment : Operation V
  observe_value : V → Operation V
  set_value : V → Operation V

-- `vector.WithLabelValues(values…)` with what follows.
pub record Call (V : Type 0) : Type 0 where
  pub vector : Vector
  pub values : List String
  pub operation : Operation V

abbrev pub inc_of : {V : Type 0} → Vector → List String → Call V
inc_of vector values = record { vector = vector; values = values; operation = increment }

-- `leaderStr`
abbrev pub bool_text : Bool → String
bool_text true = "true"
bool_text false = "false"

module _ {V : Type 0} where
  unfoldable pub record_job_start : (type : String) → List (Call V)
  record_job_start type = inc_of jobs_total ("started" ∷ type ∷ []) ∷ []

  -- `seconds` is Duration.Seconds.
  unfoldable pub record_job_completion :
      (seconds : ℕ → V) → (type : String) → (duration : ℕ) → List (Call V)
  record_job_completion seconds type duration =
      inc_of jobs_total ("completed" ∷ type ∷ [])
      ∷ record {
        vector = job_duration;
        values = type ∷ [];
        operation = observe_value (seconds duration);
      }
      ∷ []

  unfoldable pub record_job_failure : (type : String) → List (Call V)
  record_job_failure type = inc_of jobs_total ("failed" ∷ type ∷ []) ∷ []

  -- `text_of_rune` is the conversion string(rune(n)), the text of one code point.
  unfoldable pub record_job_retry :
      (text_of_rune : ℕ → String) → (type : String) → (attempt : ℕ) → List (Call V)
  record_job_retry text_of_rune type attempt =
      inc_of retry_attempts (type ∷ text_of_rune attempt ∷ []) ∷ []

  unfoldable pub update_worker_count : (node_id : String) → V → List (Call V)
  update_worker_count node_id count =
      record { vector = workers_active; values = node_id ∷ []; operation = set_value count } ∷ []

  unfoldable pub update_queue_size : (queue_type : String) → V → List (Call V)
  update_queue_size queue_type size =
      record { vector = queue_size; values = queue_type ∷ []; operation = set_value size } ∷ []

  unfoldable pub record_leader_election : (node_id result : String) → List (Call V)
  record_leader_election node_id result = inc_of leader_elections (node_id ∷ result ∷ []) ∷ []

  -- `one` is the constant 1.
  unfoldable pub update_node_info :
      (one : V) → (node_id version : String) → (is_leader : Bool) → List (Call V)
  update_node_info one node_id version is_leader =
      record {
        vector = node_info;
        values = node_id ∷ version ∷ bool_text is_leader ∷ [];
        operation = set_value one;
      }
      ∷ []

  -- The callback that `Start` of internal/server/server.go adds to the election.
  unfoldable pub on_leadership : (one : V) → (node_id : String) → (is_leader : Bool) → List (Call V)
  unfolding record_leader_election update_node_info
  on_leadership one node_id is_leader =
      (if is_leader then record_leader_election node_id "elected" else [])
      ++ update_node_info one node_id "1.0.0" is_leader
