-- ===== src/Job.antt =====
-- pkg/job/job.go: the job record and the registry of processors.
-- A string stands for itself, an ObjectID is a number (0 is the zero id), a time is a number of
-- nanoseconds since the zero time, an int is a 64-bit pattern. The program only carries the
-- payload, which is its JSON text here.
use distributed_job_processo.Base.{
  ℕ, String, ◌≡◌, refl, Option, none, some, List, [], ◌∷◌, str_eq, if◌then◌else◌,
}

abbrev pub status_pending : String
status_pending = "pending"

abbrev pub status_running : String
status_running = "running"

abbrev pub status_completed : String
status_completed = "completed"

abbrev pub status_failed : String
status_failed = "failed"

abbrev pub status_retrying : String
status_retrying = "retrying"

abbrev pub priority_low : ℕ
priority_low = 1

abbrev pub priority_normal : ℕ
priority_normal = 5

abbrev pub priority_high : ℕ
priority_high = 10

pub record Job : Type 0 where
  pub id : ℕ
  pub type : String
  pub payload : String
  pub status : String
  pub priority : ℕ
  pub created_at : ℕ
  pub updated_at : ℕ
  pub scheduled_at : ℕ
  pub started_at : Option ℕ
  pub completed_at : Option ℕ
  pub retry_count : ℕ
  pub max_retries : ℕ
  pub worker_id : String
  pub error : String

-- `map[string]Processor` as an association list, the latest registration first.
module _ {ℓ} {P : Type ℓ} where
  unfoldable pub register : String → P → List (String × P) → List (String × P)
  register kind p r = (kind, p) ∷ r

  unfoldable pub get : List (String × P) → String → Option P
  get [] kind = none
  get ((k, p) ∷ r) kind = if str_eq k kind then some p else get r kind

  -- Looking up after a registration gives the new processor for its type and the old answer else.
  pub get-register :
      (r : List (String × P)) (kind other : String) (p : P)
      → get (register kind p r) other ≡ (if str_eq kind other then some p else get r other)
  unfolding get register
  get-register r kind other p = refl
