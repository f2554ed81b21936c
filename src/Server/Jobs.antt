-- ===== src/Server/Jobs.antt =====
-- The handlers of the API for jobs (internal/server/server.go). gin, and `ObjectIDFromHex` of the
-- driver, are parameters: the body that bound, the parameters of the path and of the query.
use distributed_job_processo.Base.{
  ℕ, String, Bool, true, false, Option, none, some, List, [], ◌∷◌, str_eq, ◌==◌, if◌then◌else◌,
}
use distributed_job_processo.Job.{Job}
use distributed_job_processo.Queue.Server.{Codec, Redis}
use distributed_job_processo.Queue.Defs.{push}
use distributed_job_processo.Storage.Jobs.{Collection, default_if, create_job, get_job, delete_job}
use distributed_job_processo.Storage.Listing.{JobFilter, Queries, get_jobs}
use distributed_job_processo.Worker.Pool.{World}

-- `c.JSON` with an error, or with a status and a body. The texts of errors are left out.
pub data Response (A : Type 0) : Type 0 where
  failed : (status : ℕ) → Response A
  answered : (status : ℕ) → A → Response A

abbrev pub with_retries : (default : ℕ) → Job → Job
with_retries default j = record j {
  max_retries = default_if (j.max_retries == 0) default j.max_retries;
}

module _ {S D M : Type 0} (codec : Codec D) (redis : Redis S D) (jobs : Collection M) where
  abbrev pub after_push : Job → M → S × Bool → Response Job × World S M
  after_push j m (s, false) = (failed 500, record { redis = s; mongo = m })
  after_push j m (s, true) = (answered 201 j, record { redis = s; mongo = m })

  abbrev pub after_create : (now : ℕ) → S → Job × M × Bool → Response Job × World S M
  after_create now s (j, m, false) = (failed 500, record { redis = s; mongo = m })
  after_create now s (j, m, true) = after_push j m (push codec redis now j s)

  -- `createJob`: the body, if it binds; `now` is read by CreateJob, `later` by Push.
  unfoldable pub handle_create_job :
      (max_retries new_id now later : ℕ) → Option Job → World S M → Response Job × World S M
  unfolding create_job push
  handle_create_job max_retries new_id now later none w = (failed 400, w)
  handle_create_job max_retries new_id now later (some j) w =
      after_create later w.redis (create_job jobs new_id now (with_retries max_retries j) w.mongo)

abbrev pub found_or_404 : Option Job → Response Job
found_or_404 none = failed 404
found_or_404 (some j) = answered 200 j

module _ {S M : Type 0} (jobs : Collection M) (from_hex : String → Option ℕ) where
  abbrev pub get_by_id : World S M → Option ℕ → Response Job
  get_by_id w none = failed 400
  get_by_id w (some id) = found_or_404 (get_job jobs id w.mongo)

  unfoldable pub handle_get_job : String → World S M → Response Job
  unfolding get_job
  handle_get_job id w = get_by_id w (from_hex id)

  abbrev pub after_delete : S → M × Bool → Response Unit × World S M
  after_delete s (m, false) = (failed 404, record { redis = s; mongo = m })
  after_delete s (m, true) = (answered 200 tt, record { redis = s; mongo = m })

  abbrev pub delete_by_id : World S M → Option ℕ → Response Unit × World S M
  delete_by_id w none = (failed 400, w)
  delete_by_id w (some id) = after_delete w.redis (delete_job jobs id w.mongo)

  unfoldable pub handle_delete_job : String → World S M → Response Unit × World S M
  unfolding delete_job
  handle_delete_job id w = delete_by_id w (from_hex id)

-- The filter of `listJobs`; a parameter that the query does not have is the empty text.
unfoldable pub list_filter : (status type : String) → JobFilter
list_filter status type = record {
  status = if str_eq status "" then [] else status ∷ [];
  type = type;
  worker_id = "";
  created_after = none;
  created_before = none;
  limit = 50;
  offset = 0;
}

abbrev pub listed_or_500 : {A : Type 0} → Option A → Response A
listed_or_500 none = failed 500
listed_or_500 (some js) = answered 200 js

unfoldable pub handle_list_jobs :
    {S M : Type 0} → Queries M → (status type : String) → World S M → Response (List Job)
unfolding list_filter get_jobs
handle_list_jobs queries status type w =
    listed_or_500 (get_jobs queries (list_filter status type) w.mongo)
